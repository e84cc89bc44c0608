-- ===== src/Ipo/Allotted.antt =====
-- The allotment of slots on a database that fails at nothing.
use dalal_street_server.Base.{
  ℕ, ◌≡◌, refl, sym, subst, ◌∙◌, true, false, Option, none, some, List, [], ◌∷◌, ◌==◌, arith,
  if◌then◌else◌, Bool-cases, inl, inr, All, Returns, returns, bind-Returns, weaken-Returns,
}
use dalal_street_server.Account.State.{User, Server}
use dalal_street_server.Account.Tx.{Tx}
use dalal_street_server.Account.Yields.{Ends, ends, bind-Ends}
use dalal_street_server.Account.Success.{IsReliable, Any, committed-Ends, save-Ends}
use dalal_street_server.Account.Holding.{Holding, set_world}
use dalal_street_server.Account.Holding.Taken.{Taken, waiting, missing, taken, take_user-Taken}
use dalal_street_server.Ipo.{IpoBid, IpoStore}
use dalal_street_server.Ipo.Funds.{end_change, change_taken, change_user, save_slot_tx, spent}
use dalal_street_server.Ipo.Allot.{allot_ipo_slot_to_user, each_bid}
use dalal_street_server.Ipo.Changed.{Changed, stuck, undone, changed, change_user-Changed}
use dalal_street_server.Account.Holding.Same.{SameLocks, OneChanged}

-- A user after the slots of the bids with the user's id are paid.
abbrev pub charged : ℕ → List IpoBid → ℕ → User → User
charged cost [] j user = user
charged cost (bid ∷ bids) j user =
    charged cost bids j (if bid.user_id == j then spent cost user else user)

module _ (s : Server) where
  -- The call returns without an error.
  abbrev Succeeds : {A : Type 0} → Option (Option A × Holding s.World) → Type 0
  Succeeds = Returns (λ (x, h). (a : _) × (x ≡ some a))

  end_change-Succeeds :
      {A : Type 0} (id : ℕ) (old new : User) (undo : s.World → s.World) (h : Holding s.World)
      (r : s.World × Option A)
      → Ends Any r
      → Succeeds (some (end_change s id old new undo h r))
  unfolding end_change
  end_change-Succeeds id old new undo h _ (ends p) = returns (_, refl)

  taken-Succeeds :
      {A : Type 0} (id : ℕ) (change : User → User) (tx : User → Tx s.World A)
      (undo : s.World → s.World) (h : Holding s.World) (o : Option (Option User × Holding s.World))
      → h.held id ≡ false
      → (u : User) × (s.find_user h.users.world id ≡ some u)
      → ((user : User) (w : s.World) → Ends Any (tx user w))
      → Taken s id h o
      → Succeeds (elim o [ none ↦ none | some r ↦ change_taken s id change tx undo r ])
  unfolding change_taken
  taken-Succeeds id change tx undo h _ free found works (waiting e) = absurd (ground (arith, free))
  taken-Succeeds id change tx undo h _ free (u, e) works (missing _ e' _) = absurd (cc)
  taken-Succeeds id change tx undo h _ free found works (taken {user} {m'} _ _ _) =
      end_change-Succeeds id user (change user) undo
        (record { users = m'; held = λ j. if id == j then true else h.held j }) _ (works _ _)

  -- What the call does when it succeeds.
  abbrev Done :
      {A : Type 0}
      → ℕ
      → (User → User)
      → Holding s.World
      → Option (Option A × Holding s.World)
      → Type 0
  Done id change h = Returns (λ (x, h').
      ((a : _) × (x ≡ some a))
      × ((u : User) × OneChanged h.users.user_locks h.held id change u h')
      × SameLocks h.users.user_locks h.held h')

  Changed-Done :
      {A : Type 0} (id : ℕ) (change : User → User) (h : Holding s.World)
      (r : Option (Option A × Holding s.World))
      → Changed h.users.user_locks h.held id change r
      → Succeeds r
      → Done id change h r
  Changed-Done id change h _ stuck x = elim x [ ]
  Changed-Done id change h _ (undone _ _) (returns (a, e)) = absurd (cc)
  Changed-Done id change h _ (changed u one free) (returns e) = returns (e, (u, one), free)

module _ (s : Server) (store : IpoStore s.World s.floats.Float) (reliable : IsReliable s)
    (saves_bids : (w : s.World) (bid : IpoBid) → Ends Any (store.save_bid w bid)) where
  allot-Done :
      (stock_id stocks_per_slot cost price : ℕ) (bid : IpoBid) (h : Holding s.World)
      → h.held bid.user_id ≡ false
      → ((w : s.World) → (u : User) × (s.find_user w bid.user_id ≡ some u))
      → Done s bid.user_id
          (spent cost)
          h
          (allot_ipo_slot_to_user s store stock_id stocks_per_slot cost price bid h)
  unfolding allot_ipo_slot_to_user change_user save_slot_tx
  allot-Done stock_id stocks_per_slot cost price bid h free found =
      Changed-Done s bid.user_id (spent cost) h _
        (change_user-Changed s bid.user_id (spent cost) _ _ h)
        (taken-Succeeds s bid.user_id (spent cost) _ _ (set_world s (s.begin h.users.world) h) _
          free (found _)
          (λ user w. bind-Ends _ _ _ (saves_bids w _) λ _ w1 _.
            save-Ends s reliable _ _ w1
              λ _ w2. save-Ends s reliable _ _ w2 λ _ w3. committed-Ends s reliable w3)
          (take_user-Taken s bid.user_id _))

  after_slot :
      (cost j : ℕ) (bid : IpoBid) (h h' : Holding s.World) (u v : User)
      → OneChanged h.users.user_locks h.held bid.user_id (spent cost) u h'
      → h.users.user_locks j ≡ some v
      → h'.users.user_locks j ≡ some (if bid.user_id == j then spent cost v else v)
  after_slot cost j bid h h' u v one e = elim (Bool-cases (bid.user_id == j)) [
    | inl same ↦
        let e' : bid.user_id ≡ j = ground arith in
        let before = subst (λ k. h.users.user_locks k ≡ some v) (sym e') e in
        rw (same, one.prior v before)
          (subst (λ k. h'.users.user_locks k ≡ some (spent cost u)) e' one.own)
    | inr other ↦ rw other (one.others j other ∙ e)
  ]

  -- On a database whose saves and commits succeed, with no lock held, and where the user of each bid
  -- is found, the loop that allots slots to bids ends without an error and leaves no lock held. Every
  -- user who was in memory is there, with the cost of a slot taken off the reserved cash for each bid
  -- of the user.
  pub each_bid-charged :
      (stock_id stocks_per_slot cost price : ℕ) (bids : List IpoBid) (h : Holding s.World)
      → ((j : ℕ) → h.held j ≡ false)
      → ((w : s.World) → All (λ bid. (u : User) × (s.find_user w bid.user_id ≡ some u)) bids)
      → Returns
          (λ (done, h').
            (done ≡ some tt)
            × ((j : ℕ) → h'.held j ≡ false)
            × ((j : ℕ) (v : User)
                → h.users.user_locks j ≡ some v
                → h'.users.user_locks j ≡ some (charged cost bids j v)))
          (each_bid s store
            (allot_ipo_slot_to_user s store stock_id stocks_per_slot cost price)
            bids
            h)
  unfolding each_bid
  each_bid-charged stock_id stocks_per_slot cost price [] h free found =
      returns (refl, free, λ j v e. e)
  each_bid-charged stock_id stocks_per_slot cost price (bid ∷ bids) h free found =
      bind-Returns
        (allot-Done stock_id stocks_per_slot cost price bid h (free bid.user_id) (λ w. (found w).0))
        (λ (x, h') ((a, e), (u, one), same). rw e (
          weaken-Returns
            (λ (done, h'') (ok, free'', rest).
              (ok, free'', λ j v at. rest j _ (after_slot cost j bid h h' u v one at)))
            (each_bid-charged stock_id stocks_per_slot cost price bids h' (λ j. same j ∙ free j)
              (λ w. (found w).1))))
