-- ===== src/Ipo/Outcome.antt =====
-- What a bid for a slot comes to.
use dalal_street_server.Base.{
  ℕ, ◌≤◌, ◌<◌, ◌≡◌, refl, subst, ◌∙◌, Bool, true, false, Option, none, some, ltb, ◌==◌,
  if◌then◌else◌, arith, split_if, ◌>>=◌,
}
use dalal_street_server.Base.Word.{mul64, word_mod}
use dalal_street_server.Account.State.{User, Server}
use dalal_street_server.Account.Holding.{Holding, release}
use dalal_street_server.Account.Holding.Taken.{Taken, waiting, missing, taken, take_user-Taken}
use dalal_street_server.Ipo.{IpoStock, IpoStore, IpoError, not_enough_cash}
use dalal_street_server.Ipo.Funds.{placed, save_new_ipo_bid_transaction}
use dalal_street_server.Ipo.Bid.{
  Created, refused, created, or_zero, afford, end_create, create_afforded, create_known,
  create_ipo_bid,
}
use dalal_street_server.Ipo.Changed.{Changed, stuck, undone, changed, change_user-Changed}
use dalal_street_server.Account.Holding.Same.{SameLocks, SameUsers, OneChanged, released-SameLocks}

module _ (users : ℕ → Option User) (held : ℕ → Bool) where
  -- Creation does not return; refuses, with users and locks as they were; refuses for lack of cash and
  -- keeps the user's lock; or moves the price of the slot, which the cash covers, to the reserved cash.
  pub data CreateOutcome {World : Type 0} (user_id price : ℕ)
      : Option (Created × Holding World) → Type 0 where
    no_return : CreateOutcome user_id price none
    refuses :
        {e : IpoError} {h : Holding World}
        → SameUsers users held h
        → SameLocks users held h
        → CreateOutcome user_id price (some (refused e, h))
    lacks_cash :
        {h : Holding World}
        → SameUsers users held h
        → h.held user_id ≡ true
        → CreateOutcome user_id price (some (refused not_enough_cash, h))
    creates :
        {id : ℕ} {h : Holding World} (u : User)
        → price ≤ u.cash
        → OneChanged users held user_id (placed price) u h
        → SameLocks users held h
        → CreateOutcome user_id price (some (created id, h))

module _ (users users1 : ℕ → Option User) (held held1 : ℕ → Bool) (user_id price : ℕ)
    (kept : (j : ℕ) (u : User) → users j ≡ some u → users1 j ≡ some u)
    (others : (j : ℕ) → (user_id == j) ≡ false → users1 j ≡ users j)
    (locks : (j : ℕ) → held1 j ≡ held j) where
  -- The same outcome from the users before one of them is loaded.
  rebase-CreateOutcome :
      {World : Type 0} {r : Option (Created × Holding World)}
      → CreateOutcome users1 held1 user_id price r
      → CreateOutcome users held user_id price r
  rebase-CreateOutcome no_return = no_return
  rebase-CreateOutcome (refuses same free) =
      refuses (λ j u e. same j u (kept j u e)) (λ j. free j ∙ locks j)
  rebase-CreateOutcome (lacks_cash same own) = lacks_cash (λ j u e. same j u (kept j u e)) own
  rebase-CreateOutcome (creates u covered one free) =
      creates u covered
        (record {
          own = one.own;
          prior = λ v e. one.prior v (kept user_id v e);
          others = λ j e. one.others j e ∙ others j e;
        })
        (λ j. free j ∙ locks j)

module _ (s : Server) (store : IpoStore s.World s.floats.Float) (user_id : ℕ) where
  module _ (h : Holding s.World) where
    abbrev Outcome : ℕ → Option (Created × Holding s.World) → Type 0
    Outcome = CreateOutcome h.users.user_locks h.held user_id

    end_create-Outcome :
        (user : User) (price : ℕ) (r : Option (Option ℕ × Holding s.World))
        → h.users.user_locks user_id ≡ some user
        → price ≤ user.cash
        → Changed h.users.user_locks h.held user_id (placed price) r
        → Outcome price (r >>= λ x. some (end_create s store x))
    unfolding end_create
    end_create-Outcome user price _ own covered stuck = no_return
    end_create-Outcome user price _ own covered (undone same free) = refuses same free
    end_create-Outcome user price _ own covered (changed u one free) =
        creates u (subst (λ v. price ≤ v.cash) (one.prior user own) covered) one free

    create_afforded-Outcome :
        (ipo_id slots : ℕ) (ipo : IpoStock) (user : User)
        → h.users.user_locks user_id ≡ some user
        → mul64 slots ipo.slot_price ≤ user.cash
        → Outcome (mul64 slots ipo.slot_price) (create_afforded s store user_id ipo_id slots ipo h)
    unfolding create_afforded save_new_ipo_bid_transaction
    create_afforded-Outcome ipo_id slots ipo user own covered =
        split_if (Outcome _) ipo.is_biddable
          (λ _.
            split_if (Outcome _) (store.has_open_bid h.users.world user_id ipo_id)
              (λ _. refuses (λ j u p. p) (λ j. refl))
              (λ _.
                end_create-Outcome user _ _ own covered (change_user-Changed s user_id _ _ _ h)))
          (λ _. refuses (λ j u p. p) (λ j. refl))

  after_take-Outcome :
      (ipo_id slots : ℕ) (ipo : IpoStock) (h : Holding s.World)
      → mul64 slots ipo.slot_price ≡ ipo.slot_price
      → (o : Option (Option User × Holding s.World)) → Taken s user_id h o
      → Outcome h ipo.slot_price (
          o >>= λ found.
          let (error, h') = afford s store user_id ipo found in
          elim error [
            | some e ↦ some (refused e, h')
            | none ↦ create_afforded s store user_id ipo_id slots ipo h'
          ])
  unfolding afford
  after_take-Outcome ipo_id slots ipo h one _ (waiting e) = no_return
  after_take-Outcome ipo_id slots ipo h one _ (missing _ _ fetched) =
      refuses fetched.kept (λ j. refl)
  after_take-Outcome ipo_id slots ipo h one _ (taken {user} {m'} free own fetched) =
      split_if
        (λ (x : Option IpoError × Holding s.World). Outcome h ipo.slot_price (elim x.0 [
          | some e ↦ some (refused e, x.1)
          | none ↦ create_afforded s store user_id ipo_id slots ipo x.1
        ]))
        (ltb user.cash ipo.slot_price) (λ _. lacks_cash fetched.kept (ground arith))
        (λ rich.
          let h1 : Holding s.World =
            release s user_id
              (record { users = m'; held = λ j. if user_id == j then true else h.held j }) in
          rebase-CreateOutcome h.users.user_locks m'.user_locks h.held h1.held user_id
            ipo.slot_price fetched.kept fetched.others
            (released-SameLocks h.users.user_locks h.held s user_id
              (record { users = m'; held = λ j. if user_id == j then true else h.held j }) free
              (λ j. refl))
            (subst (λ p. Outcome h1 p (create_afforded s store user_id ipo_id slots ipo h1)) one
              (create_afforded-Outcome h1 ipo_id slots ipo user own (rw one (ground arith)))))

  -- CreateIpoBid on an IPO whose price of a slot is below 2 ^ 64. Unless the call waits forever or
  -- panics, it refuses and leaves all users in memory and the held locks as they are; or refuses for
  -- lack of cash, leaves the users as they are and the user's lock held; or creates the bid: then the
  -- price of a slot, which the cash covers, has moved from the user's cash to the reserved cash, no
  -- other user is changed, and the held locks are the same.
  pub create_ipo_bid-CreateOutcome :
      (ipo_id slots : ℕ) (h : Holding s.World)
      → (or_zero (store.find_ipo h.users.world ipo_id)).slot_price < word_mod
      → CreateOutcome h.users.user_locks h.held user_id
          (or_zero (store.find_ipo h.users.world ipo_id)).slot_price
          (create_ipo_bid s store user_id ipo_id slots h)
  unfolding create_ipo_bid create_known mul64
  create_ipo_bid-CreateOutcome ipo_id slots h small =
      split_if (Outcome h _) (slots == 1)
        (λ e.
          let single : slots ≡ 1 = ground arith in
          after_take-Outcome ipo_id slots _ h (rw single (omega arith)) _
            (take_user-Taken s user_id h))
        (λ _. refuses (λ j u p. p) (λ j. refl))
