-- ===== src/Ipo/Conserve.antt =====
-- The cash and the reserved cash of the users over bids, cancellations and refunds.
use dalal_street_server.Base.{
  ℕ, ◌<◌, ◌≡◌, refl, sym, ap, subst, ◌∙◌, Bool, Option, none, some, ◌==◌, arith, Bool-cases, inl,
  inr,
}
use dalal_street_server.Base.Word.{add64, sub64, mul64, word_mod}
use dalal_street_server.Account.State.{User, Server}
use dalal_street_server.Account.Holding.{Holding}
use dalal_street_server.Ipo.{IpoBid, IpoStore, IpoError}
use dalal_street_server.Ipo.Funds.{placed, returned}
use dalal_street_server.Ipo.Bid.{Created, or_zero, create_ipo_bid, cancel_ipo_bid}
use dalal_street_server.Ipo.Allot.{refund_ipo_slot_to_user}
use dalal_street_server.Ipo.Changed.{Changed, stuck, undone, changed, change_user-Changed}
use dalal_street_server.Account.Holding.Same.{OneChanged}
use dalal_street_server.Ipo.Outcome.{
  CreateOutcome, no_return, refuses, lacks_cash, creates, create_ipo_bid-CreateOutcome,
}
use dalal_street_server.Ipo.Cancel.{
  bid_price, CancelOutcome, waits, declines, cancels, cancel_ipo_bid-CancelOutcome,
}

-- The money of a user, modulo 2 ^ 64.
abbrev pub funds : User → ℕ
funds u = add64 u.cash u.reserved_cash

placed-funds : (p : ℕ) (u : User) → p < word_mod → funds (placed p u) ≡ funds u
unfolding add64 sub64
placed-funds p u h = omega arith

returned-funds : (p : ℕ) (u : User) → p < word_mod → funds (returned p u) ≡ funds u
unfolding add64 sub64
returned-funds p u h = omega arith

-- Every user who was in memory is in memory, with the same money.
abbrev pub SameFunds : {World : Type 0} → (ℕ → Option User) → Holding World → Type 0
SameFunds users h =
    (j : ℕ) (u : User)
    → users j ≡ some u
    → (u' : User) × (h.users.user_locks j ≡ some u') × (funds u' ≡ funds u)

module _ {World : Type 0} (users : ℕ → Option User) (held : ℕ → Bool) (h : Holding World) where
  OneChanged-SameFunds :
      (id : ℕ) (change : User → User) (u : User)
      → funds (change u) ≡ funds u
      → OneChanged users held id change u h
      → SameFunds users h
  OneChanged-SameFunds id change u keeps one j v e = elim (Bool-cases (id == j)) [
    | inl same ↦
        let e' : id ≡ j = ground arith in
        let before : users id ≡ some v = subst (λ k. users k ≡ some v) (sym e') e in
        (
          change u,
          subst (λ k. h.users.user_locks k ≡ some (change u)) e' one.own,
          keeps ∙ ap funds (sym (one.prior v before)),
        )
    | inr other ↦ (v, one.others j other ∙ e, refl)
  ]

-- What holds of the users and locks after a call that returns.
abbrev After : {World X : Type 0} → (Holding World → Type 0) → Option (X × Holding World) → Type 0
After P none = Unit
After P (some (x, h)) = P h

CreateOutcome-SameFunds :
    {World : Type 0} (users : ℕ → Option User) (held : ℕ → Bool) (user_id price : ℕ)
    (r : Option (Created × Holding World))
    → price < word_mod
    → CreateOutcome users held user_id price r
    → After (SameFunds users) r
CreateOutcome-SameFunds users held user_id price _ small no_return = tt
CreateOutcome-SameFunds users held user_id price _ small (refuses same _) =
    λ j u e. (u, same j u e, refl)
CreateOutcome-SameFunds users held user_id price _ small (lacks_cash same _) =
    λ j u e. (u, same j u e, refl)
CreateOutcome-SameFunds users held user_id price _ small (creates u _ one _) =
    OneChanged-SameFunds users held _ user_id (placed price) u (placed-funds price u small) one

Changed-SameFunds :
    {World A : Type 0} (users : ℕ → Option User) (held : ℕ → Bool) (id price : ℕ)
    (r : Option (Option A × Holding World))
    → price < word_mod
    → Changed users held id (returned price) r
    → After (SameFunds users) r
Changed-SameFunds users held id price _ small stuck = tt
Changed-SameFunds users held id price _ small (undone same _) = λ j u e. (u, same j u e, refl)
Changed-SameFunds users held id price _ small (changed u one _) =
    OneChanged-SameFunds users held _ id (returned price) u (returned-funds price u small) one

module _ (s : Server) (store : IpoStore s.World s.floats.Float)
    (small : (w : s.World) (id : ℕ) → (or_zero (store.find_ipo w id)).slot_price < word_mod) where
  CancelOutcome-SameFunds :
      (h : Holding s.World) (bid_id : ℕ) (r : Option (Option IpoError × Holding s.World))
      → CancelOutcome s store h bid_id r
      → After (SameFunds h.users.user_locks) r
  unfolding mul64
  CancelOutcome-SameFunds h bid_id _ waits = tt
  CancelOutcome-SameFunds h bid_id _ (declines same _) = λ j u e. (u, same j u e, refl)
  CancelOutcome-SameFunds h bid_id _ (cancels bid u _ _ one _) =
      OneChanged-SameFunds _ h.held _ bid.user_id (returned (bid_price bid)) u
        (returned-funds (bid_price bid) u (omega arith)) one

  -- The calls that change bids, which succeed or fail, and changes of the database and the locks by
  -- others.
  pub data IpoStep (h : Holding s.World) : Holding s.World → Type 0 where
    create :
        {h' : Holding s.World} (user_id ipo_id slots : ℕ) (r : Created)
        → create_ipo_bid s store user_id ipo_id slots h ≡ some (r, h')
        → IpoStep h h'
    cancel_bid :
        {h' : Holding s.World} (bid_id : ℕ) (r : Option IpoError)
        → cancel_ipo_bid s store bid_id h ≡ some (r, h')
        → IpoStep h h'
    refund :
        {h' : Holding s.World} (stock_id cost : ℕ) (bid : IpoBid) (r : Option (Unit {0}))
        → cost < word_mod
        → refund_ipo_slot_to_user s store stock_id cost bid h ≡ some (r, h')
        → IpoStep h h'
    elsewhere :
        (w : s.World) (held : ℕ → Bool)
        → IpoStep h
            (record { users = record { user_locks = h.users.user_locks; world = w }; held = held })

  pub data IpoSteps (h : Holding s.World) : Holding s.World → Type 0 where
    start : IpoSteps h h
    step : {h1 h2 : Holding s.World} → IpoSteps h h1 → IpoStep h1 h2 → IpoSteps h h2

  step-SameFunds : (h h' : Holding s.World) → IpoStep h h' → SameFunds h.users.user_locks h'
  unfolding refund_ipo_slot_to_user
  step-SameFunds h h' (create user_id ipo_id slots r e) =
      subst (After (SameFunds h.users.user_locks)) e (
        CreateOutcome-SameFunds _ h.held user_id _ _ (small h.users.world ipo_id) (
          create_ipo_bid-CreateOutcome s store user_id ipo_id slots h (small h.users.world ipo_id)))
  step-SameFunds h h' (cancel_bid bid_id r e) =
      subst (After (SameFunds h.users.user_locks)) e
        (CancelOutcome-SameFunds h bid_id _ (cancel_ipo_bid-CancelOutcome s store h bid_id))
  step-SameFunds h h' (refund stock_id cost bid r below e) =
      subst (After (SameFunds h.users.user_locks)) e (
        Changed-SameFunds _ h.held bid.user_id cost _ below
          (change_user-Changed s bid.user_id (returned cost) _ _ h))
  step-SameFunds h _ (elsewhere w held) = λ j u e. (u, e, refl)

  -- Over any sequence of bids for slots, cancellations of bids and refunds of slots, each of which
  -- returns with or without an error, with changes of the database and the locks in between, every
  -- user in memory stays there, and the sum of the cash and the reserved cash of each stays the same
  -- modulo 2 ^ 64. The prices of slots are below 2 ^ 64.
  pub IpoSteps-SameFunds :
      {h h' : Holding s.World} → IpoSteps h h' → SameFunds h.users.user_locks h'
  IpoSteps-SameFunds start = λ j u e. (u, e, refl)
  IpoSteps-SameFunds (step before last) = λ j u e.
      let (v, found, same) = IpoSteps-SameFunds before j u e in
      let (x, found', same') = step-SameFunds _ _ last j v found in (x, found', same' ∙ same)
