-- ===== src/Account/Dividends/Revert.antt =====
-- Dividends that are not paid to all: the call takes locks that it holds already.
use dalal_street_server.Base.{
  ℕ, false, ◌≡◌, ◌≢◌, refl, true, Option, none, some, [], ◌∷◌, ◌==◌, ◌>>=◌, split_if, All, arith,
}
use dalal_street_server.Account.State.{User, Server}
use dalal_street_server.Account.Users.{Users, find_user, load_user, put, zero_user}
use dalal_street_server.Account.Dividends.Pay.{
  Dividends, DividendEnd, failed, assign, revert_to_old_state, revert_and_fail, released,
}
use dalal_street_server.Account.Dividends.Credits.{Keyed, KeepsUsers, current}
use dalal_street_server.Account.Holding.{Holding, take_user}

-- The users in memory are in memory afterwards, with the same cash.
abbrev pub Kept : {World : Type 0} → Users World → Users World → Type 0
Kept m m' = (j : ℕ) (user : User) → m.user_locks j ≡ some user → m'.user_locks j ≡ some user

module _ (s : Server) where
  -- The call waits forever, fails with the users kept, or has done what is to be done.
  pub data DividendOutcome (m : Users s.World) (Done : Users s.World → Type 0)
      : Option (DividendEnd × Users s.World) → Type 0 where
    waits : DividendOutcome m Done none
    unpaid : {m' : Users s.World} → Kept m m' → DividendOutcome m Done (some (failed, m'))
    paid_out :
        {e : DividendEnd} {m' : Users s.World}
        → e ≢ failed
        → Done m'
        → DividendOutcome m Done (some (e, m'))

  abbrev pub AllHeld : Dividends → Holding s.World → Type 0
  AllHeld dividends h = All (λ d. h.held d.0 ≡ true) dividends

  abbrev pub Outcome :
      Users s.World → (Users s.World → Type 0) → Option (DividendEnd × Holding s.World) → Type 0
  Outcome m Done r = DividendOutcome m Done (r >>= λ x. some (released s x))

  pub revert_and_fail-Outcome :
      (m : Users s.World) (Done : Users s.World → Type 0) (dividends : Dividends)
      (h : Holding s.World)
      → AllHeld dividends h
      → (dividends ≡ [] → Kept m h.users)
      → Outcome m Done (revert_and_fail s dividends h)
  unfolding revert_and_fail revert_to_old_state take_user
  revert_and_fail-Outcome m Done [] h all kept = unpaid (kept refl)
  revert_and_fail-Outcome m Done ((id, amount) ∷ dividends) h (held, all) kept = rw held waits

  pub assign-AllHeld :
      (id amount : ℕ) (dividends : Dividends) (h : Holding s.World)
      → h.held id ≡ true
      → AllHeld dividends h
      → AllHeld (assign id amount dividends) h
  assign-AllHeld id amount [] h held all = (held, tt)
  assign-AllHeld id amount ((i, n) ∷ dividends) h held (p, all) =
      split_if (λ ds. AllHeld ds h) (i == id) (λ _. (held, all))
        (λ _. (p, assign-AllHeld id amount dividends h held all))

  pub assign-nonempty : (id amount : ℕ) (dividends : Dividends) → assign id amount dividends ≢ []
  assign-nonempty id amount [] = λ e. cc
  assign-nonempty id amount ((i, n) ∷ dividends) =
      split_if (λ ds. ds ≢ []) (i == id) (λ _ e. cc) (λ _ e. cc)

  module _ (keeps : KeepsUsers s) where
    -- What getUserExclusively gives.
    pub data Got (m : Users s.World) (id : ℕ) : Option User × Users s.World → Type 0 where
      missing : {m' : Users s.World} → Kept m m' → current s m id ≡ none → Got m id (none, m')
      got :
          {user : User} {m' : Users s.World}
          → Kept m m'
          → Keyed m'
          → user.id ≡ id
          → current s m id ≡ some user
          → m'.world ≡ m.world
          → ((j : ℕ) → (id == j) ≡ false → m'.user_locks j ≡ m.user_locks j)
          → Got m id (some user, m')

    put-Kept :
        (m : Users s.World) (id : ℕ) (user : User)
        → m.user_locks id ≡ none
        → Kept m (put s m id user)
    put-Kept m id user absent j u e = ground arith

    pub put-Keyed :
        (m : Users s.World) (id : ℕ) (user : User)
        → user.id ≡ id
        → Keyed m
        → Keyed (put s m id user)
    put-Keyed m id user e keyed j u h = ground (arith, keyed j u)

    load_user-Got :
        (m : Users s.World) (id : ℕ) (found : Option User)
        → m.user_locks id ≡ none
        → s.find_user m.world id ≡ found
        → Keyed m
        → Got m id (load_user s id found m)
    unfolding load_user
    load_user-Got m id none absent e keyed =
        missing (put-Kept m id zero_user absent) (rw (current, absent, e) refl)
    load_user-Got m id (some user) absent e keyed =
        let same = keeps.keyed m.world id user e in
        got (put-Kept m id user absent) (put-Keyed m id user same keyed) same
          (rw (current, absent, e) refl) refl (λ j ne. rw ne refl)

    pub find_user-Got :
        (m : Users s.World) (id : ℕ) (found : Option User)
        → m.user_locks id ≡ found
        → Keyed m
        → Got m id (find_user s id found m)
    unfolding find_user
    find_user-Got m id none e keyed = load_user-Got m id (s.find_user m.world id) e refl keyed
    find_user-Got m id (some user) e keyed =
        got (λ j u h. h) keyed (keyed id user e) (rw (current, e) refl) refl (λ j ne. refl)
