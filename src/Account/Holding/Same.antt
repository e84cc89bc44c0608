-- ===== src/Account/Holding/Same.antt =====
-- What a call leaves of the users in memory and of the held locks.
use dalal_street_server.Base.{
  ℕ, ◌≡◌, refl, ◌∙◌, Bool, true, false, Option, some, ◌==◌, if◌then◌else◌, arith, Bool-cases, inl,
  inr,
}
use dalal_street_server.Account.State.{User, Server}
use dalal_street_server.Account.Holding.{Holding, release}

-- The users in memory and the held locks before a call.
module _ (users : ℕ → Option User) (held : ℕ → Bool) where
  abbrev pub SameLocks : {World : Type 0} → Holding World → Type 0
  SameLocks h = (j : ℕ) → h.held j ≡ held j

  -- No user in memory is changed.
  abbrev pub SameUsers : {World : Type 0} → Holding World → Type 0
  SameUsers h = (j : ℕ) (u : User) → users j ≡ some u → h.users.user_locks j ≡ some u

  -- Only the user of the id is changed, from `u`, which is the user in memory if there is one.
  pub record OneChanged {World : Type 0} (id : ℕ) (change : User → User) (u : User)
      (h : Holding World) : Type 0 where
    pub own : h.users.user_locks id ≡ some (change u)
    pub prior : (v : User) → users id ≡ some v → v ≡ u
    pub others : (j : ℕ) → (id == j) ≡ false → h.users.user_locks j ≡ users j

  module _ (s : Server) where
    pub released-SameLocks :
        (id : ℕ) (h : Holding s.World)
        → held id ≡ false
        → ((j : ℕ) → h.held j ≡ (if id == j then true else held j))
        → SameLocks (release s id h)
    released-SameLocks id h free e j = elim (Bool-cases (id == j)) [
      | inl same ↦ let e' : id ≡ j = ground arith in rw (same, ← e', free) refl
      | inr other ↦ rw other (e j ∙ rw other refl)
    ]
