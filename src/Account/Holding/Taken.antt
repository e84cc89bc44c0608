-- ===== src/Account/Holding/Taken.antt =====
-- What getUserExclusively does to the users and the locks.
use dalal_street_server.Base.{
  ℕ, ◌≡◌, refl, true, false, Option, none, some, ◌==◌, if◌then◌else◌, arith, ==_refl, split_if,
}
use dalal_street_server.Account.State.{User, Server}
use dalal_street_server.Account.Users.{Users, get_user_exclusively, find_user, load_user, put}
use dalal_street_server.Account.Holding.{Holding, hold, take_user}

module _ (s : Server) where
  -- The users of the other ids stand as they did, and those in memory stay there.
  pub record Fetched (id : ℕ) (m m' : Users s.World) : Type 0 where
    pub others : (j : ℕ) → (id == j) ≡ false → m'.user_locks j ≡ m.user_locks j
    pub kept : (j : ℕ) (u : User) → m.user_locks j ≡ some u → m'.user_locks j ≡ some u
    pub world : m'.world ≡ m.world

  -- The call waits for a lock that is held, finds no user, or takes the user's lock.
  pub data Taken (id : ℕ) (h : Holding s.World)
      : Option (Option User × Holding s.World) → Type 0 where
    waiting : h.held id ≡ true → Taken id h none
    missing :
        {m' : Users s.World}
        → h.users.user_locks id ≡ none
        → s.find_user h.users.world id ≡ none
        → Fetched id h.users m'
        → Taken id h (some (none, record h { users = m' }))
    taken :
        {user : User} {m' : Users s.World}
        → h.held id ≡ false
        → m'.user_locks id ≡ some user
        → Fetched id h.users m'
        → Taken id h (
            some (some user, record { users = m'; held = λ j. if id == j then true else h.held j }))

  put-Fetched :
      (id : ℕ) (user : User) (m : Users s.World)
      → m.user_locks id ≡ none
      → Fetched id m (put s m id user)
  put-Fetched id user m absent = record {
    others = λ j e. rw e refl;
    kept = λ j u e. ground arith;
    world = refl;
  }

  pub put_own :
      (id : ℕ) (user : User) (m : Users s.World) → (put s m id user).user_locks id ≡ some user
  put_own id user m = rw (==_refl id) refl

  load_user-Taken :
      (id : ℕ) (h : Holding s.World) (found : Option User)
      → h.held id ≡ false
      → h.users.user_locks id ≡ none
      → s.find_user h.users.world id ≡ found
      → Taken id h (some (hold s id (load_user s id found h.users) h))
  unfolding load_user
  load_user-Taken id h none free absent e = missing absent e (put-Fetched id _ h.users absent)
  load_user-Taken id h (some user) free absent e =
      taken free (put_own id user h.users) (put-Fetched id user h.users absent)

  find_user-Taken :
      (id : ℕ) (h : Holding s.World) (found : Option User)
      → h.held id ≡ false
      → h.users.user_locks id ≡ found
      → Taken id h (some (hold s id (find_user s id found h.users) h))
  unfolding find_user
  find_user-Taken id h none free e = load_user-Taken id h _ free e refl
  find_user-Taken id h (some user) free e =
      taken free e (record { others = λ j _. refl; kept = λ j u p. p; world = refl })

  pub take_user-Taken : (id : ℕ) (h : Holding s.World) → Taken id h (take_user s id h)
  unfolding take_user get_user_exclusively
  take_user-Taken id h =
      split_if (Taken id h) (h.held id) (λ e. waiting e) (λ e. find_user-Taken id h _ e refl)
