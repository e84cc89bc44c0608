-- ===== src/Ipo/Changed.antt =====
-- A change of a user's cash with its saves.
use dalal_street_server.Base.{
  ℕ, ◌≡◌, refl, sym, ◌∙◌, Bool, true, false, Option, none, some, ◌==◌, if◌then◌else◌, arith,
  Bool-cases, inl, inr,
}
use dalal_street_server.Account.State.{User, Server}
use dalal_street_server.Account.Tx.{Tx}
use dalal_street_server.Account.Holding.{Holding, set_world}
use dalal_street_server.Account.Holding.Taken.{
  Fetched, Taken, waiting, missing, taken, take_user-Taken, put_own,
}
use dalal_street_server.Account.Holding.Same.{SameLocks, SameUsers, OneChanged, released-SameLocks}
use dalal_street_server.Ipo.Funds.{put_user, end_change, change_taken, change_user}

module _ (users : ℕ → Option User) (held : ℕ → Bool) where
  -- The call does not return, fails with users and locks as they were, or changes the user.
  pub data Changed {World A : Type 0} (id : ℕ) (change : User → User)
      : Option (Option A × Holding World) → Type 0 where
    stuck : Changed id change none
    undone :
        {h : Holding World}
        → SameUsers users held h
        → SameLocks users held h
        → Changed id change (some (none, h))
    changed :
        {a : A} {h : Holding World} (u : User)
        → OneChanged users held id change u h
        → SameLocks users held h
        → Changed id change (some (some a, h))

  module _ (s : Server) where
    put-SameUsers :
        (id : ℕ) (u : User) (m : Holding s.World)
        → m.users.user_locks id ≡ some u
        → ((j : ℕ) (v : User) → users j ≡ some v → m.users.user_locks j ≡ some v)
        → SameUsers users held (put_user s id u m)
    put-SameUsers id u m own kept j v e = elim (Bool-cases (id == j)) [
      | inl same ↦ let e' : id ≡ j = ground arith in rw (same, ← own, e') (kept j v e)
      | inr other ↦ rw other (kept j v e)
    ]

module _ (s : Server) (id : ℕ) (change : User → User) where
  module _ (h m : Holding s.World) (user : User) (own : m.users.user_locks id ≡ some user)
      (fetched : Fetched s id h.users m.users) (free : h.held id ≡ false)
      (locked : (j : ℕ) → m.held j ≡ (if id == j then true else h.held j)) where
    prior_user : (v : User) → h.users.user_locks id ≡ some v → v ≡ user
    prior_user v e = let both : some v ≡ some user = sym (fetched.kept id v e) ∙ own in cc

    end_change-Changed :
        {A : Type 0} (undo : s.World → s.World) (r : s.World × Option A)
        → Changed h.users.user_locks h.held id change
            (some (end_change s id user (change user) undo m r))
    unfolding end_change
    end_change-Changed undo (w, none) =
        undone (put-SameUsers h.users.user_locks h.held s id user m own fetched.kept)
          (released-SameLocks h.users.user_locks h.held s id m free locked)
    end_change-Changed undo (w, some a) =
        changed user
          (record {
            own = put_own s id (change user) m.users;
            prior = prior_user;
            others = λ j e. rw e (fetched.others j e);
          })
          (released-SameLocks h.users.user_locks h.held s id m free locked)

  taken-Changed :
      {A : Type 0} (tx : User → Tx s.World A) (undo : s.World → s.World) (h : Holding s.World)
      (o : Option (Option User × Holding s.World))
      → Taken s id h o
      → Changed h.users.user_locks h.held id change
          (elim o [ none ↦ none | some r ↦ change_taken s id change tx undo r ])
  unfolding change_taken
  taken-Changed tx undo h _ (waiting e) = stuck
  taken-Changed tx undo h _ (missing _ _ _) = stuck
  taken-Changed tx undo h _ (taken {user} {m'} free own fetched) =
      end_change-Changed h (record { users = m'; held = λ j. if id == j then true else h.held j })
        user own fetched free (λ j. refl) undo _

  pub change_user-Changed :
      {A : Type 0} (tx : User → Tx s.World A) (undo : s.World → s.World) (h : Holding s.World)
      → Changed h.users.user_locks h.held id change (change_user s id change tx undo h)
  unfolding change_user
  change_user-Changed tx undo h =
      taken-Changed tx undo (set_world s (s.begin h.users.world) h) _ (take_user-Taken s id _)
