-- ===== src/Account/Holding.antt =====
-- The users together with the locks of single users that are held, and getUserExclusively on them. A
-- result none is a call that waits forever.
pub mod Taken
pub mod Same
use dalal_street_server.Base.{ℕ, Bool, true, false, Option, none, some, ◌==◌, if◌then◌else◌}
use dalal_street_server.Account.State.{User, Server}
use dalal_street_server.Account.Users.{Users, get_user_exclusively}

pub record Holding (World : Type 0) : Type 0 where
  pub users : Users World
  pub held : ℕ → Bool

module _ (s : Server) where
  abbrev pub hold :
      ℕ → Option User × Users s.World → Holding s.World → Option User × Holding s.World
  hold id (none, m) h = (none, record h { users = m })
  hold id (some user, m) h =
      (some user, record { users = m; held = λ j. if id == j then true else h.held j })

  -- getUserExclusively, which waits for a lock that nobody else will release.
  unfoldable pub take_user : ℕ → Holding s.World → Option (Option User × Holding s.World)
  take_user id h = if h.held id then none else some (hold id (get_user_exclusively s id h.users) h)

  abbrev pub set_world : s.World → Holding s.World → Holding s.World
  set_world w h = record h { users = record { user_locks = h.users.user_locks; world = w } }

  abbrev pub no_locks : Users s.World → Holding s.World
  no_locks m = record { users = m; held = λ j. false }

  -- `close(ch)`
  abbrev pub release : ℕ → Holding s.World → Holding s.World
  release id h = record h { held = λ j. if id == j then false else h.held j }
