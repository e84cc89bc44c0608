-- ===== src/Account/Users.antt =====
-- userLocks of models/User.go, with getUserExclusively, Logout, SetBlockUser, UnBlockAllUsers and
-- GetUserStockWorth. A result none is a panic.
use dalal_street_server.Base.{
  ℕ, Bool, true, false, not, ◌&&◌, Option, none, some, List, [], ◌∷◌, ltb, ◌==◌, if◌then◌else◌,
  ◌>>=◌,
}
use dalal_street_server.Base.Word.{add64, sub64, int_rank}
use dalal_street_server.Account.State.{User, Server, user_row}
use dalal_street_server.Account.Placing.Checks.{is_positive}

-- The users in memory, and the rest of the server.
pub record Users (World : Type 0) : Type 0 where
  pub user_locks : ℕ → Option User
  pub world : World

-- `&User{}`.
abbrev pub zero_user : User
zero_user = record {
  id = 0;
  cash = 0;
  reserved_cash = 0;
  total = 0;
  is_blocked = false;
  block_count = 0;
}

pub data UserError : Type 0 where
  internal_server_error : UserError

unfoldable pub same : Bool → Bool → Bool
same true b = b
same false b = not b

-- BlockCount, which does not fall below 0.
unfoldable pub new_block_count : Bool → ℕ → ℕ
new_block_count true count = add64 count 1
new_block_count false count = if is_positive count then sub64 count 1 else 0

abbrev pub blocked_user : Bool → ℕ → User → User
blocked_user is_blocked penalty user = record user {
  is_blocked = is_blocked;
  block_count = new_block_count is_blocked user.block_count;
  cash = sub64 user.cash penalty;
}

module _ (s : Server) where
  abbrev pub put : Users s.World → ℕ → User → Users s.World
  put m id user = record m { user_locks = λ j. if id == j then some user else m.user_locks j }

  -- The query's result: the map has an entry already, which stays empty if no user is found.
  unfoldable pub load_user : ℕ → Option User → Users s.World → Option User × Users s.World
  load_user id none m = (none, put m id zero_user)
  load_user id (some user) m = (some user, put m id user)

  unfoldable pub find_user : ℕ → Option User → Users s.World → Option User × Users s.World
  find_user id none m = load_user id (s.find_user m.world id) m
  find_user id (some user) m = (some user, m)

  -- The locks of single users are left out: whoever calls this is the only one to hold the user.
  unfoldable pub get_user_exclusively : ℕ → Users s.World → Option User × Users s.World
  get_user_exclusively id m = find_user id (m.user_locks id) m

  unfoldable pub logout : ℕ → Users s.World → Users s.World
  logout id m = record m { user_locks = λ j. if id == j then none else m.user_locks j }

  -- `db.Save(&user)`, with the old user put back if it fails.
  unfoldable pub save_user : ℕ → User → User → Users s.World → Option UserError × Users s.World
  save_user id old new m =
      let (w, r) = s.save m.world (user_row new) in
      let m' = record m { world = w } in
      elim r [ none ↦ (some internal_server_error, put m' id old) | some i ↦ (none, put m' id new) ]

  unfoldable pub block_found :
      ℕ → Bool → ℕ → Option User × Users s.World → Option (Option UserError × Users s.World)
  block_found id is_blocked penalty (none, m) = none
  block_found id is_blocked penalty (some user, m) =
      if same user.is_blocked is_blocked
      then some (none, m)
      else some (save_user id user (blocked_user is_blocked penalty user) m)

  -- Where no user is found, the deferred function closes a nil channel.
  unfoldable pub set_block_user :
      ℕ → Bool → ℕ → Users s.World → Option (Option UserError × Users s.World)
  set_block_user id is_blocked penalty m =
      block_found id is_blocked penalty (get_user_exclusively id m)

  -- One round of the loop of UnBlockAllUsers.
  unfoldable pub unblock_found :
      ℕ → ℕ → Option User × Users s.World → Option (Option UserError × Users s.World)
  unblock_found limit id (none, m) = none
  unblock_found limit id (some user, m) =
      if user.is_blocked && ltb (int_rank user.block_count) (int_rank limit)
      then some (save_user id user (record user { is_blocked = false }) m)
      else some (none, m)

  -- `limit` is config.MaxBlockCount, `ids` are the ids of all users.
  unfoldable pub unblock_all_users :
      ℕ → List ℕ → Users s.World → Option (Option UserError × Users s.World)
  unblock_all_users limit [] m = some (none, m)
  unblock_all_users limit (id ∷ ids) m =
      unblock_found limit id (get_user_exclusively id m) >>= λ (error, m'). elim error [
        | none ↦ unblock_all_users limit ids m'
        | some e ↦ some (some e, m')
      ]

  -- The worth of the stocks is what the total exceeds the cash by, an int64 pattern.
  unfoldable pub stock_worth : Option User × Users s.World → Option (ℕ × Users s.World)
  stock_worth (none, m) = none
  stock_worth (some user, m) = some (sub64 user.total (add64 user.cash user.reserved_cash), m)

  unfoldable pub get_user_stock_worth : ℕ → Users s.World → Option (ℕ × Users s.World)
  get_user_stock_worth id m = stock_worth (get_user_exclusively id m)
