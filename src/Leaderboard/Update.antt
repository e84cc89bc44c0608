-- ===== src/Leaderboard/Update.antt =====
-- UpdateLeaderboard and GetLeaderboard. A result none is a call that waits forever.
use dalal_street_server.Base.{
  ℕ, ◌+◌, ◌%◌, ◌^◌, Bool, true, false, Option, none, some, List, [], ◌∷◌, ltb, ◌==◌, if◌then◌else◌,
  ◌>>=◌,
}
use dalal_street_server.Base.Word.{int_rank}
use dalal_street_server.Account.State.{User, Server, user_row}
use dalal_street_server.Account.Users.{put}
use dalal_street_server.Account.Holding.{Holding, take_user, set_world, release}
use dalal_street_server.Leaderboard.{LeaderboardRow, LeaderboardQueryData, LeaderboardStore}

unfoldable pub entry : ℕ → ℕ → LeaderboardQueryData → LeaderboardRow
entry index rank result = record {
  id = (index + 1) % 2 ^ 32;
  user_id = result.user_id;
  user_name = result.user_name;
  rank = rank % 2 ^ 32;
  cash = result.cash;
  debt = 0;
  stock_worth = result.stock_worth;
  total_worth = result.total;
  is_blocked = result.is_blocked;
}

-- The rank of the next result: the counter if its total is less.
unfoldable pub next_rank : ℕ → ℕ → LeaderboardQueryData → List LeaderboardQueryData → ℕ
next_rank counter rank result [] = rank
next_rank counter rank result (next ∷ results) =
    if ltb (int_rank next.total) (int_rank result.total) then counter else rank

-- LEADERBOARD_COUNT of models/Constants.go.
abbrev pub leaderboard_count : ℕ
leaderboard_count = 10

unfoldable pub min32 : ℕ → ℕ → ℕ
min32 a b = if ltb a b then a else b

module _ (s : Server) (store : LeaderboardStore s.World) where
  -- The user's total, saved. If no user is found or the save fails, the update ends; where the save
  -- fails, the user's lock is kept.
  unfoldable pub save_total :
      LeaderboardQueryData → Option User × Holding s.World → Bool × Holding s.World
  save_total result (none, h) = (false, h)
  save_total result (some user, h) =
      let user' : User = record user { total = result.total } in
      let (w, saved) = s.save h.users.world (user_row user') in
      let h' = record h { users = put s h.users result.user_id user' } in
      elim saved [
        | none ↦ (false, set_world s (s.rollback w) h')
        | some _ ↦ (true, release s result.user_id (set_world s w h'))
      ]

  -- The loop over the results: the entries, if it runs to the end.
  unfoldable pub update_users :
      ℕ
      → ℕ
      → ℕ
      → List LeaderboardQueryData
      → Holding s.World
      → Option (Option (List LeaderboardRow) × Holding s.World)
  update_users index counter rank [] h = some (some [], h)
  update_users index counter rank (result ∷ results) h = take_user s result.user_id h >>= λ found.
      let (ok, h') = save_total result found in
      let counter' = counter + 1 in
      let rest =
        update_users (index + 1) counter' (next_rank counter' rank result results) results h' in
      if ok
      then (rest >>= λ (entries, h'').
          some (elim entries [ none ↦ none | some es ↦ some (entry index rank result ∷ es) ], h''))
      else some (none, h')

  unfoldable pub save_entries : List LeaderboardRow → s.World → s.World × Bool
  save_entries [] w = s.commit w
  save_entries (e ∷ entries) w =
      let (w', ok) = store.save_row w e in
      let rest = save_entries entries w' in if ok then rest else (w', false)

  -- The entries replace the table; an error is rolled back.
  unfoldable pub save_leaderboard : List LeaderboardRow → s.World → s.World × Bool
  save_leaderboard entries w =
      let (w', ok) = save_entries entries (store.truncate w) in
      (if ok then w' else s.rollback w', ok)

  unfoldable pub update_leaderboard : Holding s.World → Option (Bool × Holding s.World)
  update_leaderboard h =
      let w = s.begin h.users.world in
      update_users 0 1 1 (store.totals w) (set_world s w h) >>= λ (entries, h'). elim entries [
        | none ↦ some (false, h')
        | some es ↦
            let (w', ok) = save_leaderboard es h'.users.world in some (ok, set_world s w' h')
      ]

  -- What GetLeaderboard returns with the count of users.
  abbrev pub Board : Type 0
  Board = List LeaderboardRow × LeaderboardRow

  unfoldable pub get_leaderboard : ℕ → ℕ → ℕ → s.World → Option Board × ℕ
  get_leaderboard user_id starting_id count w =
      let first = if starting_id == 0 then 1 else starting_id in
      let limit = if count == 0 then leaderboard_count else min32 count leaderboard_count in
      (
        store.rows_from w first limit >>= λ rows.
            store.row_of w user_id >>= λ own. some (rows, own),
        store.user_count w,
      )
