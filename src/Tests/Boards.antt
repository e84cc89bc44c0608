-- ===== src/Tests/Boards.antt =====
-- The leaderboard on a small case.
use dalal_street_server.Base.{
  ℕ, ◌≡◌, refl, true, false, none, some, List, [], ◌∷◌, map, Returns, arith, ◌>>=◌, ◌^◌, ◌-◌, ◌+◌,
}
use dalal_street_server.Account.State.{Server}
use dalal_street_server.Account.Users.{get_user_exclusively, find_user, load_user}
use dalal_street_server.Account.Holding.{Holding, take_user, no_locks}
use dalal_street_server.Base.Word.{int_rank, add64}
use dalal_street_server.Tests.Servers.{server, seller}
use dalal_street_server.Account.Yields.{ends}
use dalal_street_server.Account.Success.{IsReliable}
use dalal_street_server.Leaderboard.{LeaderboardQueryData, LeaderboardStore}
use dalal_street_server.Leaderboard.Update.{
  entry, next_rank, save_total, update_users, save_entries, save_leaderboard, update_leaderboard,
}
use dalal_street_server.Leaderboard.Ranks.{Ranked, ahead, update_users-ahead}

abbrev result : ℕ → ℕ → LeaderboardQueryData
result id total = record {
  user_id = id;
  user_name = [];
  cash = total;
  stock_worth = 0;
  total = total;
  is_blocked = false;
}

-- The last one has a total below 0.
abbrev results : List LeaderboardQueryData
results = result 1 900 ∷ result 2 700 ∷ result 3 700 ∷ result 4 50 ∷ result 5 (2 ^ 64 - 10) ∷ []

abbrev all_found : Server
all_found = record (server true) { find_user = λ w id. some (record seller { id = id }) }

abbrev store : LeaderboardStore ℕ
store = record {
  totals = λ w. results;
  truncate = λ w. w;
  save_row = λ w row. (w, true);
  rows_from = λ w first limit. some [];
  row_of = λ w id. none;
  user_count = λ w. 5;
}

abbrev nobody : Holding ℕ
nobody = no_locks all_found (record { user_locks = λ j. none; world = 0 })

ranks_of :
    (update_users all_found store 0 1 1 results nobody >>= λ (entries, h).
    entries >>= λ es. some (map (λ e. e.rank) es))
    ≡ some (1 ∷ 2 ∷ 2 ∷ 4 ∷ 5 ∷ [])
unfolding update_users take_user get_user_exclusively find_user load_user save_total next_rank entry
    int_rank add64
ranks_of = refl

updated :
    (update_leaderboard all_found store nobody >>= λ (ok, h). h.users.user_locks 3)
    ≡ some (record seller { id = 3; total = 700 })
unfolding update_leaderboard save_leaderboard save_entries update_users take_user
    get_user_exclusively find_user load_user save_total next_rank entry int_rank add64
updated = refl

all_found-IsReliable : IsReliable all_found
all_found-IsReliable = record { saves = λ w row. ends tt; commits = λ w. refl }

update_users-ahead_example :
    Returns
      (Ranked all_found (λ n. 1 + ahead n results) results)
      (update_users all_found store 0 1 1 results nobody)
unfolding int_rank add64
update_users-ahead_example =
    update_users-ahead all_found store all_found-IsReliable results nobody
      (
        (omega arith, (omega arith, (omega arith, (omega arith, tt)))),
        (
          (omega arith, (omega arith, (omega arith, tt))),
          ((omega arith, (omega arith, tt)), ((omega arith, tt), (tt, tt))),
        ),
      )
      (λ j. refl) (λ w. ((_, refl), ((_, refl), ((_, refl), ((_, refl), ((_, refl), tt))))))
