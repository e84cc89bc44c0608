-- ===== src/Challenge/Closing.antt =====
-- updateUserState and CloseDailyChallenge. A result none is a call that waits forever or panics.
use dalal_street_server.Base.{
  ℕ, Bool, false, Option, none, some, List, [], ◌∷◌, leb, if◌then◌else◌, ◌>>=◌,
}
use dalal_street_server.Base.Word.{add64, int_rank}
use dalal_street_server.Account.State.{User, Server}
use dalal_street_server.Account.Users.{get_user_stock_worth}
use dalal_street_server.Account.Holding.{Holding, take_user, set_world, release}
use dalal_street_server.Challenge.{
  ChallengeType, cash, net_worth, stock_worth, specific_stock, unsupported, UserState,
  UpdateUserStateQueryData, ChallengeError, invalid_request, internal_server_error, ChallengeStore,
}

-- The state of a row with its final value.
unfoldable pub judged : UpdateUserStateQueryData → ℕ → UserState
judged q value = record {
  id = q.id;
  challenge_id = 0;
  user_id = 0;
  initial_value = 0;
  final_value = value;
  is_completed = leb (int_rank (add64 q.initial_value q.value)) (int_rank value);
  is_reward_claimed = false;
}

module _ (s : Server) (store : ChallengeStore s.World) where
  -- One round's result: the state that it saved, unless there was an error.
  abbrev pub Judging : Type 0
  Judging = Option UserState × Holding s.World

  unfoldable pub save_judged : UserState → Holding s.World → Judging
  save_judged state h =
      let (w, ok) = store.update_state h.users.world state in
      if ok then (some state, set_world s w h) else (none, set_world s (s.rollback w) h)

  unfoldable pub value_of : ChallengeType → UpdateUserStateQueryData → User → s.World → Option ℕ
  value_of cash q user w = some (add64 user.cash user.reserved_cash)
  value_of net_worth q user w = some user.total
  value_of specific_stock q user w = store.total_stock_count w user q.stock_id
  value_of stock_worth q user w = none
  value_of unsupported q user w = none

  -- The lock is released after the save, whether it succeeds or not.
  unfoldable pub judge_value : UpdateUserStateQueryData → Option ℕ → Holding s.World → Judging
  judge_value q none h = (none, h)
  judge_value q (some value) h =
      let (state, h') = save_judged (judged q value) h in (state, release s q.user_id h')

  unfoldable pub judge_user :
      ChallengeType → UpdateUserStateQueryData → Option User × Holding s.World → Judging
  judge_user kind q (none, h) = (none, h)
  judge_user kind q (some user, h) = judge_value q (value_of kind q user h.users.world) h

  unfoldable pub judge_locked :
      ChallengeType → UpdateUserStateQueryData → Holding s.World → Option Judging
  judge_locked kind q h = take_user s q.user_id h >>= λ found. some (judge_user kind q found)

  -- GetUserStockWorth, which takes the lock of the user and releases it.
  unfoldable pub take_stock_worth : ℕ → Holding s.World → Option (ℕ × Holding s.World)
  take_stock_worth id h =
      if h.held id
      then none
      else get_user_stock_worth s id h.users >>= λ (worth, m). some (worth, record h { users = m })

  -- The switch over the type.
  unfoldable pub judge : ChallengeType → UpdateUserStateQueryData → Holding s.World → Option Judging
  judge cash q h = judge_locked cash q h
  judge net_worth q h = judge_locked net_worth q h
  judge specific_stock q h = judge_locked specific_stock q h
  judge stock_worth q h =
      take_stock_worth q.user_id h >>= λ (worth, h'). some (save_judged (judged q worth) h')
  judge unsupported q h = some (none, set_world s (s.rollback h.users.world) h)

  -- The loop over the rows, up to the first error: the states saved, if it runs to the end.
  unfoldable pub judge_all :
      List UpdateUserStateQueryData
      → Holding s.World
      → Option (Option (List UserState) × Holding s.World)
  judge_all [] h = some (some [], h)
  judge_all (q ∷ rows) h = judge q.challenge_type q h >>= λ (state, h').
      let rest = judge_all rows h' in
      elim state [
        | none ↦ some (none, h')
        | some x ↦ rest >>= λ (states, h'').
            some (elim states [ none ↦ none | some xs ↦ some (x ∷ xs) ], h'')
      ]

  unfoldable pub commit_states : Option (List UserState) × Holding s.World → Bool × Holding s.World
  commit_states (none, h) = (false, h)
  commit_states (some states, h) = let (w, ok) = s.commit h.users.world in (ok, set_world s w h)

  unfoldable pub update_user_state : ℕ → Holding s.World → Option (Bool × Holding s.World)
  update_user_state market_day h =
      let w = s.begin h.users.world in
      if store.begins h.users.world
      then elim (store.state_rows w market_day) [
        | none ↦ some (false, set_world s w h)
        | some rows ↦ judge_all rows (set_world s w h) >>= λ r. some (commit_states r)
      ]
      else some (false, h)

  -- The flag is set; an error is one of the database.
  unfoldable pub set_flag : Bool → Holding s.World → Option ChallengeError × Holding s.World
  set_flag is_open h =
      let (w, ok) = store.set_open h.users.world is_open in
      (if ok then none else some internal_server_error, set_world s w h)

  unfoldable pub close_daily_challenge :
      Holding s.World → Option (Option ChallengeError × Holding s.World)
  close_daily_challenge h =
      if store.is_open h.users.world
      then (update_user_state (store.market_day h.users.world) h >>= λ (ok, h').
          some (if ok then set_flag false h' else (some internal_server_error, h')))
      else some (some invalid_request, h)
