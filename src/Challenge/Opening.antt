-- ===== src/Challenge/Opening.antt =====
-- AddDailyChallenge, saveUsersState with OpenDailyChallenge, and saveNewUserState.
use dalal_street_server.Base.{
  ℕ, zero, suc, ◌+◌, Bool, true, false, Option, none, some, List, [], ◌∷◌, ◌++◌, map, leb, ltb,
  ◌==◌, if◌then◌else◌, ◌>>=◌,
}
use dalal_street_server.Account.State.{Server}
use dalal_street_server.Challenge.{
  ChallengeType, cash, net_worth, stock_worth, specific_stock, unsupported, DailyChallenge,
  UserState, UserStateQueryData, SpecificStockUserEntry, ChallengeError, invalid_request,
  invalid_challenge_type, internal_server_error, failed, ChallengeStore,
}

-- STARTING_CASH of models/Constants.go.
abbrev pub starting_cash : ℕ
starting_cash = 200000

-- Only a challenge for a specific stock has a stock.
unfoldable pub is_stock_given : ChallengeType → ℕ → Bool
is_stock_given specific_stock stock_id = if stock_id == 0 then false else true
is_stock_given cash stock_id = stock_id == 0
is_stock_given net_worth stock_id = stock_id == 0
is_stock_given stock_worth stock_id = stock_id == 0
is_stock_given unsupported stock_id = stock_id == 0

-- A state at the opening.
abbrev pub initial_state : ℕ → ℕ → ℕ → UserState
initial_state challenge_id user_id value = record {
  id = 0;
  challenge_id = challenge_id;
  user_id = user_id;
  initial_value = value;
  final_value = 0;
  is_completed = false;
  is_reward_claimed = false;
}

module _ (s : Server) (store : ChallengeStore s.World) where
  abbrev pub Saved : Type 0
  Saved = Option ChallengeError × s.World

  unfoldable pub add_daily_challenge : ℕ → ℕ → ℕ → ChallengeType → ℕ → s.World → Saved
  add_daily_challenge value market_day stock_id kind reward w =
      let challenge : DailyChallenge = record {
        id = 0;
        market_day = market_day;
        challenge_type = kind;
        value = value;
        stock_id = stock_id;
        reward = reward;
      } in
      let (w', ok) = store.insert_challenge w challenge in
      if leb market_day (store.market_day w)
      then (some invalid_request, w)
      else if is_stock_given kind stock_id
      then (if ok then none else some internal_server_error, w')
      else (some invalid_request, w)

  -- The loop that saves states, rolled back at the first error.
  unfoldable pub insert_states : List UserState → s.World → Saved
  insert_states [] w = (none, w)
  insert_states (x ∷ states) w =
      let (w', ok) = store.insert_state w x in
      let rest = insert_states states w' in if ok then rest else (some failed, s.rollback w')

  -- The states for a challenge, or the error of an unsupported type or of the query. A query that
  -- fails has rolled back already, and the second time has no effect.
  unfoldable pub states_for :
      ChallengeType
      → DailyChallenge
      → List UserStateQueryData
      → s.World
      → Option ChallengeError × List UserState
  states_for cash c users w = (none, map (λ u. initial_state c.id u.user_id u.cash) users)
  states_for net_worth c users w = (none, map (λ u. initial_state c.id u.user_id u.total) users)
  states_for stock_worth c users w =
      (none, map (λ u. initial_state c.id u.user_id u.stock_worth) users)
  states_for specific_stock c users w = elim (store.stock_rows w c.stock_id) [
    | none ↦ (some failed, [])
    | some entries ↦ (
      none,
      map (λ (u : SpecificStockUserEntry). initial_state c.id u.user_id u.stock_quantity) entries,
    )
  ]
  states_for unsupported c users w = (some invalid_challenge_type, [])

  unfoldable pub insert_or_fail : Option ChallengeError × List UserState → s.World → Saved
  insert_or_fail (some e, states) w = (some e, s.rollback w)
  insert_or_fail (none, states) w = insert_states states w

  unfoldable pub save_challenge_states : DailyChallenge → List UserStateQueryData → s.World → Saved
  save_challenge_states c users w = insert_or_fail (states_for c.challenge_type c users w) w

  unfoldable pub commit_saved : s.World → Saved
  commit_saved w = let (w', ok) = s.commit w in (if ok then none else some failed, w')

  -- The loop over the challenges and the commit.
  unfoldable pub save_all : List DailyChallenge → List UserStateQueryData → s.World → Saved
  save_all [] users w = commit_saved w
  save_all (c ∷ challenges) users w =
      let (error, w') = save_challenge_states c users w in
      let rest = save_all challenges users w' in elim error [ some e ↦ (some e, w') | none ↦ rest ]

  unfoldable pub save_users_state : List DailyChallenge → s.World → Saved
  save_users_state challenges w =
      let w' = s.begin w in
      if store.begins w
      then elim (store.user_rows w') [
        | none ↦ (some failed, w')
        | some users ↦ save_all challenges users w'
      ]
      else (some failed, w)

  unfoldable pub open_saved : Saved → Saved
  open_saved (some e, w) = (some internal_server_error, w)
  open_saved (none, w) =
      let (w', ok) = store.set_open w true in (if ok then none else some internal_server_error, w')

  unfoldable pub open_daily_challenge : ℕ → s.World → Saved
  open_daily_challenge market_day w =
      if store.is_open w then (some invalid_request, w) else elim (store.challenges w market_day) [
        | none ↦ (some internal_server_error, w)
        | some challenges ↦ open_saved (save_users_state challenges w)
      ]

  -- The challenges of the days from one on.
  unfoldable pub challenges_of : ℕ → ℕ → s.World → Option (List DailyChallenge)
  challenges_of day zero w = some []
  challenges_of day (suc n) w = do
    cs ← store.challenges w day
    more ← challenges_of (day + 1) n w
    some (cs ++ more)

  -- The state of a user who registers: on a day before, the challenge has a final value too.
  unfoldable pub new_state : ℕ → ℕ → DailyChallenge → Option UserState
  new_state user_id market_day c =
      let at = λ (value : ℕ).
        let first : UserState = initial_state c.id user_id value in
        some
          (if ltb c.market_day market_day then record first { final_value = value } else first) in
      elim c.challenge_type [
        | cash ↦ at starting_cash
        | net_worth ↦ at starting_cash
        | stock_worth ↦ at 0
        | specific_stock ↦ at 0
        | unsupported ↦ none
      ]

  unfoldable pub save_new_states : ℕ → ℕ → List DailyChallenge → s.World → Saved
  save_new_states user_id market_day [] w = commit_saved w
  save_new_states user_id market_day (c ∷ challenges) w = elim (new_state user_id market_day c) [
    | none ↦ (some invalid_challenge_type, s.rollback w)
    | some x ↦
        let (w', ok) = store.insert_state w x in
        let rest = save_new_states user_id market_day challenges w' in
        if ok then rest else (some failed, s.rollback w')
  ]

  unfoldable pub save_new_user_state : ℕ → s.World → Saved
  save_new_user_state user_id w =
      let day = store.market_day w in
      elim (challenges_of 1 day w) [
        | none ↦ (some failed, w)
        | some challenges ↦
            if store.begins w
            then save_new_states user_id day challenges (s.begin w)
            else (some failed, w)
      ]
