-- ===== src/Tests/Challenges.antt =====
-- The challenges of a day on a small case.
use dalal_street_server.Base.{
  ℕ, ◌≡◌, refl, ◌==◌, Bool, true, false, none, some, List, [], ◌∷◌, Returns, if◌then◌else◌, ◌>>=◌,
  map,
}
use dalal_street_server.Base.Word.{add64, int_rank}
use dalal_street_server.Account.Users.{get_user_exclusively, find_user}
use dalal_street_server.Account.Holding.{Holding, take_user, no_locks}
use dalal_street_server.Tests.Servers.{server, seller}
use dalal_street_server.Challenge.{
  ChallengeType, cash, net_worth, unsupported, DailyChallenge, UserState, UpdateUserStateQueryData,
  internal_server_error, ChallengeStore,
}
use dalal_street_server.Challenge.Opening.{
  add_daily_challenge, is_stock_given, states_for, insert_or_fail, save_challenge_states, save_all,
  save_users_state, open_saved, open_daily_challenge,
}
use dalal_street_server.Challenge.Closing.{
  judged, save_judged, value_of, judge_value, judge_user, judge_locked, judge, judge_all,
}
use dalal_street_server.Challenge.Reward.{
  refusal, save_reward, pay_reward, reward_found, reward_for, get_my_reward,
}
use dalal_street_server.Challenge.Verdicts.{measure, Ready, Verdicts, judge_all-Verdicts}
use dalal_street_server.Challenge.Rewarded.{RewardOutcome, get_my_reward-RewardOutcome}

abbrev challenge : ChallengeType → DailyChallenge
challenge kind = record {
  id = 4;
  market_day = 2;
  challenge_type = kind;
  value = 100;
  stock_id = 0;
  reward = 60;
}

-- The seller has a cash of 500.
abbrev row : ℕ → ChallengeType → UpdateUserStateQueryData
row initial kind = record {
  id = 8;
  user_id = 7;
  initial_value = initial;
  challenge_type = kind;
  value = 100;
  stock_id = 0;
}

abbrev store : ChallengeType → ChallengeStore ℕ
store kind = record {
  market_day = λ w. 1;
  is_open = λ w. false;
  set_open = λ w b. (w, true);
  begins = λ w. true;
  challenges = λ w day. some (challenge kind ∷ []);
  insert_challenge = λ w c. (w, true);
  user_rows = λ w. some (record { user_id = 7; cash = 500; stock_worth = 0; total = 500 } ∷ []);
  stock_rows = λ w id. some [];
  state_rows = λ w day. some (row 400 kind ∷ []);
  insert_state = λ w x. (w, true);
  update_state = λ w x. (w, true);
  total_stock_count = λ w u id. some 30;
  reward_row = λ w id. some (record {
    user_id = 7;
    is_completed = true;
    is_reward_claimed = false;
    market_day = 0;
    reward = 60;
  });
  set_claimed = λ w id. (w, true);
}

abbrev holding : Bool → Holding ℕ
holding commits =
    no_locks (server commits)
      (record { user_locks = λ j. if j == 7 then some seller else none; world = 0 })

-- A challenge of another type is added, and then the day is not opened.
other_added : (add_daily_challenge (server true) (store cash) 100 2 0 unsupported 60 0).0 ≡ none
unfolding add_daily_challenge is_stock_given
other_added = refl

other_not_opened :
    (open_daily_challenge (server true) (store unsupported) 2 0).0 ≡ some internal_server_error
unfolding open_daily_challenge save_users_state save_all save_challenge_states insert_or_fail
    states_for open_saved
other_not_opened = refl

-- A reward that the database does not commit stays in the cash in memory.
unsaved_reward :
    (get_my_reward (server false) (store cash) 8 7 (holding false) >>= λ (r, h).
    h.users.user_locks 7 >>= λ u. some u.cash)
    ≡ some 560
unfolding get_my_reward reward_for refusal take_user get_user_exclusively find_user reward_found
    pay_reward save_reward add64
unsaved_reward = refl

-- A user's initial value of 400 has grown by 100, one of 450 has not.
completions :
    (judge_all (server true) (store cash) (row 400 cash ∷ row 450 cash ∷ []) (holding true)
      >>= λ (states, h). states >>= λ xs. some (map (λ (x : UserState). x.is_completed) xs))
    ≡ some (true ∷ false ∷ [])
unfolding judge_all judge judge_locked judge_user judge_value value_of save_judged judged take_user
    get_user_exclusively find_user add64 int_rank
completions = refl

get_my_reward-RewardOutcome_example :
    RewardOutcome
      (server false)
      (store cash)
      8
      7
      (holding false)
      (get_my_reward (server false) (store cash) 8 7 (holding false))
get_my_reward-RewardOutcome_example =
    get_my_reward-RewardOutcome (server false) (store cash) 8 7 (holding false)

judge_all-Verdicts_example :
    Returns
      (λ (states, h').
        ((xs : List UserState) × (states ≡ some xs)
          × Verdicts
              (server true)
              (store cash)
              (λ w x. refl)
              (holding true).users.user_locks
              (λ u id. 30)
              (λ w u id. refl)
              (row 400 net_worth ∷ [])
              xs)
        × Ready (server true) (store cash) (λ w x. refl) (holding true).users.user_locks h')
      (judge_all (server true) (store cash) (row 400 net_worth ∷ []) (holding true))
unfolding measure
judge_all-Verdicts_example =
    judge_all-Verdicts (server true) (store cash) (λ w x. refl) (holding true).users.user_locks
      (λ u id. 30) (λ w u id. refl) (row 400 net_worth ∷ []) (holding true)
      ((0, (seller, refl, refl)), tt) (record { kept = λ j u e. e; free = λ j. refl })
