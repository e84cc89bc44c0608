-- ===== src/Challenge.antt =====
-- models/DailyChallenge.go: the challenges of a market day, the states of users in them, and what the
-- code uses of the database.
pub mod Opening
pub mod Closing
pub mod Reward
pub mod Verdicts
pub mod Rewarded
pub mod Opened
use dalal_street_server.Base.{ℕ, Bool, Option, List}
use dalal_street_server.Account.State.{User}

-- The texts that the code compares the type with, and any other text.
pub data ChallengeType : Type 0 where
  cash net_worth stock_worth specific_stock unsupported : ChallengeType

pub record DailyChallenge : Type 0 where
  pub id : ℕ
  pub market_day : ℕ
  pub challenge_type : ChallengeType
  pub value : ℕ
  pub stock_id : ℕ
  pub reward : ℕ

-- Values are int64 patterns. A field that a save omits keeps the column's default.
pub record UserState : Type 0 where
  pub id : ℕ
  pub challenge_id : ℕ
  pub user_id : ℕ
  pub initial_value : ℕ
  pub final_value : ℕ
  pub is_completed : Bool
  pub is_reward_claimed : Bool

-- The rows of the queries: userStateQueryData, specificStockUserEntry, updateUserStateQueryData and
-- getMyRewardQueryData.
pub record UserStateQueryData : Type 0 where
  pub user_id : ℕ
  pub cash : ℕ
  pub stock_worth : ℕ
  pub total : ℕ

pub record SpecificStockUserEntry : Type 0 where
  pub user_id : ℕ
  pub stock_quantity : ℕ

pub record UpdateUserStateQueryData : Type 0 where
  pub id : ℕ
  pub user_id : ℕ
  pub initial_value : ℕ
  pub challenge_type : ChallengeType
  pub value : ℕ
  pub stock_id : ℕ

pub record MyRewardQueryData : Type 0 where
  pub user_id : ℕ
  pub is_completed : Bool
  pub is_reward_claimed : Bool
  pub market_day : ℕ
  pub reward : ℕ

-- The errors that are returned; `failed` is one of the database.
pub data ChallengeError : Type 0 where
  invalid_request invalid_user invalid_credential invalid_challenge_type : ChallengeError
  internal_server_error failed : ChallengeError

-- The configuration's market day and flag; whether a transaction begins; the challenges of a day; the
-- insertion of a challenge; the users with their worths, and with their stocks of one kind; the
-- states in the challenges of a day; the insertion of a state, and the update of one's final value
-- and completion; what getTotalSingleStockCount sums for a user and a stock; the row for a reward,
-- and the update that marks a state as claimed. A query that fails gives none.
pub record ChallengeStore (World : Type 0) : Type 0 where
  pub market_day : World → ℕ
  pub is_open : World → Bool
  pub set_open : World → Bool → World × Bool
  pub begins : World → Bool
  pub challenges : World → ℕ → Option (List DailyChallenge)
  pub insert_challenge : World → DailyChallenge → World × Bool
  pub user_rows : World → Option (List UserStateQueryData)
  pub stock_rows : World → ℕ → Option (List SpecificStockUserEntry)
  pub state_rows : World → ℕ → Option (List UpdateUserStateQueryData)
  pub insert_state : World → UserState → World × Bool
  pub update_state : World → UserState → World × Bool
  pub total_stock_count : World → User → ℕ → Option ℕ
  pub reward_row : World → ℕ → Option MyRewardQueryData
  pub set_claimed : World → ℕ → World × Bool
