-- ===== src/Leaderboard.antt =====
-- models/LeaderboardRow.go: the rows of the leaderboard, and what it uses of the database.
pub mod Update
pub mod Ranks
use dalal_street_server.Base.{ℕ, Bool, Option, List}

-- Worths and totals are int64 patterns.
pub record LeaderboardRow : Type 0 where
  pub id : ℕ
  pub user_id : ℕ
  pub user_name : List ℕ
  pub rank : ℕ
  pub cash : ℕ
  pub debt : ℕ
  pub stock_worth : ℕ
  pub total_worth : ℕ
  pub is_blocked : Bool

pub record LeaderboardQueryData : Type 0 where
  pub user_id : ℕ
  pub user_name : List ℕ
  pub cash : ℕ
  pub stock_worth : ℕ
  pub total : ℕ
  pub is_blocked : Bool

-- The query for the totals of the users, in descending order; the statements that empty the table
-- and save a row; and the queries for the rows from an id on, by rank and up to a count, for the row
-- of a user, and for the count of users.
pub record LeaderboardStore (World : Type 0) : Type 0 where
  pub totals : World → List LeaderboardQueryData
  pub truncate : World → World
  pub save_row : World → LeaderboardRow → World × Bool
  pub rows_from : World → ℕ → ℕ → Option (List LeaderboardRow)
  pub row_of : World → ℕ → Option LeaderboardRow
  pub user_count : World → ℕ
