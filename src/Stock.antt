-- ===== src/Stock.antt =====
-- models/Stock.go: the struct of a stock; its children have the operations on all stocks. The prices
-- open, high and low and the volume are those of the last minute.
pub mod Floor
pub mod Update
pub mod Day
pub mod Bounds
pub mod Locks
use dalal_street_server.Base.{ℕ, Bool, List}

-- `opening` is the field `open`.
pub record Stock (Float : Type 0) : Type 0 where
  pub id : ℕ
  pub short_name : List ℕ
  pub full_name : List ℕ
  pub description : List ℕ
  pub current_price : ℕ
  pub day_high : ℕ
  pub day_low : ℕ
  pub all_time_high : ℕ
  pub all_time_low : ℕ
  pub stocks_in_exchange : ℕ
  pub stocks_in_market : ℕ
  pub previous_day_close : ℕ
  pub up_or_down : Bool
  pub last_trade_price : ℕ
  pub real_avg_price : Float
  pub created_at : List ℕ
  pub updated_at : List ℕ
  pub gives_dividends : Bool
  pub is_bankrupt : Bool
  pub opening : ℕ
  pub high : ℕ
  pub low : ℕ
  pub volume : ℕ
