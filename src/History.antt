-- ===== src/History.antt =====
-- models/StockHistory.go: the recorder of the prices and volumes of each minute and of longer
-- intervals.
pub mod Minute
pub mod Interval
pub mod Record
pub mod Widened
pub mod Candle
pub mod Recorded
use dalal_street_server.Base.{ℕ, Bool, List}

-- `opening` and `closing` are the fields Open and Close.
pub record StockHistory : Type 0 where
  pub stock_id : ℕ
  pub closing : ℕ
  pub created_at : List ℕ
  pub interval : ℕ
  pub opening : ℕ
  pub high : ℕ
  pub low : ℕ
  pub volume : ℕ

-- The struct ohlcv.
pub record Ohlcv : Type 0 where
  pub opening : ℕ
  pub high : ℕ
  pub low : ℕ
  pub closing : ℕ
  pub volume : ℕ

-- What the recorder uses of package time: a time some minutes earlier, the minute of the hour, and
-- the text in RFC 3339; and of the database: the save of a row, which says whether it succeeded, and
-- the query for the one-minute rows of a stock that are not older than a text, the latest first.
pub record Recorder (World : Type 0) : Type 1 where
  pub Time : Type 0
  pub earlier : Time → ℕ → Time
  pub minute : Time → ℕ
  pub format : Time → List ℕ
  pub save_history : World → StockHistory → World × Bool
  pub histories : World → ℕ → List ℕ → List StockHistory

-- The row saved for an interval.
unfoldable pub history_point : ℕ → ℕ → List ℕ → Ohlcv → StockHistory
history_point stock_id interval now o = record {
  stock_id = stock_id;
  closing = o.closing;
  created_at = now;
  interval = interval;
  opening = o.opening;
  high = o.high;
  low = o.low;
  volume = o.volume;
}
