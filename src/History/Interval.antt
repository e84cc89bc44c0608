-- ===== src/History/Interval.antt =====
-- recordNMinuteOHLC: the prices of an interval from those of its minutes, the latest first.
use dalal_street_server.Base.{
  ℕ, zero, suc, Bool, true, Option, none, some, List, [], ◌∷◌, length, ltb, if◌then◌else◌, ◌>>=◌,
  ◌-◌,
}
use dalal_street_server.Base.Word.{add64}
use dalal_street_server.Base.Bytes.{bytes_lt}
use dalal_street_server.History.{StockHistory, Ohlcv, Recorder, history_point}

-- The index from the end of the list's tail, if there is one, else whether the head is taken.
unfoldable pub last_index : Option ℕ → Bool → Option ℕ
last_index (some i) is_later = some (suc i)
last_index none is_later = if is_later then some 0 else none

-- The loop that looks for `limitedRange` from the end: the last index of a record that is later than
-- the text.
unfoldable pub last_later : List ℕ → List StockHistory → Option ℕ
last_later limit [] = none
last_later limit (r ∷ records) = last_index (last_later limit records) (bytes_lt limit r.created_at)

unfoldable pub limited_range : List ℕ → List StockHistory → ℕ
limited_range limit records = elim (last_later limit records) [
  | some i ↦ i
  | none ↦ length records - 1
]

-- `retrievedHistories[i]`; none is a panic.
unfoldable pub record_at : ℕ → List StockHistory → Option StockHistory
record_at i [] = none
record_at zero (r ∷ records) = some r
record_at (suc i) (r ∷ records) = record_at i records

-- The body of the second loop.
unfoldable pub widen : StockHistory → Ohlcv → Ohlcv
widen r o = record o {
  high = if ltb o.high r.high then r.high else o.high;
  low = if ltb r.low o.low then r.low else o.low;
  volume = add64 o.volume r.volume;
}

-- `for i := 0; i <= limitedRange; i++`
unfoldable pub widen_by : ℕ → List StockHistory → Ohlcv → Option Ohlcv
widen_by n [] o = none
widen_by zero (r ∷ records) o = some (widen r o)
widen_by (suc n) (r ∷ records) o = widen_by n records (widen r o)

unfoldable pub ohlcv_record : List ℕ → List StockHistory → Option Ohlcv
ohlcv_record limit records = do
  first ← record_at (limited_range limit records) records
  last ← record_at 0 records
  widen_by (limited_range limit records) records (record {
    opening = first.opening;
    high = first.opening;
    low = first.opening;
    closing = last.closing;
    volume = 0;
  })

module _ {World : Type 0} (recorder : Recorder World) where
  abbrev pub Recording : Type 0
  Recording = Bool × List StockHistory × World

  -- The point is sent to the stream if its save succeeds.
  unfoldable pub save_point : StockHistory → World → Recording
  save_point p w = let (w', ok) = recorder.save_history w p in (ok, if ok then p ∷ [] else [], w')

  unfoldable pub record_n_minutes :
      ℕ → List StockHistory → ℕ → recorder.Time → World → Option Recording
  record_n_minutes stock_id [] n now w = some (true, [], w)
  record_n_minutes stock_id (r ∷ records) n now w =
      ohlcv_record (recorder.format (recorder.earlier now n)) (r ∷ records) >>= λ o.
      some (save_point (history_point stock_id n (recorder.format now) o) w)
