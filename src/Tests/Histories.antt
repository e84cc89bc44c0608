-- ===== src/Tests/Histories.antt =====
-- The recorder of the stock history on a small case.
use dalal_street_server.Base.{
  ℕ, suc, ◌-◌, ◌≡◌, ◌==◌, refl, true, false, none, some, List, [], ◌∷◌, map, Returns, if◌then◌else◌,
  arith, assign-cases, ◌>>=◌,
}
use dalal_street_server.Base.Bytes.{bytes_lt}
use dalal_street_server.Stock.{Stock}
use dalal_street_server.Stock.Floor.{Floor}
use dalal_street_server.Tests.Servers.{server, listed}
use dalal_street_server.History.{StockHistory, Ohlcv, Recorder, history_point}
use dalal_street_server.History.Minute.{record_stock, record_stocks, record_one_minute, next_minute}
use dalal_street_server.History.Interval.{
  last_index, last_later, limited_range, record_at, widen, widen_by, ohlcv_record, save_point,
  record_n_minutes,
}
use dalal_street_server.History.Record.{
  minutes_back, and_then, record_if_due, record_intervals, record_all, record_higher_intervals,
  record_tick,
}
use dalal_street_server.History.Candle.{IsCandle, record_n_minutes-IsCandle}
use dalal_street_server.History.Recorded.{Opened, MinuteRecorded, record_one_minute-MinuteRecorded}

abbrev minute_of : ℕ → ℕ → ℕ → ℕ → StockHistory
minute_of at price high low = record {
  stock_id = 1;
  closing = price;
  created_at = at ∷ [];
  interval = 1;
  opening = 100;
  high = high;
  low = low;
  volume = 10;
}

-- The latest first; the last one is older than five minutes.
abbrev minutes : List StockHistory
minutes =
    minute_of 15 104 107 99
    ∷ minute_of 14 101 102 95
    ∷ minute_of 12 98 101 97
    ∷ minute_of 9 100 150 50
    ∷ []

-- Times are numbers of minutes.
abbrev recorder : Recorder ℕ
recorder = record {
  Time = ℕ;
  earlier = λ t n. t - n;
  minute = λ t. t;
  format = λ t. t ∷ [];
  save_history = λ w p. (suc w, true);
  histories = λ w id since. minutes;
}

abbrev floor : Floor (server true)
floor = record {
  all_stocks = λ id. if id == 1 then some listed else none;
  average = λ id. 100;
  locked = false;
  world = 0;
}

-- At the fifteenth minute intervals of five and of fifteen minutes are recorded.
tick_intervals :
    (record_tick (server true) recorder 15 (1 ∷ []) (1 ∷ []) floor >>= λ (points, f).
    some (map (λ p. p.interval) points))
    ≡ some (1 ∷ 5 ∷ 15 ∷ [])
unfolding record_tick record_one_minute record_stocks record_stock history_point
    record_higher_intervals minutes_back record_all record_intervals and_then record_if_due
    record_n_minutes ohlcv_record limited_range last_later last_index record_at widen widen_by
    save_point next_minute bytes_lt
tick_intervals = refl

record_n_minutes-IsCandle_example :
    Returns
      (λ (ok, points, w').
        (o : Ohlcv) × IsCandle (10 ∷ []) minutes o
        × (points ≡ (if ok then history_point 1 5 (15 ∷ []) o ∷ [] else [])))
      (record_n_minutes recorder 1 minutes 5 15 0)
unfolding bytes_lt
record_n_minutes-IsCandle_example =
    record_n_minutes-IsCandle recorder 1 5 (minute_of 15 104 107 99)
      (minute_of 14 101 102 95 ∷ minute_of 12 98 101 97 ∷ minute_of 9 100 150 50 ∷ []) 15 0
      ((refl, (refl, (refl, tt))), ((refl, (refl, tt)), ((refl, tt), (tt, tt)))) refl

floor-AllOpened : (j : ℕ) (stock : Stock ℕ) → floor.all_stocks j ≡ some stock → Opened stock
floor-AllOpened j stock e =
    assign-cases Opened (j == 1) listed stock none
      (
        record {
          day = (omega arith, omega arith);
          minute = (omega arith, omega arith);
          ever = (omega arith, omega arith);
        },
        (omega arith, omega arith),
      )
      (λ h. absurd (cc)) e

record_one_minute-MinuteRecorded_example :
    Returns
      (MinuteRecorded (server true) recorder (1 ∷ []))
      (record_one_minute (server true) recorder 15 (1 ∷ []) floor)
record_one_minute-MinuteRecorded_example =
    record_one_minute-MinuteRecorded (server true) recorder 15 (1 ∷ []) floor refl floor-AllOpened
      ((listed, refl), tt)
