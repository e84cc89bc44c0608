-- ===== src/History/Record.antt =====
-- recorderHigherIntervalOHLCs, a tick of startStockHistoryRecorder, and GetStockHistory.
use dalal_street_server.Base.{
  ℕ, Bool, true, Option, none, some, List, [], ◌∷◌, ◌++◌, ◌%◌, ◌==◌, if◌then◌else◌, ◌>>=◌,
}
use dalal_street_server.Stock.Floor.{Floor}
use dalal_street_server.Account.State.{Server}
use dalal_street_server.History.{StockHistory, Recorder}
use dalal_street_server.History.Minute.{record_one_minute}
use dalal_street_server.History.Interval.{Recording, record_n_minutes}

-- The longest interval that ends at the minute, if one does.
unfoldable pub minutes_back : ℕ → Option ℕ
minutes_back minute =
    if minute % 60 == 0
    then some 60
    else if minute % 30 == 0
    then some 30
    else if minute % 15 == 0
    then some 15
    else if minute % 5 == 0
    then some 5
    else none

module _ {World : Type 0} (recorder : Recorder World) where
  -- A run of one recording, and of the next one if it gave no error.
  unfoldable pub and_then :
      Option (Recording recorder)
      → (World → Option (Recording recorder))
      → Option (Recording recorder)
  and_then m k = m >>= λ (ok, points, w).
      let rest = k w in
      if ok
      then (rest >>= λ (ok', more, w'). some (ok', points ++ more, w'))
      else some (ok, points, w)

  -- `if currMin%n == 0`
  unfoldable pub record_if_due :
      ℕ → List StockHistory → recorder.Time → ℕ → World → Option (Recording recorder)
  record_if_due stock_id records now n w =
      if recorder.minute now % n == 0
      then record_n_minutes recorder stock_id records n now w
      else some (true, [], w)

  -- The loop over the stocks calls this for each one.
  unfoldable pub record_intervals : ℕ → recorder.Time → List ℕ → World → Option (Recording recorder)
  record_intervals stock_id now since w =
      let due = record_if_due stock_id (recorder.histories w stock_id since) now in
      and_then (due 5 w) λ w1. and_then (due 15 w1) λ w2. and_then (due 30 w2) (due 60)

  unfoldable pub record_all : recorder.Time → List ℕ → List ℕ → World → Option (Recording recorder)
  record_all now since [] w = some (true, [], w)
  record_all now since (id ∷ ids) w =
      and_then (record_intervals id now since w) (record_all now since ids)

module _ (s : Server) (recorder : Recorder s.World) where
  abbrev pub on_world : Floor s → Recording recorder → Bool × List StockHistory × Floor s
  on_world f (ok, points, w) = (ok, points, record f { world = w })

  unfoldable pub record_higher_intervals :
      recorder.Time → List ℕ → Floor s → Option (Bool × List StockHistory × Floor s)
  record_higher_intervals now ids f = elim (minutes_back (recorder.minute now)) [
    | none ↦ some (true, [], f)
    | some n ↦
        if f.locked
        then none
        else record_all recorder now (recorder.format (recorder.earlier now n)) ids f.world >>= λ r.
            some (on_world f r)
  ]

  -- What a tick does; errors are only logged. Each loop has an order of the keys of its own.
  unfoldable pub record_tick :
      recorder.Time → List ℕ → List ℕ → Floor s → Option (List StockHistory × Floor s)
  record_tick now ids ids' f = do
    (ok, points, f') ← record_one_minute s recorder now ids f
    (ok', more, f'') ← record_higher_intervals now ids' f'
    some (points ++ more, f'')
