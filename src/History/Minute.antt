-- ===== src/History/Minute.antt =====
-- recordOneMinuteOHLC. A result has the error as a Boolean, the points sent to the stream, in their
-- order, and the stocks; none is a call that never returns, or a panic.
use dalal_street_server.Base.{
  ℕ, Bool, true, false, Option, none, some, List, [], ◌∷◌, if◌then◌else◌, ◌>>=◌,
}
use dalal_street_server.Stock.{Stock}
use dalal_street_server.Stock.Floor.{Floor, set_stock}
use dalal_street_server.Account.State.{Server}
use dalal_street_server.History.{StockHistory, Ohlcv, Recorder, history_point}

abbrev pub current_minute : {Float : Type 0} → Stock Float → Ohlcv
current_minute stock = record {
  opening = stock.opening;
  high = stock.high;
  low = stock.low;
  closing = stock.current_price;
  volume = stock.volume;
}

-- The next minute starts at the closing price.
unfoldable pub next_minute : {Float : Type 0} → Stock Float → Stock Float
next_minute stock = record stock {
  opening = stock.current_price;
  high = stock.current_price;
  low = stock.current_price;
  volume = 0;
}

module _ (s : Server) (recorder : Recorder s.World) where
  abbrev pub Sent : Type 0
  Sent = Bool × List StockHistory × Floor s

  abbrev pub send : StockHistory → Sent → Sent
  send p (ok, points, f) = (ok, p ∷ points, f)

  -- One round: the stock is reset, then its point is saved.
  unfoldable pub record_stock :
      ℕ → recorder.Time → Stock s.floats.Float → Floor s → Bool × StockHistory × Floor s
  record_stock id now stock f =
      let p = history_point id 1 (recorder.format now) (current_minute stock) in
      let f' = set_stock f id (next_minute stock) in
      let (w, ok) = recorder.save_history f'.world p in (ok, p, record f' { world = w })

  -- The loop over the keys of the map, in one of the orders that Go may choose.
  unfoldable pub record_stocks : recorder.Time → List ℕ → Floor s → Option Sent
  record_stocks now [] f = some (true, [], f)
  record_stocks now (id ∷ ids) f = f.all_stocks id >>= λ stock.
      let (ok, p, f') = record_stock id now stock f in
      let rest = record_stocks now ids f' in
      if ok then (rest >>= λ r. some (send p r)) else some (false, [], f')

  -- `allStocks.RLock()` waits if the lock is never released.
  unfoldable pub record_one_minute : recorder.Time → List ℕ → Floor s → Option Sent
  record_one_minute now ids f = if f.locked then none else record_stocks now ids f
