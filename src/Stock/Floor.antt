-- ===== src/Stock/Floor.antt =====
-- The variables `allStocks`, with its mutex, and `avgLastPrice` of models/Stock.go, and the reads of
-- a stock.
use dalal_street_server.Base.{ℕ, Bool, true, false, Option, none, some, ◌==◌, if◌then◌else◌, ◌>>=◌}
use dalal_street_server.Stock.{Stock}
use dalal_street_server.Account.State.{Server}

-- `locked`: a lock on allStocks is held that nobody will release.
pub record Floor (s : Server) : Type 0 where
  pub all_stocks : ℕ → Option (Stock s.floats.Float)
  pub average : ℕ → s.floats.Float
  pub locked : Bool
  pub world : s.World

module _ {s : Server} where
  -- `allStocks.Lock()`; none is a call that never returns.
  unfoldable pub lock : Floor s → Option (Floor s)
  lock f = if f.locked then none else some (record f { locked = true })

  abbrev pub unlock : Floor s → Floor s
  unlock f = record f { locked = false }

  -- A stock assigned through its pointer.
  abbrev pub set_stock : Floor s → ℕ → Stock s.floats.Float → Floor s
  set_stock f id stock = record f {
    all_stocks = λ j. if id == j then some stock else f.all_stocks j;
  }

  -- GetStockCopy, whose read lock waits too; the copy is none for an unknown id.
  unfoldable pub get_stock_copy : ℕ → Floor s → Option (Option (Stock s.floats.Float))
  get_stock_copy id f = if f.locked then none else some (f.all_stocks id)

  -- IsStockBankrupt; none is a panic on an unknown id.
  unfoldable pub is_stock_bankrupt : ℕ → Floor s → Option Bool
  is_stock_bankrupt id f = f.all_stocks id >>= λ stock. some stock.is_bankrupt
