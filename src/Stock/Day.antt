-- ===== src/Stock/Day.antt =====
-- LoadStocks, SetPreviousDayClose and SetDayHighAndLow of models/Stock.go. `ids` are the keys of the
-- map of stocks in the order in which Go ranges over it.
use dalal_street_server.Base.{
  ℕ, Bool, true, false, Option, none, some, List, [], ◌∷◌, ◌==◌, if◌then◌else◌, ◌>>=◌,
}
use dalal_street_server.Stock.{Stock}
use dalal_street_server.Stock.Floor.{Floor, lock, unlock, set_stock}
use dalal_street_server.Account.State.{Server, stock_row}

module _ (s : Server) where
  abbrev Listed : Type 0
  Listed = Stock s.floats.Float

  -- A stock as it is loaded: the last minute starts at the current price.
  unfoldable pub loaded_stock : Listed → Listed
  loaded_stock stock = record stock {
    opening = stock.current_price;
    high = stock.current_price;
    low = stock.current_price;
  }

  -- The loop over the rows; a later row of the same id replaces an earlier one.
  unfoldable pub load_rows : List Listed → Floor s → Floor s
  load_rows [] f = f
  load_rows (stock ∷ rows) f = load_rows rows (record f {
    all_stocks = λ j. if stock.id == j then some (loaded_stock stock) else f.all_stocks j;
    average = λ j. if stock.id == j then stock.real_avg_price else f.average j;
  })

  abbrev pub no_stocks : Floor s → Floor s
  no_stocks f = record f { all_stocks = λ j. none; average = λ j. s.floats.of_uint 0 }

  unfoldable pub load_found : Option (List Listed) → Floor s → Option (Bool × Floor s)
  load_found none f = some (false, f)
  load_found (some rows) f = lock f >>= λ f'. some (true, unlock (load_rows rows (no_stocks f')))

  unfoldable pub load_stocks : Floor s → Option (Bool × Floor s)
  load_stocks f = load_found (s.stock_rows f.world) f

  -- One stock changed in memory and saved.
  unfoldable pub save_changed : ℕ → (Listed → Listed) → Option Listed → Floor s → Bool × Floor s
  save_changed id change none f = (true, f)
  save_changed id change (some stock) f =
      let (w, r) = s.save f.world (stock_row (change stock)) in
      let f' = set_stock (record f { world = w }) id (change stock) in
      elim r [ none ↦ (false, record f' { world = s.rollback w }) | some i ↦ (true, f') ]

  -- The loop, up to the first save that fails, and the commit.
  unfoldable pub change_all : (Listed → Listed) → List ℕ → Floor s → Floor s
  change_all change [] f = record f { world = (s.commit f.world).0 }
  change_all change (id ∷ ids) f =
      let (ok, f') = save_changed id change (f.all_stocks id) f in
      let rest = change_all change ids f' in if ok then rest else f'

  -- The deferred call of LoadStocks gives the error that is returned, in place of any other.
  abbrev pub change_day : (Listed → Listed) → List ℕ → Floor s → Option (Bool × Floor s)
  change_day change ids f = do
    f' ← lock (record f { world = s.begin f.world })
    load_stocks (unlock (change_all change ids f'))

  unfoldable pub set_previous_day_close : List ℕ → Floor s → Option (Bool × Floor s)
  set_previous_day_close =
      change_day (λ stock. record stock { previous_day_close = stock.current_price })

  unfoldable pub set_day_high_and_low : List ℕ → Floor s → Option (Bool × Floor s)
  set_day_high_and_low =
      change_day
        (λ stock. record stock { day_high = stock.current_price; day_low = stock.current_price })
