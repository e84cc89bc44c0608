-- ===== src/Stock/Update.antt =====
-- UpdateStockPrice, UpdateStockVolume, AddStocksToExchange, SetGivesDividends and SetBankruptcy of
-- models/Stock.go. A result is none if the call never returns or panics; its Boolean says whether
-- the call gave no error.
use dalal_street_server.Base.{
  ℕ, ◌/◌, Bool, true, false, Option, none, some, List, ltb, ◌==◌, if◌then◌else◌, ◌>>=◌,
}
use dalal_street_server.Base.Word.{add64, sub64, mul64}
use dalal_street_server.Stock.{Stock}
use dalal_street_server.Stock.Floor.{Floor, lock, unlock, set_stock}
use dalal_street_server.Account.State.{Server, stock_row}

-- STOCK_AVERAGE_PERCENT and MAX_AVERAGE_STOCK_COUNT.
abbrev pub stock_average_percent : ℕ
stock_average_percent = 1

abbrev pub max_average_stock_count : ℕ
max_average_stock_count = 3

-- `if price > high { high = price } else if price < low { low = price }`
unfoldable pub track : ℕ → ℕ × ℕ → ℕ × ℕ
track price (high, low) =
    if ltb high price then (price, low) else if ltb price low then (high, price) else (high, low)

module _ (s : Server) where
  abbrev Listed : Type 0
  Listed = Stock s.floats.Float

  unfoldable pub average_stock_count : Listed → ℕ
  average_stock_count stock = s.floats.to_uint (
      s.floats.min
        (s.floats.max
          (s.floats.of_uint (
            mul64 stock_average_percent (add64 stock.stocks_in_exchange stock.stocks_in_market)
            / 100))
          (s.floats.of_uint 1))
        (s.floats.of_uint max_average_stock_count))

  -- The change of the average by a trade.
  unfoldable pub price_change : Listed → s.floats.Float → ℕ → ℕ → s.floats.Float
  price_change stock average price quantity =
      let count = average_stock_count stock in
      let n =
        s.floats.to_uint (s.floats.min (s.floats.of_uint quantity) (s.floats.of_uint count)) in
      s.floats.over
        (s.floats.times (s.floats.of_uint n) (s.floats.minus (s.floats.of_uint price) average))
        (s.floats.of_uint count)

  -- The stock with its new prices, where `traded` is the last trade and `current` the new price.
  unfoldable pub reprice : Listed → ℕ → ℕ → s.floats.Float → List ℕ → Listed
  reprice stock traded current average now =
      let (day_high, day_low) = track current (stock.day_high, stock.day_low) in
      let (high, low) = track current (stock.high, stock.low) in
      let (all_high, all_low) = track current (stock.all_time_high, stock.all_time_low) in
      record stock {
        last_trade_price = traded;
        updated_at = now;
        current_price = current;
        real_avg_price = average;
        day_high = day_high;
        day_low = day_low;
        high = high;
        low = low;
        all_time_high = all_high;
        all_time_low = all_low;
        up_or_down = ltb stock.previous_day_close current;
      }

  -- `db.Save(stock)`: the new stock stays if the save succeeds, else the old one is put back.
  unfoldable pub save_stock : ℕ → Listed → Listed → Floor s → Bool × Floor s
  save_stock id old new f =
      let (w, r) = s.save f.world (stock_row new) in
      let f' = record f { world = w } in
      elim r [ none ↦ (false, set_stock f' id old) | some i ↦ (true, set_stock f' id new) ]

  -- `avgLastPrice` stays changed if the save fails.
  unfoldable pub save_price : ℕ → ℕ → ℕ → Listed → Floor s → Bool × Floor s
  save_price id price quantity stock f =
      let change = price_change stock (f.average id) price quantity in
      let average =
        λ (j : ℕ). if stock.id == j then s.floats.plus (f.average j) change else f.average j in
      let new =
        reprice stock price (s.floats.to_uint (average stock.id)) (average id) (s.clock f.world) in
      save_stock id stock new (record f { average = average })

  -- Where the stock is unknown, the lock is kept.
  unfoldable pub price_found : ℕ → ℕ → ℕ → Option Listed → Floor s → Bool × Floor s
  price_found id price quantity none f = (false, f)
  price_found id price quantity (some stock) f = save_price id price quantity stock (unlock f)

  unfoldable pub update_stock_price : ℕ → ℕ → ℕ → Floor s → Option (Bool × Floor s)
  update_stock_price id price quantity f =
      lock f >>= λ f'. some (price_found id price quantity (f'.all_stocks id) f')

  unfoldable pub update_stock_volume : ℕ → ℕ → Floor s → Option (Floor s)
  update_stock_volume id volume f = do
    f' ← lock f
    stock ← f'.all_stocks id
    some (unlock (set_stock f' id (record stock { volume = add64 stock.volume volume })))

  -- A failed save takes the stocks out again and keeps the time of the update.
  unfoldable pub add_found : ℕ → ℕ → Option Listed → Floor s → Bool × Floor s
  add_found id count none f = (false, f)
  add_found id count (some stock) f =
      let new = record stock {
        stocks_in_exchange = add64 stock.stocks_in_exchange count;
        updated_at = s.clock f.world;
      } in
      save_stock id (record new { stocks_in_exchange = sub64 new.stocks_in_exchange count }) new
        (unlock f)

  unfoldable pub add_stocks_to_exchange : ℕ → ℕ → Floor s → Option (Bool × Floor s)
  add_stocks_to_exchange id count f =
      lock f >>= λ f'. some (add_found id count (f'.all_stocks id) f')

  unfoldable pub change_found : ℕ → (Listed → Listed) → Option Listed → Floor s → Bool × Floor s
  change_found id change none f = (false, f)
  change_found id change (some stock) f =
      let (ok, f') = save_stock id stock (change stock) f in (ok, unlock f')

  unfoldable pub set_gives_dividends : ℕ → Bool → Floor s → Option (Bool × Floor s)
  set_gives_dividends id gives f = lock f >>= λ f'.
      some
        (change_found id (λ stock. record stock { gives_dividends = gives }) (f'.all_stocks id) f')

  abbrev pub bankrupt : Bool → Listed → Listed
  bankrupt is_bankrupt stock = record stock { is_bankrupt = is_bankrupt; current_price = 0 }

  unfoldable pub set_bankruptcy : ℕ → Bool → Floor s → Option (Bool × Floor s)
  set_bankruptcy id is_bankrupt f =
      lock f >>= λ f'. some (change_found id (bankrupt is_bankrupt) (f'.all_stocks id) f')
