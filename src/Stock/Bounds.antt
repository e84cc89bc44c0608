-- ===== src/Stock/Bounds.antt =====
-- The prices of a stock lie between its lows and its highs.
use dalal_street_server.Base.{
  ℕ, ◌≤◌, ◌≡◌, refl, Bool, true, false, Option, none, some, List, [], ◌∷◌, Returns, assign-cases,
  returns, ◌==◌, arith, All,
}
use dalal_street_server.Stock.{Stock}
use dalal_street_server.Stock.Floor.{Floor, lock, set_stock}
use dalal_street_server.Stock.Update.{
  track, reprice, save_stock, save_price, price_found, update_stock_price,
}
use dalal_street_server.Stock.Day.{loaded_stock, load_rows, load_found, load_stocks}
use dalal_street_server.Account.State.{Server, stock_row}

abbrev pub Within : ℕ → ℕ → ℕ → Type 0
Within low price high = (low ≤ price) × (price ≤ high)

module _ {Float : Type 0} where
  pub record IsPriced (stock : Stock Float) : Type 0 where
    pub day : Within stock.day_low stock.current_price stock.day_high
    pub minute : Within stock.low stock.current_price stock.high
    pub ever : Within stock.all_time_low stock.current_price stock.all_time_high

-- The new range has the old one and the price.
track-Within :
    (price high low : ℕ)
    → low ≤ high
    → let (high', low') = track price (high, low) in
      Within low' price high' × (low' ≤ low) × (high ≤ high')
unfolding track
track-Within price high low h = ground arith

module _ (s : Server) where
  -- Every stock in memory.
  abbrev pub AllPriced : Floor s → Type 0
  AllPriced f =
      (j : ℕ) (stock : Stock s.floats.Float) → f.all_stocks j ≡ some stock → IsPriced stock

  reprice-IsPriced :
      (stock : Stock s.floats.Float) (traded current : ℕ) (average : s.floats.Float) (now : List ℕ)
      → IsPriced stock
      → IsPriced (reprice s stock traded current average now)
  unfolding reprice
  reprice-IsPriced stock traded current average now p = record {
    day = (track-Within current stock.day_high stock.day_low (omega arith)).0;
    minute = (track-Within current stock.high stock.low (omega arith)).0;
    ever = (track-Within current stock.all_time_high stock.all_time_low (omega arith)).0;
  }

  set_stock-AllPriced :
      (f : Floor s) (id : ℕ) (stock : Stock s.floats.Float)
      → IsPriced stock
      → AllPriced f
      → AllPriced (set_stock f id stock)
  set_stock-AllPriced f id stock p all j found e =
      assign-cases IsPriced (id == j) stock found (f.all_stocks j) p (all j found) e

  save_stock-AllPriced :
      (id : ℕ) (old new : Stock s.floats.Float) (f : Floor s)
      → IsPriced old
      → IsPriced new
      → AllPriced f
      → AllPriced (save_stock s id old new f).1
  unfolding save_stock
  save_stock-AllPriced id old new f p q all =
      elim (s.save f.world (stock_row new)).1
        as (λ r.
          AllPriced
            (elim r as (λ _. Bool × Floor s) [
              | none ↦ (
                false,
                set_stock (record f { world = (s.save f.world (stock_row new)).0 }) id old,
              )
              | some i ↦
                  (true, set_stock (record f { world = (s.save f.world (stock_row new)).0 }) id new)
            ]).1) [
              | none ↦ set_stock-AllPriced f id old p all
              | some i ↦ set_stock-AllPriced f id new q all
            ]

  price_found-AllPriced :
      (id price quantity : ℕ) (found : Option (Stock s.floats.Float)) (f : Floor s)
      → f.all_stocks id ≡ found
      → AllPriced f
      → AllPriced (price_found s id price quantity found f).1
  unfolding price_found save_price
  price_found-AllPriced id price quantity none f e all = all
  price_found-AllPriced id price quantity (some stock) f e all =
      let p = all id stock e in
      save_stock-AllPriced id stock _ _ p (reprice-IsPriced stock _ _ _ _ p) all

  -- A trade keeps the prices of every stock between its lows and its highs, of the day, of the last
  -- minute and of all time: UpdateStockPrice returns, whether the stock is known and the save
  -- succeeds or not.
  pub update_stock_price-AllPriced :
      (id price quantity : ℕ) (f : Floor s)
      → f.locked ≡ false
      → AllPriced f
      → Returns (λ (ok, f'). AllPriced f') (update_stock_price s id price quantity f)
  unfolding update_stock_price lock
  update_stock_price-AllPriced id price quantity f free all =
      rw free (returns (price_found-AllPriced id price quantity (f.all_stocks id) _ refl all))

  -- The range of the day in a row of the database.
  abbrev pub IsListed : Stock s.floats.Float → Type 0
  IsListed stock =
      Within stock.day_low stock.current_price stock.day_high
      × Within stock.all_time_low stock.current_price stock.all_time_high

  load_rows-AllPriced :
      (rows : List (Stock s.floats.Float)) (f : Floor s)
      → All IsListed rows
      → AllPriced f
      → AllPriced (load_rows s rows f)
  unfolding load_rows loaded_stock
  load_rows-AllPriced [] f h all = all
  load_rows-AllPriced (stock ∷ rows) f h all = load_rows-AllPriced rows _ h.1 λ j found e.
      assign-cases IsPriced (stock.id == j) (loaded_stock s stock) found (f.all_stocks j)
        (record { day = h.0.0; minute = (omega arith, omega arith); ever = h.0.1 }) (all j found) e

  -- Loading stocks whose rows have their prices in range gives stocks with their prices in range.
  pub load_stocks-AllPriced :
      (f : Floor s) (rows : List (Stock s.floats.Float))
      → f.locked ≡ false
      → s.stock_rows f.world ≡ some rows
      → All IsListed rows
      → Returns (λ (ok, f'). (ok ≡ true) × (f'.locked ≡ false) × AllPriced f') (load_stocks s f)
  unfolding load_stocks load_found lock
  load_stocks-AllPriced f rows free read h =
      rw (read, free)
        (returns (refl, refl, load_rows-AllPriced rows _ h (λ j found e. absurd (ground arith))))
