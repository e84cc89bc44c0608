-- ===== src/Stock/Locks.antt =====
-- Which operations release the lock on all stocks, and what their errors are worth.
use dalal_street_server.Base.{
  ℕ, ◌≡◌, ◌≢◌, refl, Bool, true, false, Option, none, some, List, Returns, returns, weaken-Returns,
  arith, Option-cases, inl, inr,
}
use dalal_street_server.Stock.{Stock}
use dalal_street_server.Stock.Floor.{Floor, lock, get_stock_copy}
use dalal_street_server.Stock.Update.{
  save_stock, save_price, price_found, update_stock_price, update_stock_volume, add_found,
  add_stocks_to_exchange, change_found, set_gives_dividends, set_bankruptcy,
}
use dalal_street_server.Stock.Day.{
  load_found, load_stocks, set_previous_day_close, set_day_high_and_low,
}
use dalal_street_server.Account.State.{Server}

module _ (s : Server) where
  -- None of these eight calls on the stocks returns any more.
  pub record IsStuck (f : Floor s) : Type 0 where
    pub prices : (id price quantity : ℕ) → update_stock_price s id price quantity f ≡ none
    pub volumes : (id volume : ℕ) → update_stock_volume s id volume f ≡ none
    pub exchange : (id count : ℕ) → add_stocks_to_exchange s id count f ≡ none
    pub dividends : (id : ℕ) (gives : Bool) → set_gives_dividends s id gives f ≡ none
    pub bankruptcy : (id : ℕ) (gone : Bool) → set_bankruptcy s id gone f ≡ none
    pub copies : (id : ℕ) → get_stock_copy id f ≡ none
    pub closing : (ids : List ℕ) → set_previous_day_close s ids f ≡ none
    pub opening : (ids : List ℕ) → set_day_high_and_low s ids f ≡ none

  locked-IsStuck : (f : Floor s) → f.locked ≡ true → IsStuck f
  unfolding update_stock_price update_stock_volume add_stocks_to_exchange set_gives_dividends
      set_bankruptcy get_stock_copy set_previous_day_close set_day_high_and_low lock
  locked-IsStuck f held = record {
    prices = λ id price quantity. rw held;
    volumes = λ id volume. rw held;
    exchange = λ id count. rw held;
    dividends = λ id gives. rw held;
    bankruptcy = λ id gone. rw held;
    copies = λ id. rw held;
    closing = λ ids. rw held;
    opening = λ ids. rw held;
  }

  save_stock-locked :
      (id : ℕ) (old new : Stock s.floats.Float) (f : Floor s)
      → (save_stock s id old new f).1.locked ≡ f.locked
  unfolding save_stock
  save_stock-locked id old new f = ground arith

  reload :
      (f : Floor s)
      → s.stock_rows f.world ≢ none
      → f.locked ≡ false
      → Returns (λ (ok, f'). ok ≡ true) (load_stocks s f)
  unfolding load_stocks load_found lock
  reload f loads free = elim (Option-cases (s.stock_rows f.world)) [
    | inl e ↦ absurd (loads e)
    | inr (rows, e) ↦ rw (e, free) (returns refl)
  ]

  -- How a call with the lock free ends, by whether the stock is known.
  abbrev Ended : Option (Stock s.floats.Float) → Bool × Floor s → Type 0
  Ended none (ok, f) = (ok ≡ false) × (f.locked ≡ true)
  Ended (some stock) (ok, f) = f.locked ≡ false

  price_found-Ended :
      (id price quantity : ℕ) (found : Option (Stock s.floats.Float)) (f : Floor s)
      → f.locked ≡ true
      → Ended found (price_found s id price quantity found f)
  unfolding price_found save_price
  price_found-Ended id price quantity none f held = (refl, held)
  price_found-Ended id price quantity (some stock) f held = save_stock-locked id stock _ _

  add_found-Ended :
      (id count : ℕ) (found : Option (Stock s.floats.Float)) (f : Floor s)
      → f.locked ≡ true
      → Ended found (add_found s id count found f)
  unfolding add_found
  add_found-Ended id count none f held = (refl, held)
  add_found-Ended id count (some stock) f held = save_stock-locked id _ _ _

  change_found-Ended :
      (id : ℕ) (change : Stock s.floats.Float → Stock s.floats.Float)
      (found : Option (Stock s.floats.Float)) (f : Floor s)
      → f.locked ≡ true
      → Ended found (change_found s id change found f)
  unfolding change_found
  change_found-Ended id change none f held = (refl, held)
  change_found-Ended id change (some stock) f held = refl

  -- The operations that look a stock up under the lock, and the stock that they are about.
  pub data Update : Type 0 where
    price_update : ℕ → ℕ → ℕ → Update
    exchange_update : ℕ → ℕ → Update
    dividend_update : ℕ → Bool → Update
    bankruptcy_update : ℕ → Bool → Update

  abbrev pub stock_of : Update → ℕ
  stock_of (price_update id price quantity) = id
  stock_of (exchange_update id count) = id
  stock_of (dividend_update id gives) = id
  stock_of (bankruptcy_update id gone) = id

  abbrev pub run : Update → Floor s → Option (Bool × Floor s)
  run (price_update id price quantity) = update_stock_price s id price quantity
  run (exchange_update id count) = add_stocks_to_exchange s id count
  run (dividend_update id gives) = set_gives_dividends s id gives
  run (bankruptcy_update id gone) = set_bankruptcy s id gone

  run-Ended :
      (u : Update) (f : Floor s)
      → f.locked ≡ false
      → Returns (Ended (f.all_stocks (stock_of u))) (run u f)
  unfolding update_stock_price add_stocks_to_exchange set_gives_dividends set_bankruptcy lock
  run-Ended (price_update id price quantity) f free =
      rw free (returns (price_found-Ended id price quantity (f.all_stocks id) _ refl))
  run-Ended (exchange_update id count) f free =
      rw free (returns (add_found-Ended id count (f.all_stocks id) _ refl))
  run-Ended (dividend_update id gives) f free =
      rw free (returns (change_found-Ended id _ (f.all_stocks id) _ refl))
  run-Ended (bankruptcy_update id gone) f free =
      rw free (returns (change_found-Ended id _ (f.all_stocks id) _ refl))

  abbrev pub Outcome : Option (Stock s.floats.Float) → Bool × Floor s → Type 0
  Outcome found (ok, f) =
      (found ≡ none → (ok ≡ false) × IsStuck f) × (found ≢ none → f.locked ≡ false)

  Ended-Outcome :
      (found : Option (Stock s.floats.Float)) (r : Bool × Floor s) → Ended found r → Outcome found r
  Ended-Outcome none (ok, f) (failed, held) =
      ((λ e. (failed, locked-IsStuck f held)), (λ ne. absurd (ne refl)))
  Ended-Outcome (some stock) (ok, f) free = ((λ e. cc), (λ ne. free))

  -- With the lock free, a call of UpdateStockPrice, AddStocksToExchange, SetGivesDividends or
  -- SetBankruptcy returns. If the stock is known, the lock is free again. If it is not, the call
  -- gives an error and keeps the lock on all stocks, and from then on no call of these four, of
  -- UpdateStockVolume, GetStockCopy, SetPreviousDayClose or SetDayHighAndLow returns.
  pub run-Outcome :
      (u : Update) (f : Floor s)
      → f.locked ≡ false
      → Returns (Outcome (f.all_stocks (stock_of u))) (run u f)
  run-Outcome u f free =
      weaken-Returns (Ended-Outcome (f.all_stocks (stock_of u))) (run-Ended u f free)

  -- Whatever saves and commits fail, the end and the start of a day return without an error if the
  -- stocks can be loaded again afterwards.
  pub closing_hides_errors :
      (ids : List ℕ) (f : Floor s)
      → f.locked ≡ false
      → ((w : s.World) → s.stock_rows w ≢ none)
      → Returns (λ (ok, f'). ok ≡ true) (set_previous_day_close s ids f)
        × Returns (λ (ok, f'). ok ≡ true) (set_day_high_and_low s ids f)
  unfolding set_previous_day_close set_day_high_and_low lock load_stocks
  closing_hides_errors ids f free loads = rw free (reload _ (loads _) refl, reload _ (loads _) refl)
