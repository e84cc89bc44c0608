-- ===== src/Tests/Stocks.antt =====
-- Updates of stocks on a floor with one stock.
use dalal_street_server.Base.{
  assign-cases, ◌≡◌, refl, true, false, none, some, [], ◌∷◌, ◌==◌, if◌then◌else◌, Returns, arith,
}
use dalal_street_server.Stock.Floor.{Floor}
use dalal_street_server.Stock.Update.{update_stock_price}
use dalal_street_server.Stock.Day.{set_previous_day_close, set_day_high_and_low}
use dalal_street_server.Stock.Bounds.{AllPriced, IsPriced, update_stock_price-AllPriced}
use dalal_street_server.Stock.Locks.{
  exchange_update, run, Outcome, run-Outcome, closing_hides_errors,
}
use dalal_street_server.Tests.Servers.{listed, server}

abbrev floor : Floor (server true)
floor = record {
  all_stocks = λ id. if 1 == id then some listed else none;
  average = λ id. 100;
  locked = false;
  world = 0;
}

listed-IsPriced : IsPriced listed
listed-IsPriced = record {
  day = (omega arith, omega arith);
  minute = (omega arith, omega arith);
  ever = (omega arith, omega arith);
}

floor-AllPriced : AllPriced (server true) floor
floor-AllPriced j stock e =
    assign-cases IsPriced (1 == j) listed stock none listed-IsPriced (λ e'. absurd (ground arith)) e

update_stock_price-AllPriced_example :
    Returns
      (λ (ok, f'). AllPriced (server true) f')
      (update_stock_price (server true) 1 130 5 floor)
update_stock_price-AllPriced_example =
    update_stock_price-AllPriced (server true) 1 130 5 floor refl floor-AllPriced

-- Stock 2 is unknown.
run-Outcome_example :
    Returns (Outcome (server true) none) (run (server true) (exchange_update 2 10) floor)
run-Outcome_example = run-Outcome (server true) (exchange_update 2 10) floor refl

closing_hides_errors_example :
    Returns (λ (ok, f'). ok ≡ true) (set_previous_day_close (server true) (1 ∷ 2 ∷ []) floor)
    × Returns (λ (ok, f'). ok ≡ true) (set_day_high_and_low (server true) (1 ∷ 2 ∷ []) floor)
closing_hides_errors_example =
    closing_hides_errors (server true) (1 ∷ 2 ∷ []) floor refl (λ w e. absurd (ground arith))
