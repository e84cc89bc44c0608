-- ===== src/Tests/Payments.antt =====
-- Purchases from the exchange, mortgages and dividends.
use dalal_street_server.Base.{
  Bool, ◌≢◌, ℕ, suc, ◌+◌, ◌-◌, ◌*◌, ◌/◌, ◌≤◌, ◌≡◌, refl, true, false, none, some, [], ◌∷◌, ◌==◌,
  if◌then◌else◌, Returns, arith,
}
use dalal_street_server.Base.Word.{add64, mul64}
use dalal_street_server.Account.State.{User, get_transaction_ref}
use dalal_street_server.Account.Users.{Users, get_user_exclusively, find_user, load_user}
use dalal_street_server.Account.Exchange.Buy.{buy_from_exchange}
use dalal_street_server.Account.Exchange.Outcome.{BuyOutcome, buy_from_exchange-BuyOutcome}
use dalal_street_server.Account.Exchange.Success.{IsBought, buy_from_exchange-IsBought}
use dalal_street_server.Account.Mortgage.Bank.{MortgageDetails, mortgage_total, retrieve_total}
use dalal_street_server.Account.Mortgage.Perform.{perform_mortgage}
use dalal_street_server.Account.Mortgage.Outcome.{MortgageOutcome, perform_mortgage-MortgageOutcome}
use dalal_street_server.Account.Mortgage.Cash.{retrieve-mortgage}
use dalal_street_server.Account.Dividends.Pay.{
  StockRegister, perform_dividends, dividends_for, pay_all, pay_details, pay_found, pay_user,
  failed, end_dividends, revert_and_fail, revert_to_old_state,
}
use dalal_street_server.Account.Holding.{take_user}
use dalal_street_server.Account.Dividends.Revert.{DividendOutcome}
use dalal_street_server.Account.Dividends.Outcome.{perform_dividends-DividendOutcome}
use dalal_street_server.Account.Dividends.Credits.{KeepsUsers, IsPaid}
use dalal_street_server.Account.Dividends.Success.{perform_dividends-PaidAll}
use dalal_street_server.Tests.Servers.{listed, seller, buyer, server, server-IsReliable}

buy_from_exchange-BuyOutcome_example :
    BuyOutcome
      (server false)
      1
      3
      seller
      listed
      1
      (buy_from_exchange (server false) 7 1 3 seller listed 1)
buy_from_exchange-BuyOutcome_example =
    buy_from_exchange-BuyOutcome (server false) 1 3 seller listed (omega arith) (omega arith) 7 1

three_covered : mul64 100 3 ≤ 500
unfolding mul64
three_covered = omega arith

buy_from_exchange-IsBought_example :
    IsBought
      (server true)
      server-IsReliable
      1
      3
      seller
      listed
      1
      3
      (buy_from_exchange (server true) 7 1 3 seller listed 1)
buy_from_exchange-IsBought_example =
    buy_from_exchange-IsBought (server true) server-IsReliable 7 1 3 3 seller listed 1 (omega arith)
      (omega arith) refl (omega arith, omega arith) refl (omega arith) (omega arith, omega arith)
      (λ l. absurd (omega arith)) three_covered

-- Every bank row has 5 stocks.
abbrev bank : MortgageDetails (server true)
bank = record {
  stocks_in_bank = λ w user stock price. some (some 5);
  insert_row = λ w user stock quantity price. (suc w, some tt);
  update_row = λ w user stock quantity price. (suc w, some tt);
  delete_row = λ w user stock price. (suc w, some tt);
}

perform_mortgage-MortgageOutcome_example :
    MortgageOutcome
      (server true)
      bank
      7
      1
      3
      100
      seller
      1
      (perform_mortgage (server true) bank 7 1 3 100 seller 1)
perform_mortgage-MortgageOutcome_example =
    perform_mortgage-MortgageOutcome (server true) bank 7 1 3 100 seller 1

retrieve-mortgage_example :
    add64 (add64 1000 (mortgage_total 100 5)) (retrieve_total 100 5)
    ≡ 1000 + 100 * 5 * 80 / 100 - 100 * 5 * 90 / 100
retrieve-mortgage_example =
    retrieve-mortgage 100 5 1000 (omega arith) (omega arith) (omega arith) (omega arith)
      (omega arith)

-- One user owns 30 stocks.
abbrev register : StockRegister ℕ
register = record {
  max_stock_id = λ w. some 3;
  benefitting_users = λ w stock. record { user_id = 7; stock_quantity = 30 } ∷ [];
  company_found = λ w stock. true;
}

abbrev nobody : Users ℕ
nobody = record { user_locks = λ id. none; world = 0 }

-- A commit that fails after a dividend is paid leaves the call waiting for its own lock.
failed_commit_waits : perform_dividends (server false) register 1 10 nobody ≡ none
unfolding perform_dividends dividends_for pay_all pay_details pay_found pay_user take_user
    end_dividends revert_and_fail revert_to_old_state get_user_exclusively find_user load_user
    get_transaction_ref mul64 add64
failed_commit_waits = refl

seller_found :
    (id : ℕ) (user : User) → (if id == 7 then some seller else none) ≡ some user → user.id ≡ id
seller_found id user e = ground arith

server-KeepsUsers : (commits : Bool) → KeepsUsers (server commits)
server-KeepsUsers commits = record {
  keyed = λ w id user e. seller_found id user e;
  transactions = λ w t id. refl;
  users = λ w user id ne. refl;
}

-- Two users own stocks, of whom one is in memory.
abbrev owners : StockRegister ℕ
owners = record register {
  benefitting_users = λ w stock.
      record { user_id = 5; stock_quantity = 2 } ∷ record { user_id = 7; stock_quantity = 30 } ∷ [];
}

abbrev one_user : Users ℕ
one_user = record { user_locks = λ id. if id == 5 then some buyer else none; world = 0 }

one_user-Keyed : (j : ℕ) (user : User) → one_user.user_locks j ≡ some user → user.id ≡ j
one_user-Keyed j user e = ground arith

perform_dividends-DividendOutcome_example :
    DividendOutcome
      (server true)
      one_user
      (IsPaid (server true) 10 (owners.benefitting_users 0 1) (record one_user { world = 0 }))
      (perform_dividends (server true) owners 1 10 one_user)
perform_dividends-DividendOutcome_example =
    perform_dividends-DividendOutcome (server true) (server-KeepsUsers true) one_user owners 1 10
      one_user-Keyed ((refl, tt), (tt, tt))

perform_dividends-PaidAll_example :
    Returns
      (λ (e, m').
        (e ≢ failed)
        × IsPaid (server true) 10 (owners.benefitting_users 0 1) (record one_user { world = 0 }) m')
      (perform_dividends (server true) owners 1 10 one_user)
perform_dividends-PaidAll_example =
    perform_dividends-PaidAll (server true) server-IsReliable (server-KeepsUsers true) one_user
      owners 1 10 3 refl (omega arith) one_user-Keyed ((refl, tt), (tt, tt))
      ((λ e. cc), ((λ e. cc), tt))
