-- ===== src/Tests/Accounts.antt =====
-- Fills, cancellations and taxes on a small server, and the theorems on them.
use mathlib.Core.Option.{map}
use dalal_street_server.Base.{◌+◌, ◌*◌, ◌≤◌, ◌≡◌, refl, true, false, some, arith}
use dalal_street_server.Base.Word.{add64, sub64, mul64, neg64, is_negative, int_rank}
use dalal_street_server.Order.{limit}
use dalal_street_server.Book.State.{ask, bid}
use dalal_street_server.Book.MakeTrade.{IsFill}
use dalal_street_server.Account.Tax.{
  tax_for_asking_user, tax_for_bidding_user, charge, tax_transaction, summary_of,
}
use dalal_street_server.Account.Tx.{◌>>=◌, get, pure, committed, save_some}
use dalal_street_server.Account.Close.{close, after_save, share, save_ask_cancel_order_transaction}
use dalal_street_server.Account.Fill.{
  Parties, Terms, start_fill, settle_fill, end_trade, save_trade, fill_order, cash_left, total_of,
  reserve_left, trade, perform_order_fill_transaction,
}
use dalal_street_server.Account.Success.{IsSold, perform_order_fill_transaction-IsSold}
use dalal_street_server.Account.FillCases.{terms_of, FillOutcome}
use dalal_street_server.Account.Outcome.{perform_order_fill_transaction-FillOutcome}
use dalal_street_server.Account.Cancel.{
  begin_cancel, close_cancel, save_cancel, commit_cancel, cancel_transaction, CancelResult, cancel,
  cancel-CancelResult,
}
use dalal_street_server.Account.Market.{market_exchange, market_exchange-IsFill}
use dalal_street_server.Account.Money.{wealth, IsExact, trade-wealth}
use dalal_street_server.Tests.Sample.{order}
use dalal_street_server.Tests.Servers.{server-IsReliable, floats, seller, buyer, server}

floats-IsExact : IsExact floats
floats-IsExact n h = ground arith

abbrev sale : Parties
sale = record {
  asking_user = seller;
  bidding_user = buyer;
  ask_order = order 7 limit 90 10;
  bid_order = order 5 limit 100 10;
}

-- The whole bid is filled: the seller gets 1000, and the buyer's reserve is spent.
sale_paid :
    (perform_order_fill_transaction (server true) sale 100 10 1).parties.asking_user.cash ≡ 1500
unfolding perform_order_fill_transaction start_fill settle_fill end_trade save_trade trade
    fill_order cash_left total_of reserve_left share is_negative add64 sub64 mul64 neg64
    tax_for_asking_user tax_for_bidding_user charge tax_transaction summary_of ◌>>=◌ get pure
    committed save_some
sale_paid = refl

-- A cancellation whose commit fails is rolled back, but the order stays closed in memory.
failed_cancel_closes :
    map (λ o. o.is_closed) (cancel (server false) ask 7 seller (some (order 7 limit 90 10)) 1).order
    ≡ some true
unfolding cancel begin_cancel close_cancel save_cancel commit_cancel cancel_transaction close
    after_save save_ask_cancel_order_transaction ◌>>=◌ get pure committed save_some
failed_cancel_closes = refl

perform_order_fill_transaction-FillOutcome_example :
    FillOutcome
      (server false)
      sale
      100
      10
      (perform_order_fill_transaction (server false) sale 100 10 1)
perform_order_fill_transaction-FillOutcome_example =
    perform_order_fill_transaction-FillOutcome (server false) sale 100 10 1

covered : is_negative (cash_left (terms_of (server true) sale 100 10 1000) buyer) ≡ false
unfolding is_negative cash_left share total_of add64 sub64 mul64
covered = refl

perform_order_fill_transaction-IsSold_example :
    IsSold
      (server true)
      sale
      100
      10
      1000
      (perform_order_fill_transaction (server true) sale 100 10 1)
perform_order_fill_transaction-IsSold_example =
    perform_order_fill_transaction-IsSold (server true) server-IsReliable sale 100 10 1000 1 refl
      refl refl covered

cancel-CancelResult_example :
    CancelResult
      (server true)
      bid
      5
      buyer
      (some (order 5 limit 100 10))
      (cancel (server true) bid 5 buyer (some (order 5 limit 100 10)) 1)
cancel-CancelResult_example =
    cancel-CancelResult (server true) bid 5 buyer (some (order 5 limit 100 10)) 1

market_exchange-IsFill_example : IsFill (market_exchange (server true) (λ w stock. 100))
market_exchange-IsFill_example = market_exchange-IsFill (server true) (λ w stock. 100)

abbrev terms : Terms
terms = record { price = 100; quantity = 10; reserved = 1000 }

trade-wealth_example :
    ((trade (server true) terms sale).asking_user.cash ≡ 500 + 100 * 10)
    × ((trade (server true) terms sale).asking_user.cash
          + wealth (trade (server true) terms sale).bidding_user
        ≡ 500 + wealth buyer)
trade-wealth_example =
    trade-wealth (server true) floats-IsExact terms sale (omega arith) (omega arith) (omega arith)
      (omega arith) (omega arith)

rising : int_rank 200000 ≤ int_rank 3000000
unfolding int_rank add64
rising = omega arith
