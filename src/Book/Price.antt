-- ===== src/Book/Price.antt =====
-- getTradePriceAndQty: the bounds of a trade.
use dalal_street_server.Base.{ℕ, ◌≤◌, ◌≡◌, ◌⊎◌, true, false, arith}
use dalal_street_server.Order.{Order, is_market, unfulfilled}
use dalal_street_server.Book.Match.{is_order_matching}
use dalal_street_server.Book.Trade.{trade_price, trade_quantity}

-- Between two matching orders the trade price is no worse than the limit of either: a limit ask gets
-- at least its price and a limit bid pays at most its price; and the quantity is what is unfulfilled
-- of one of the orders, and no more than what is unfulfilled of the other.
pub trade_bounds :
    (current : ℕ) (ask_order bid_order : Order)
    → is_order_matching ask_order bid_order ≡ true
    → (is_market ask_order.order_type ≡ false
        → ask_order.price ≤ trade_price current ask_order bid_order)
      × (is_market bid_order.order_type ≡ false
          → trade_price current ask_order bid_order ≤ bid_order.price)
      × (trade_quantity ask_order bid_order ≤ unfulfilled ask_order)
      × (trade_quantity ask_order bid_order ≤ unfulfilled bid_order)
      × ((trade_quantity ask_order bid_order ≡ unfulfilled ask_order)
          ⊎ (trade_quantity ask_order bid_order ≡ unfulfilled bid_order))
unfolding is_order_matching trade_price trade_quantity
trade_bounds current a i m =
    (λ e. ground arith, λ e. ground arith, ground arith, ground arith, ground arith)
