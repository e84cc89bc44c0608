-- ===== src/Book/Trade.antt =====
-- getTradePriceAndQty, makeTrade and triggerStopLosses.
use dalal_street_server.Base.{
  ℕ, zero, suc, ◌+◌, Bool, true, false, not, ◌&&◌, Option, none, some, leb, ltb, if◌then◌else◌,
  ◌>>=◌,
}
use dalal_street_server.Base.Bytes.{bytes_lt}
use dalal_street_server.Base.Word.{neg64}
use dalal_street_server.Order.{Order, stop_loss_active, is_market, unfulfilled, is_stop_loss}
use dalal_street_server.Pqueue.Defs.{head}
use dalal_street_server.Depth.{add_order, add_trade, close_order}
use dalal_street_server.Book.State.{
  Side, ask, bid, is_ask, FillStatus, already_closed, undone, Transaction, Filled, Exchange, Book,
  set_order, push_queue, pop_stop,
}

-- utils.MinInt64
abbrev min64 : ℕ → ℕ → ℕ
min64 a b = if ltb a b then a else b

-- The price and the quantity of a trade, where `current` is the price of the stock.
unfoldable pub trade_price : ℕ → Order → Order → ℕ
trade_price current ask_order bid_order =
    if is_market ask_order.order_type && is_market bid_order.order_type
    then current
    else if is_market ask_order.order_type
    then bid_order.price
    else if is_market bid_order.order_type
    then ask_order.price
    else if bytes_lt ask_order.created_at bid_order.created_at
    then ask_order.price
    else bid_order.price

unfoldable pub trade_quantity : Order → Order → ℕ
trade_quantity ask_order bid_order = min64 (unfulfilled ask_order) (unfulfilled bid_order)

pub is_undone : FillStatus → Bool
is_undone undone = true
is_undone s = false

pub is_already_closed : FillStatus → Bool
is_already_closed already_closed = true
is_already_closed s = false

-- The test that triggers the top stop-loss order of a side.
unfoldable pub crosses : Side → ℕ → ℕ → Bool
crosses ask price trigger = leb price trigger
crosses bid price trigger = leb trigger price

module _ (x : Exchange) where
  open x use {World, current_price, clock, save, fill}

  -- TriggerStoploss of models/Ask.go and models/Bid.go. A failed save is only logged.
  unfoldable pub trigger_stoploss : Side → ℕ → Book World → Book World
  trigger_stoploss s i b =
      let o = b.orders s i in
      let o' : Order = record o { order_type = stop_loss_active; updated_at = clock b.world } in
      if is_stop_loss o.order_type
      then record (set_order b s i o') { world = (save b.world s o').0 }
      else b

  -- One of the two loops of triggerStopLosses, from the head `top`.
  unfoldable pub trigger_side : ℕ → Side → ℕ → Option ℕ → Book World → Option (Book World)
  trigger_side zero s price top b = none
  trigger_side (suc fuel) s price none b = some b
  trigger_side (suc fuel) s price (some t) b =
      let fire = pop_stop s b >>= λ (r, b1). elim r [
        | none ↦ none
        | some i ↦ do
          let b2 = trigger_stoploss s i b1
          b3 ← push_queue s i b2
          let o = b3.orders s i
          let d = add_order b3.depth true (is_ask s) o.price o.stock_quantity
          h ← head (b3.stops s)
          trigger_side fuel s price h (record b3 { depth = d })
      ] in
      if crosses s price (b.orders s t).price then fire else some b

  unfoldable pub trigger_stop_losses : ℕ → Book World → Option (Book World)
  trigger_stop_losses price b = do
    h ← head (b.stops ask)
    b1 ← trigger_side ((b.stops ask).elems_count + 1) ask price h b
    k ← head (b1.stops bid)
    trigger_side ((b1.stops bid).elems_count + 1) bid price k b1

  -- The depth calls of makeTrade after a trade of `tr`.
  unfoldable pub close_traded : Transaction → Order → Order → Bool → Bool → Book World → Book World
  close_traded tr ask_order bid_order incoming_ask incoming_bid b =
      let q = neg64 tr.stock_quantity in
      let d0 = add_trade b.depth tr.price q tr.created_at in
      let d1 =
        if not incoming_bid
        then close_order d0 (is_market bid_order.order_type) false bid_order.price q
        else d0 in
      let d2 =
        if not incoming_ask
        then close_order d1 (is_market ask_order.order_type) true ask_order.price q
        else d1 in
      record b { depth = d2 }

  -- The depth calls of makeTrade where no trade was made.
  unfoldable pub close_failed : Filled World → Bool → Bool → Book World → Book World
  close_failed r incoming_ask incoming_bid b =
      let bid_order = r.bid_order in
      let ask_order = r.ask_order in
      let d1 =
        if not incoming_bid && not (is_already_closed r.bid_status)
        then close_order b.depth (is_market bid_order.order_type) false bid_order.price
            (unfulfilled bid_order)
        else b.depth in
      let d2 =
        if not incoming_ask && not (is_already_closed r.ask_status)
        then close_order d1 (is_market ask_order.order_type) true ask_order.price
            (unfulfilled ask_order)
        else d1 in
      record b { depth = d2 }

  -- The book after `fillOrderFn`: the orders may have changed.
  abbrev pub filled_book : ℕ → ℕ → Filled World → Book World → Book World
  filled_book a i r b = record (set_order (set_order b ask a r.ask_order) bid i r.bid_order) {
    world = r.world;
  }

  abbrev pub fill_top : ℕ → ℕ → Book World → Filled World
  fill_top a i b =
      let ask_order = b.orders ask a in
      let bid_order = b.orders bid i in
      fill b.world ask_order bid_order
        (trade_price (current_price b.world ask_order.stock_id) ask_order bid_order)
        (trade_quantity ask_order bid_order)

  abbrev pub done_flags : Filled World → Book World → Bool × Bool × Book World
  done_flags r b = (not (is_undone r.ask_status), not (is_undone r.bid_status), b)

  -- makeTrade after `fillOrderFn`, on the transaction that it returned.
  unfoldable pub settle :
      Option Transaction
      → Filled World
      → Bool
      → Bool
      → Book World
      → Option (Bool × Bool × Book World)
  settle (some sale) r incoming_ask incoming_bid b =
      trigger_stop_losses sale.price
        (close_traded sale r.ask_order r.bid_order incoming_ask incoming_bid b)
      >>= λ b'. some (done_flags r b')
  settle none r incoming_ask incoming_bid b =
      some (done_flags r (close_failed r incoming_ask incoming_bid b))

  -- The results are `askDone`, `bidDone` and the book.
  unfoldable pub make_trade : ℕ → ℕ → Bool → Bool → Book World → Option (Bool × Bool × Book World)
  make_trade a i incoming_ask incoming_bid b =
      let r = fill_top a i b in
      settle r.transaction r incoming_ask incoming_bid (filled_book a i r b)
