-- ===== src/Book/Session.antt =====
-- The methods of the order book that the matching engine calls. AddAskOrder and AddBidOrder hand an
-- order to the goroutine of the book over a channel: `add_order` gives the message, and `submit`
-- is the call with the round of the goroutine that it wakes.
use dalal_street_server.Base.{ℕ, Option, none, some, List, [], ◌∷◌, if◌then◌else◌, ◌>>=◌}
use dalal_street_server.Base.Word.{neg64}
use dalal_street_server.Order.{Order, is_market, is_stop_loss, unfulfilled}
use dalal_street_server.Order.Comparator.{PqType}
use dalal_street_server.Pqueue.Defs.{new}
use dalal_street_server.Depth.{Depth, add_trade, close_order}
use dalal_street_server.Book.State.{
  Side, ask, bid, is_ask, Transaction, Exchange, Book, push_queue, push_stop,
}
use dalal_street_server.Book.Trade.{crosses, trigger_stoploss}
use dalal_street_server.Book.Process.{add_to_depth, process, clear_existing_orders}

module _ {World : Type 0} where
  -- NewOrderBook: asks are a MINPQ and bids a MAXPQ, and the stop-loss queues the opposite.
  unfoldable pub new_book : (Side → ℕ → Order) → Depth → World → Book World
  new_book orders depth world = record {
    orders = orders;
    queue = elim [ ask ↦ new PqType.min_pq | bid ↦ new PqType.max_pq ];
    stops = elim [ ask ↦ new PqType.max_pq | bid ↦ new PqType.min_pq ];
    depth = depth;
    world = world;
  }

  -- LoadOldAsk and LoadOldBid
  unfoldable pub load_old : Side → ℕ → Book World → Option (Book World)
  load_old s i b =
      if is_stop_loss (b.orders s i).order_type
      then push_stop s i b
      else push_queue s i b >>= λ b'. some (add_to_depth s i b')

  unfoldable pub load_old_transactions : List Transaction → Book World → Book World
  load_old_transactions [] b = b
  load_old_transactions (t ∷ ts) b =
      load_old_transactions ts
        (record b { depth = add_trade b.depth t.price (neg64 t.stock_quantity) t.created_at })

  -- CancelAskOrder and CancelBidOrder: the order stays in its queue.
  unfoldable pub cancel_order : Side → ℕ → Book World → Book World
  cancel_order s i b =
      let o = b.orders s i in
      let d = close_order b.depth (is_market o.order_type) (is_ask s) o.price (unfulfilled o) in
      if is_stop_loss o.order_type then b else record b { depth = d }

module _ (x : Exchange) where
  open x use {World, current_price}

  -- AddAskOrder and AddBidOrder, with the message that they send, if any.
  unfoldable pub add_order : Side → ℕ → Book World → Option (Option ℕ × Book World)
  add_order s i b =
      let o = b.orders s i in
      let waits = push_stop s i b >>= λ b'. some (none, b') in
      if is_stop_loss o.order_type
      then if crosses s (current_price b.world o.stock_id) o.price
        then some (some i, trigger_stoploss x s i b)
        else waits
      else some (some i, b)

  -- The call and waitForOrder.
  unfoldable pub submit : Side → ℕ → Book World → Option (Book World)
  submit s i b = add_order s i b >>= λ (message, b'). elim message [
    | none ↦ some b'
    | some j ↦ process x s j b'
  ]

  -- StartStockMatching, up to the start of the goroutine.
  abbrev pub start_stock_matching : Book World → Option (Book World)
  start_stock_matching = clear_existing_orders x
