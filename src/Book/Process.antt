-- ===== src/Book/Process.antt =====
-- processAsk with processBid, and clearExistingOrders.
use dalal_street_server.Base.{
  ℕ, zero, suc, ◌+◌, Bool, true, false, not, ◌&&◌, Option, none, some, List, if◌then◌else◌, ◌>>=◌,
}
use dalal_street_server.Order.{is_market, unfulfilled}
use dalal_street_server.Pqueue.Defs.{head}
use dalal_street_server.Depth.{add_order}
use dalal_street_server.Book.State.{
  Side, ask, bid, other, is_ask, Exchange, Book, push_queue, pop_queue,
}
use dalal_street_server.Book.Match.{get_top_matching, add_back}
use dalal_street_server.Book.Trade.{make_trade}

-- addAskToDepth and addBidToDepth
unfoldable pub add_to_depth : {World : Type 0} → Side → ℕ → Book World → Book World
add_to_depth s i b =
    let o = b.orders s i in
    record b {
      depth = add_order b.depth (is_market o.order_type) (is_ask s) o.price (unfulfilled o);
    }

-- `ob.asks.Pop()` under a condition, with its result dropped.
unfoldable pub pop_if : {World : Type 0} → Bool → Side → Book World → Option (Book World)
pop_if true s b = pop_queue s b >>= λ (r, b'). some b'
pop_if false s b = some b

module _ (x : Exchange) where
  open x use {World}

  -- makeTrade for the incoming order `id` of side `s` and its match `t`; the flags are the
  -- incoming order's first.
  abbrev pub trade_with : Side → ℕ → ℕ → Book World → Option (Bool × Bool × Book World)
  trade_with ask id t b = make_trade x id t true false b
  trade_with bid id t b = make_trade x t id false true b >>= λ (a, d, b'). some (d, a, b')

  -- One trade with the match `t`: the match is popped if it is done, then the orders `own` go back.
  unfoldable pub round : Side → ℕ → ℕ → List ℕ → Book World → Option (Bool × Bool × Book World)
  round s id t own b = do
    (mine, theirs, b1) ← trade_with s id t b
    b2 ← pop_if theirs (other s) b1
    b3 ← add_back (other s) own b2
    some (mine, theirs, b3)

  -- The loop, from the match `top` with the orders `own` to add back.
  unfoldable pub process_loop :
      ℕ → Side → ℕ → Option ℕ → List ℕ → Bool → Book World → Option (Book World)
  process_loop zero s id top own id_done b = none
  process_loop (suc fuel) s id none own id_done b =
      if id_done then some b else push_queue s id b >>= λ b'. some (add_to_depth s id b')
  process_loop (suc fuel) s id (some t) own id_done b = round s id t own b >>= λ (mine, theirs, b1).
      let again =
        get_top_matching s id b1 >>= λ (top, own', b2). process_loop fuel s id top own' mine b2 in
      if not mine && not theirs then some b1 else if mine then some b1 else again

  -- Every round but the last takes an order out of the opposite queue, and a stop-loss order that a
  -- trade triggers goes into it.
  abbrev pub process_fuel : Side → Book World → ℕ
  process_fuel s b = (b.queue (other s)).elems_count + (b.stops (other s)).elems_count + 1

  unfoldable pub process : Side → ℕ → Book World → Option (Book World)
  process s id b = do
    (top, own, b1) ← get_top_matching s id b
    process_loop (process_fuel s b) s id top own false b1

  -- The loop of clearExistingOrders, from `bid_top`, `ask_top` and the asks to add back.
  unfoldable pub clear_loop : ℕ → Option ℕ → Option ℕ → List ℕ → Book World → Option (Book World)
  clear_loop zero bid_top ask_top own b = none
  clear_loop (suc fuel) none ask_top own b = some b
  clear_loop (suc fuel) (some i) none own b = push_queue bid i b
  clear_loop (suc fuel) (some i) (some a) own b = do
    (ask_done, bid_done, b1) ← make_trade x a i false false b
    b2 ← add_back ask own b1
    let rest = do
      b3 ← pop_if ask_done ask b2
      (bid_top, b4) ← if bid_done then pop_queue bid b3 else some (some i, b3)
      elim bid_top [
        | none ↦ clear_loop fuel none (some a) own b4
        | some j ↦ get_top_matching bid j b4 >>= λ (ask_top, own', b5).
            clear_loop fuel (some j) ask_top own' b5
      ]
    if not ask_done && not bid_done then some b2 else rest

  abbrev pub clear_fuel : Book World → ℕ
  clear_fuel b =
      (b.queue ask).elems_count
      + (b.stops ask).elems_count
      + ((b.queue bid).elems_count + (b.stops bid).elems_count)
      + 1

  unfoldable pub clear_existing_orders : Book World → Option (Book World)
  clear_existing_orders b = do
    h ← head (b.queue bid)
    elim h [
      | none ↦ some b
      | some t ↦ do
        (bid_top, b1) ← pop_queue bid b
        elim bid_top [
          | none ↦ none
          | some i ↦ get_top_matching bid i b1 >>= λ (ask_top, own, b2).
              clear_loop (clear_fuel b) (some i) ask_top own b2
        ]
    ]
