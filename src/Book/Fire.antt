-- ===== src/Book/Fire.antt =====
-- TriggerStoploss on an order that has just left a stop-loss queue.
use mathlib.Core.List.{Mem}
use dalal_street_server.Base.{ℕ, ◌≡◌, ◌≢◌, ◌==◌, refl, ap, true, arith, if◌then◌else◌}
use dalal_street_server.Order.{Order, stop_loss_active, is_stop_loss}
use dalal_street_server.Pqueue.Defs.{Pqueue, waiting}
use dalal_street_server.Pqueue.Valid.{rank, IsValid-same}
use dalal_street_server.Book.State.{Side, ask, bid, other, Exchange, Book}
use dalal_street_server.Book.Valid.{IsQueue, IsStops, IsValidBook}
use dalal_street_server.Book.Trade.{trigger_stoploss}

abbrev pub assign : ℕ → Order → (ℕ → Order) → ℕ → Order
assign i o orders j = if i == j then o else orders j

assign-other :
    (i : ℕ) (o : Order) (orders : ℕ → Order) (j : ℕ) → j ≢ i → assign i o orders j ≡ orders j
assign-other i o orders j n = ground arith

-- A change of an order that does not wait in a queue leaves the queue valid.
pub assign-IsQueue :
    (s : Side) (i : ℕ) (o : Order) (orders : ℕ → Order) (q : Pqueue)
    → ((j : ℕ) → Mem j (waiting q) → j ≢ i)
    → IsQueue s orders q
    → IsQueue s (assign i o orders) q
assign-IsQueue s i o orders q away v = record {
  valid =
      IsValid-same orders (assign i o orders) q
        (λ j m. ap rank (assign-other i o orders j (away j m))) v.valid;
  sort = v.sort;
  active = λ j m. rw (assign-other i o orders j (away j m)) (v.active j m);
}

pub assign-IsStops :
    (s : Side) (i : ℕ) (o : Order) (orders : ℕ → Order) (q : Pqueue)
    → ((j : ℕ) → Mem j (waiting q) → j ≢ i)
    → IsStops s orders q
    → IsStops s (assign i o orders) q
assign-IsStops s i o orders q away v = record {
  valid =
      IsValid-same orders (assign i o orders) q
        (λ j m. ap rank (assign-other i o orders j (away j m))) v.valid;
  sort = v.sort;
  inactive = λ j m. rw (assign-other i o orders j (away j m)) (v.inactive j m);
  once = v.once;
}

-- What TriggerStoploss does to a book where `i` waits nowhere.
pub record Fired {World : Type 0} (s : Side) (i : ℕ) (b b' : Book World) : Type 0 where
  pub valid : IsValidBook b'
  pub queue : b'.queue ≡ b.queue
  pub stops : b'.stops ≡ b.stops
  pub depth : b'.depth ≡ b.depth
  pub active : (b'.orders s i).order_type ≡ stop_loss_active
  pub price : (b'.orders s i).price ≡ (b.orders s i).price
  pub quantity : (b'.orders s i).stock_quantity ≡ (b.orders s i).stock_quantity
  pub kept : (j : ℕ) → j ≢ i → b'.orders s j ≡ b.orders s j
  pub opposite : b'.orders (other s) ≡ b.orders (other s)

module _ (x : Exchange) (i : ℕ) (b : Book x.World) (v : IsValidBook b) where
  trigger_stoploss-ask :
      is_stop_loss (b.orders ask i).order_type ≡ true
      → ((j : ℕ) → Mem j (waiting (b.stops ask)) → j ≢ i)
      → Fired ask i b (trigger_stoploss x ask i b)
  unfolding trigger_stoploss
  trigger_stoploss-ask e away = rw e (record {
    valid = elim [
      | ask ↦ (
        assign-IsQueue ask i _ (b.orders ask) (b.queue ask)
            (λ j m same. ground (arith, (v ask).0.active j m, e, same)) (v ask).0,
        assign-IsStops ask i _ (b.orders ask) (b.stops ask) away (v ask).1,
      )
      | bid ↦ v bid
    ];
    queue = refl;
    stops = refl;
    depth = refl;
    active = ground arith;
    price = ground arith;
    quantity = ground arith;
    kept = λ j n. assign-other i _ (b.orders ask) j n;
    opposite = refl;
  })

  trigger_stoploss-bid :
      is_stop_loss (b.orders bid i).order_type ≡ true
      → ((j : ℕ) → Mem j (waiting (b.stops bid)) → j ≢ i)
      → Fired bid i b (trigger_stoploss x bid i b)
  unfolding trigger_stoploss
  trigger_stoploss-bid e away = rw e (record {
    valid = elim [
      | ask ↦ v ask
      | bid ↦ (
        assign-IsQueue bid i _ (b.orders bid) (b.queue bid)
            (λ j m same. ground (arith, (v bid).0.active j m, e, same)) (v bid).0,
        assign-IsStops bid i _ (b.orders bid) (b.stops bid) away (v bid).1,
      )
    ];
    queue = refl;
    stops = refl;
    depth = refl;
    active = ground arith;
    price = ground arith;
    quantity = ground arith;
    kept = λ j n. assign-other i _ (b.orders bid) j n;
    opposite = refl;
  })

  pub trigger_stoploss-Fired :
      (s : Side)
      → is_stop_loss (b.orders s i).order_type ≡ true
      → ((j : ℕ) → Mem j (waiting (b.stops s)) → j ≢ i)
      → Fired s i b (trigger_stoploss x s i b)
  trigger_stoploss-Fired ask = trigger_stoploss-ask
  trigger_stoploss-Fired bid = trigger_stoploss-bid
