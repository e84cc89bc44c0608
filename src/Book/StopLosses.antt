-- ===== src/Book/StopLosses.antt =====
-- triggerStopLosses as a whole: both sides.
use mathlib.Core.List.{Mem}
use dalal_street_server.Base.{
  ℕ, ◌+◌, ◌≡◌, sym, subst, ◌++◌, true, false, List, Perm, arith, length, Returns, bind-Returns,
  weaken-Returns,
}
use dalal_street_server.Order.{Order, is_stop_loss, is_market}
use dalal_street_server.Pqueue.Defs.{Pqueue, waiting}
use dalal_street_server.Book.State.{Side, ask, bid, other, Exchange, Book}
use dalal_street_server.Book.Valid.{IsValidBook}
use dalal_street_server.Book.Skip.{head-returns}
use dalal_street_server.Book.StopLoss.{Triggered, trigger_side-Triggered}
use dalal_street_server.Book.Trade.{crosses, trigger_stop_losses}

-- The table, the queue and the stop-loss queue of a side.
pub record SideState : Type 0 where
  pub orders : ℕ → Order
  pub queue : Pqueue
  pub stops : Pqueue

abbrev pub side_of : {World : Type 0} → Side → Book World → SideState
side_of s b = record { orders = b.orders s; queue = b.queue s; stops = b.stops s }

-- The orders `fired` of one side have moved from the stop-loss queue of `a` to the queue of `c` as
-- active orders: the price crosses them, and none that is left.
pub record Moved (s : Side) (price : ℕ) (fired : List ℕ) (a c : SideState) : Type 0 where
  pub left : Perm (fired ++ waiting c.stops) (waiting a.stops)
  pub entered : Perm (waiting c.queue) (fired ++ waiting a.queue)
  pub stops_count : c.stops.elems_count + length fired ≡ a.stops.elems_count
  pub queue_count : c.queue.elems_count ≡ a.queue.elems_count + length fired
  pub crossed : (j : ℕ) → Mem j fired → crosses s price (a.orders j).price ≡ true
  pub activated : (j : ℕ) → Mem j fired → is_market (c.orders j).order_type ≡ true
  pub rest : (j : ℕ) → Mem j (waiting c.stops) → crosses s price (c.orders j).price ≡ false
  pub kept : (j : ℕ) → is_stop_loss (a.orders j).order_type ≡ false → c.orders j ≡ a.orders j
  pub priced : (j : ℕ) → (c.orders j).price ≡ (a.orders j).price

Triggered-Moved :
    {World : Type 0} {s : Side} {price : ℕ} {b b' : Book World} {fired : List ℕ}
    → Triggered s price b fired b'
    → Moved s price fired (side_of s b) (side_of s b')
Triggered-Moved t = record {
  left = t.left;
  entered = t.entered;
  stops_count = t.stops_count;
  queue_count = t.queue_count;
  crossed = t.crossed;
  activated = t.activated;
  rest = t.rest;
  kept = t.kept;
  priced = t.priced;
}

side_of-other :
    {World : Type 0} {s : Side} {price : ℕ} {b b' : Book World} {fired : List ℕ}
    → Triggered s price b fired b'
    → side_of (other s) b' ≡ side_of (other s) b
side_of-other t =
    λ i. record { orders = t.opposite i; queue = t.opposite_queue i; stops = t.opposite_stops i }

-- What triggerStopLosses does to a book.
pub record StopLossesMoved {World : Type 0} (price : ℕ) (b b' : Book World) : Type 0 where
  pub valid : IsValidBook b'
  pub moved : (s : Side) → (fired : List ℕ) × Moved s price fired (side_of s b) (side_of s b')

join-StopLossesMoved :
    {World : Type 0} (price : ℕ) (b c b' : Book World) (f g : List ℕ)
    → Triggered ask price b f c
    → Triggered bid price c g b'
    → StopLossesMoved price b b'
join-StopLossesMoved price b c b' f g t u = record {
  valid = u.valid;
  moved = elim [
    | ask ↦ (
      f,
      subst (λ z. Moved ask price f (side_of ask b) z) (sym (side_of-other u)) (Triggered-Moved t),
    )
    | bid ↦
        (g, subst (λ z. Moved bid price g z (side_of bid b')) (side_of-other t) (Triggered-Moved u))
  ];
}

-- It returns a valid book. On each side exactly the stop-loss orders that the price crosses have
-- left the stop-loss queue, and they wait in the order queue as active orders. No other order has
-- left or entered a queue, no price has changed, and an order that was not a stop-loss order is as
-- it was.
pub trigger_stop_losses-StopLossesMoved :
    (x : Exchange) (price : ℕ) (b : Book x.World)
    → IsValidBook b
    → Returns (StopLossesMoved price b) (trigger_stop_losses x price b)
unfolding trigger_stop_losses
trigger_stop_losses-StopLossesMoved x price b v =
    let (h, he) = head-returns (b.orders ask) (b.stops ask) (v ask).1.valid in
    rw he (
      bind-Returns (trigger_side-Triggered x ask price _ h b v he (omega arith)) λ c (f, t).
        let (k, ke) = head-returns (c.orders bid) (c.stops bid) (t.valid bid).1.valid in
        rw ke (
          weaken-Returns (λ b' (g, u). join-StopLossesMoved price b c b' f g t u)
            (trigger_side-Triggered x bid price _ k c t.valid ke (omega arith))))
