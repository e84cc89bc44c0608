-- ===== src/Book/Valid.antt =====
-- The invariant of an order book.
use mathlib.Core.List.{Mem, Nodup}
use dalal_street_server.Base.{ℕ, ◌≡◌, true, false}
use dalal_street_server.Order.{Order, is_stop_loss}
use dalal_street_server.Order.Comparator.{PqType}
use dalal_street_server.Pqueue.Defs.{Pqueue, waiting}
use dalal_street_server.Pqueue.Valid.{IsValid}
use dalal_street_server.Book.State.{Side, ask, bid, Book}

abbrev pub queue_kind : Side → PqType
queue_kind ask = PqType.min_pq
queue_kind bid = PqType.max_pq

abbrev pub stop_kind : Side → PqType
stop_kind ask = PqType.max_pq
stop_kind bid = PqType.min_pq

-- The queue of a side is valid and of its kind, and holds no stop-loss orders.
pub record IsQueue (s : Side) (orders : ℕ → Order) (q : Pqueue) : Type 0 where
  pub valid : IsValid orders q
  pub sort : q.kind ≡ queue_kind s
  pub active : (i : ℕ) → Mem i (waiting q) → is_stop_loss (orders i).order_type ≡ false

-- The stop-loss queue of a side is valid and of its kind, and holds stop-loss orders, each once.
pub record IsStops (s : Side) (orders : ℕ → Order) (q : Pqueue) : Type 0 where
  pub valid : IsValid orders q
  pub sort : q.kind ≡ stop_kind s
  pub inactive : (i : ℕ) → Mem i (waiting q) → is_stop_loss (orders i).order_type ≡ true
  pub once : Nodup (waiting q)

abbrev pub IsValidBook : {World : Type 0} → Book World → Type 0
IsValidBook b = (s : Side) → IsQueue s (b.orders s) (b.queue s) × IsStops s (b.orders s) (b.stops s)
