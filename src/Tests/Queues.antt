-- ===== src/Tests/Queues.antt =====
-- The priority queue at concrete inputs.
use dalal_street_server.Base.{
  ℕ, ◌≡◌, refl, ◌<◌, some, subst, [], ◌∷◌, arith, Returns, value-Returns,
}
use dalal_street_server.Order.Comparator.{comparator, max_pq}
use dalal_street_server.Order.{is_market}
use dalal_street_server.Heap.Order.{IsOrder}
use dalal_street_server.Heap.{less, swim}
use dalal_street_server.Heap.Cells.{load, exch}
use dalal_street_server.Pqueue.Defs.{Pqueue, new, push, pop, after, factors, waiting, head}
use dalal_street_server.Pqueue.Valid.{IsValid, new-IsValid, after-IsOrder}
use dalal_street_server.Pqueue.Push.{Pushed, push-Pushed}
use dalal_street_server.Pqueue.Pop.{Popped, pop-Returns}
use dalal_street_server.Book.State.{bid}
use dalal_street_server.Tests.Sample.{table, or_else}

abbrev empty_queue : Pqueue
empty_queue = new max_pq

abbrev one_bid : Pqueue
one_bid = or_else empty_queue (push (table bid) empty_queue 1)

abbrev two_bids : Pqueue
two_bids = or_else empty_queue (push (table bid) one_bid 2)

one_bid_pushed : push (table bid) empty_queue 1 ≡ some one_bid
unfolding push new swim
one_bid_pushed = refl

two_bids_pushed : push (table bid) one_bid 2 ≡ some two_bids
unfolding push new swim less load factors comparator is_market exch
two_bids_pushed = refl

-- The bid of the higher price is at the head.
two_bids-head : (head two_bids ≡ some (some 2)) × (waiting two_bids ≡ 1 ∷ 2 ∷ [])
unfolding head push new swim less load factors comparator is_market exch
two_bids-head = (refl, refl)

empty_queue-IsValid : IsValid (table bid) empty_queue
empty_queue-IsValid = new-IsValid (table bid) max_pq

one_bid-IsValid : IsValid (table bid) one_bid
one_bid-IsValid =
    (value-Returns (
      subst (Returns (Pushed (table bid) empty_queue 1)) one_bid_pushed
        (push-Pushed (table bid) empty_queue 1 empty_queue-IsValid))).valid

two_bids-IsValid : IsValid (table bid) two_bids
two_bids-IsValid =
    (value-Returns (
      subst (Returns (Pushed (table bid) one_bid 2)) two_bids_pushed
        (push-Pushed (table bid) one_bid 2 one_bid-IsValid))).valid

two_bids_count : 0 < two_bids.elems_count
unfolding head push new swim less load factors comparator is_market exch
two_bids_count = omega arith

push-Pushed_example : Returns (Pushed (table bid) one_bid 2) (push (table bid) one_bid 2)
push-Pushed_example = push-Pushed (table bid) one_bid 2 one_bid-IsValid

pop-Returns_example :
    Returns
      (λ (r, q). (id : ℕ) × (r ≡ some id) × Popped (table bid) two_bids id q)
      (pop (table bid) two_bids)
pop-Returns_example = pop-Returns (table bid) two_bids two_bids-IsValid two_bids_count

after-IsOrder_example : IsOrder (after (table bid) max_pq)
after-IsOrder_example = after-IsOrder (table bid) max_pq
