-- ===== src/Tests/Books.antt =====
-- The order book at concrete inputs.
use mathlib.Core.List.{Mem, not-mem-nil}
use dalal_street_server.Base.{◌≡◌, refl, true, false, some, subst, [], ◌∷◌, Returns, ◌≤◌}
use dalal_street_server.Heap.{less, swim}
use dalal_street_server.Heap.Cells.{load, exch}
use dalal_street_server.Order.{is_market, is_stop_loss, limit}
use dalal_street_server.Order.Comparator.{comparator}
use dalal_street_server.Pqueue.Defs.{new, push, factors, waiting}
use dalal_street_server.Depth.{empty}
use dalal_street_server.Book.State.{ask, bid, push_queue, push_stop}
use dalal_street_server.Book.Valid.{IsValidBook}
use dalal_street_server.Book.Match.{get_top_matching, is_order_matching}
use dalal_street_server.Book.TopMatch.{TopMatch, get_top_matching-TopMatch}
use dalal_street_server.Book.StopLosses.{StopLossesMoved, trigger_stop_losses-StopLossesMoved}
use dalal_street_server.Book.Trade.{trigger_stop_losses, trade_price}
use dalal_street_server.Book.Price.{trade_bounds}
use dalal_street_server.Book.Process.{add_to_depth, process}
use dalal_street_server.Book.Processed.{Processed, process-Processed}
use dalal_street_server.Book.Session.{new_book, load_old, submit}
use dalal_street_server.Book.Reach.{
  Reaches, loads, here, next, submit-IsValidBook, Reaches-IsValidBook,
}
use dalal_street_server.Tests.Sample.{
  shop, shop-IsFill, table, order, fresh, loaded1, loaded2, loaded,
}

loaded1_lem : load_old bid 1 fresh ≡ some loaded1
unfolding load_old is_stop_loss push_queue push new_book new swim add_to_depth
loaded1_lem = refl

loaded2_lem : load_old bid 2 loaded1 ≡ some loaded2
unfolding load_old is_stop_loss push_queue push new_book new swim add_to_depth less load factors
    comparator is_market exch
loaded2_lem = refl

loaded_lem : load_old bid 3 loaded2 ≡ some loaded
unfolding load_old is_stop_loss push_queue push_stop push new_book new swim add_to_depth less load
    factors comparator is_market exch
loaded_lem = refl

-- Bids 1 and 2 wait, and bid 3 waits for its trigger.
loaded_waiting : (waiting (loaded.queue bid) ≡ 1 ∷ 2 ∷ []) × (waiting (loaded.stops bid) ≡ 3 ∷ [])
unfolding load_old is_stop_loss push_queue push_stop push new_book new swim add_to_depth less load
    factors comparator is_market exch
loaded_waiting = (refl, refl)

pub empty_stops :
    (waiting (fresh.stops bid) ≡ [])
    × (waiting (loaded1.stops bid) ≡ [])
    × (waiting (loaded2.stops bid) ≡ [])
    × (waiting (loaded.stops ask) ≡ [])
unfolding load_old is_stop_loss push_queue push_stop push new_book new swim add_to_depth less load
    factors comparator is_market exch
empty_stops = (refl, refl, refl, refl)

loaded-Reaches : Reaches shop shop-IsFill fresh loaded
loaded-Reaches =
    next
      (next (next here (loads bid 1 (λ m. not-mem-nil (subst (Mem 1) empty_stops.0 m)) loaded1_lem))
        (loads bid 2 (λ m. not-mem-nil (subst (Mem 2) empty_stops.1 m)) loaded2_lem))
      (loads bid 3 (λ m. not-mem-nil (subst (Mem 3) empty_stops.2 m)) loaded_lem)

pub loaded-IsValidBook : IsValidBook loaded
loaded-IsValidBook = Reaches-IsValidBook shop shop-IsFill table empty 100 loaded loaded-Reaches

Reaches-IsValidBook_example : IsValidBook loaded
Reaches-IsValidBook_example =
    Reaches-IsValidBook shop shop-IsFill table empty 100 loaded loaded-Reaches

ask_active : is_stop_loss (loaded.orders ask 1).order_type ≡ false
unfolding load_old is_stop_loss push_queue push_stop push new_book new swim add_to_depth less load
    factors comparator is_market exch
ask_active = refl

process-Processed_example :
    Returns (Processed shop shop-IsFill ask 1 loaded []) (process shop ask 1 loaded)
process-Processed_example =
    process-Processed shop shop-IsFill ask 1 loaded loaded-IsValidBook ask_active

submit-IsValidBook_example : Returns IsValidBook (submit shop ask 1 loaded)
submit-IsValidBook_example =
    submit-IsValidBook shop shop-IsFill ask 1 loaded loaded-IsValidBook
      (λ m. not-mem-nil (subst (Mem 1) empty_stops.3 m))

get_top_matching-TopMatch_example : Returns (TopMatch ask 1 loaded) (get_top_matching ask 1 loaded)
get_top_matching-TopMatch_example = get_top_matching-TopMatch ask 1 loaded loaded-IsValidBook

trigger_stop_losses-StopLossesMoved_example :
    Returns (StopLossesMoved 120 loaded) (trigger_stop_losses shop 120 loaded)
trigger_stop_losses-StopLossesMoved_example =
    trigger_stop_losses-StopLossesMoved shop 120 loaded loaded-IsValidBook

trade_bounds_example : trade_price 100 (order 1 limit 90 5) (order 2 limit 110 5) ≤ 110
unfolding is_market is_order_matching
trade_bounds_example =
    (trade_bounds 100 (order 1 limit 90 5) (order 2 limit 110 5) limits_match).1 refl
  where
    limits_match : is_order_matching (order 1 limit 90 5) (order 2 limit 110 5) ≡ true
    limits_match = refl
