-- ===== src/Tests/Depths.antt =====
-- The market depth at concrete inputs.
use dalal_street_server.Base.{◌-◌, ◌≡◌, refl, true, false, [], ◌∷◌, arith}
use dalal_street_server.Base.Word.{add64, sub64}
use dalal_street_server.Depth.Table.{get, put, delete}
use dalal_street_server.Depth.{Depth, Trade, empty, add_at, add_order, close_at, close_order}
use dalal_street_server.Depth.Close.{close_order-get}
use dalal_street_server.Depth.Follow.{adds, closes, round, events, Follows, events-Follows}

abbrev asked : Depth
asked = add_order empty false true 10 5

-- Closing takes away no more than there is, and removes the entry.
closed :
    (get (close_order asked false true 10 7).asks.depth 10 ≡ 0)
    × ((close_order asked false true 10 7).asks.depth ≡ [])
unfolding get put delete empty add_at add_order close_at close_order add64 sub64
closed = (refl, refl)

asked_depth : get asked.asks.depth 10 ≡ 5
unfolding get put empty add_at add_order add64
asked_depth = refl

close_order-get_example :
    get (close_order asked false true 10 3).asks.depth 10 ≡ get asked.asks.depth 10 - 3
close_order-get_example = (close_order-get asked false true 10 3 10 (omega (arith, asked_depth))).0

abbrev sold : Trade
sold = record { trade_quantity = 2; trade_price = 10; trade_time = [] }

events-Follows_example :
    Follows
      (events (adds false true 10 5 ∷ round 1 ∷ closes false true 10 2 ∷ []) ((λ a p. 0), empty))
unfolding get empty add64
events-Follows_example =
    events-Follows (adds false true 10 5 ∷ round 1 ∷ closes false true 10 2 ∷ [])
      ((λ a p. 0), empty) (elim [ true ↦ λ p. refl | false ↦ λ p. refl ])
