-- ===== src/Depth/Close.antt =====
-- AddOrder and CloseOrder: the quantity at every price after them.
use dalal_street_server.Base.{
  ℕ, ◌+◌, ◌-◌, ◌<◌, ◌≡◌, ◌==◌, refl, Bool, true, false, not, arith, if◌then◌else◌, ltb, ◌∙◌,
}
use dalal_street_server.Base.Word.{word_mod, add64, sub64}
use dalal_street_server.Depth.Table.{DepthTable, get, get-put, get-delete}
use dalal_street_server.Depth.{
  Depth, SideDepth, price_key, add_at, add_order, drop_zero, close_at, close_order,
}

abbrev pub side : Bool → Depth → SideDepth
side is_ask d = if is_ask then d.asks else d.bids

pub get-drop_zero : (t : DepthTable) (k j : ℕ) → get (drop_zero t k) j ≡ get t j
unfolding drop_zero
get-drop_zero t k j = ground (arith, get-delete t k j)

pub get-add_at :
    (s : SideDepth) (price quantity j : ℕ)
    → (get (add_at s price quantity).depth j
        ≡ (if price == j then add64 (get s.depth price) quantity else get s.depth j))
      × (get (add_at s price quantity).diff j
          ≡ (if price == j then add64 (get s.diff price) quantity else get s.diff j))
unfolding add_at
get-add_at s price quantity j = (get-put _ _ _ j, get-put _ _ _ j)

-- The quantity that CloseOrder takes away: no more than there is.
abbrev pub closable : SideDepth → ℕ → ℕ → ℕ
closable s price quantity = if ltb (get s.depth price) quantity then get s.depth price else quantity

pub get-close_at :
    (s : SideDepth) (price quantity j : ℕ)
    → (get (close_at s price quantity).depth j ≡ (
        if price == j
        then sub64 (get s.depth price) (closable s price quantity)
        else get s.depth j))
      × (get (close_at s price quantity).diff j ≡ (
          if price == j
          then sub64 (get s.diff price) (closable s price quantity)
          else get s.diff j))
unfolding close_at
get-close_at s price quantity j =
    (get-drop_zero _ price j ∙ get-put _ _ _ j, get-drop_zero _ price j ∙ get-put _ _ _ j)

close_at-get :
    (s : SideDepth) (price quantity j : ℕ)
    → get s.depth price < word_mod
    → get (close_at s price quantity).depth j
      ≡ (if price == j then get s.depth price - quantity else get s.depth j)
unfolding sub64
close_at-get s price quantity j h = ground (arith, get-close_at s price quantity j)

close_at-add_at :
    (s : SideDepth) (price quantity j : ℕ)
    → get s.depth price + quantity < word_mod
    → get s.diff price < word_mod
    → (get (close_at (add_at s price quantity) price quantity).depth j ≡ get s.depth j)
      × (get (close_at (add_at s price quantity) price quantity).diff j ≡ get s.diff j)
unfolding sub64 add64
close_at-add_at s price quantity j h g =
    let t = add_at s price quantity in
    ground (
      arith,
      get-close_at t price quantity j,
      get-add_at s price quantity j,
      get-add_at s price quantity price,
    )

-- CloseOrder takes the quantity away at its price, stopping at 0, and never wraps round; the other
-- prices, the other side and the trades stay as they are.
pub close_order-get :
    (d : Depth) (is_market is_ask : Bool) (price quantity j : ℕ)
    → get (side is_ask d).depth (price_key is_market price) < word_mod
    → let k = price_key is_market price in
      let d' = close_order d is_market is_ask price quantity in
      (get (side is_ask d').depth j
        ≡ (if k == j then get (side is_ask d).depth k - quantity else get (side is_ask d).depth j))
      × (side (not is_ask) d' ≡ side (not is_ask) d)
      × (d'.latest_trades ≡ d.latest_trades)
unfolding close_order
close_order-get d m true price quantity j h =
    (close_at-get d.asks (price_key m price) quantity j h, refl, refl)
close_order-get d m false price quantity j h =
    (close_at-get d.bids (price_key m price) quantity j h, refl, refl)

-- CloseOrder undoes AddOrder at every price, in the depth and in the pending changes, where the
-- sum does not overflow.
pub close_order-add_order :
    (d : Depth) (is_market is_ask : Bool) (price quantity j : ℕ)
    → get (side is_ask d).depth (price_key is_market price) + quantity < word_mod
    → get (side is_ask d).diff (price_key is_market price) < word_mod
    → let added = add_order d is_market is_ask price quantity in
      let s = side is_ask (close_order added is_market is_ask price quantity) in
      (get s.depth j ≡ get (side is_ask d).depth j) × (get s.diff j ≡ get (side is_ask d).diff j)
unfolding close_order add_order
close_order-add_order d m true price quantity j h g =
    close_at-add_at d.asks (price_key m price) quantity j h g
close_order-add_order d m false price quantity j h g =
    close_at-add_at d.bids (price_key m price) quantity j h g
