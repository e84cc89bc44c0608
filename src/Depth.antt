-- ===== src/Depth.antt =====
-- datastreams/MarketDepth.go: the market depth stream of one stock. Both sides of the book are kept
-- as a table of the quantity at each price, with a second table of what has changed since the last
-- broadcast; price 0 stands for market orders. int64 changes are kept as bit patterns. Each locked
-- region is one step; logging is left out. The broadcast stream is an argument of `flush`, as the
-- number of its listeners, and its result, as the update that is sent.
pub mod Table
pub mod Close
pub mod Trades
pub mod Follow
use dalal_street_server.Base.{
  ℕ, ◌-◌, ◌==◌, Bool, true, false, not, ◌||◌, Option, none, some, List, [], ◌∷◌, ◌++◌, ltb, leb,
  length, if◌then◌else◌,
}
use dalal_street_server.Base.Word.{add64, sub64}
use Table.{DepthTable, get, put, delete, is_empty}

pub record Trade : Type 0 where
  pub trade_quantity : ℕ
  pub trade_price : ℕ
  pub trade_time : List ℕ

pub record SideDepth : Type 0 where
  pub depth : DepthTable
  pub diff : DepthTable

pub record Depth : Type 0 where
  pub asks : SideDepth
  pub bids : SideDepth
  pub latest_trades : List Trade
  pub latest_trades_diff : List Trade

unfoldable pub empty : Depth
empty = record {
  asks = record { depth = []; diff = [] };
  bids = record { depth = []; diff = [] };
  latest_trades = [];
  latest_trades_diff = [];
}

-- Market orders are entered at price 0.
abbrev pub price_key : Bool → ℕ → ℕ
price_key is_market price = if is_market then 0 else price

unfoldable pub add_at : SideDepth → ℕ → ℕ → SideDepth
add_at s price quantity = record {
  depth = put s.depth price (add64 (get s.depth price) quantity);
  diff = put s.diff price (add64 (get s.diff price) quantity);
}

unfoldable pub add_order : Depth → Bool → Bool → ℕ → ℕ → Depth
add_order d is_market is_ask price quantity =
    if is_ask
    then record d { asks = add_at d.asks (price_key is_market price) quantity }
    else record d { bids = add_at d.bids (price_key is_market price) quantity }

-- `delete(m, price)` if the entry has become 0.
unfoldable pub drop_zero : DepthTable → ℕ → DepthTable
drop_zero t price = if get t price == 0 then delete t price else t

unfoldable pub close_at : SideDepth → ℕ → ℕ → SideDepth
unfolding drop_zero
close_at s price quantity =
    let closed = if ltb (get s.depth price) quantity then get s.depth price else quantity in
    record {
      depth = drop_zero (put s.depth price (sub64 (get s.depth price) closed)) price;
      diff = drop_zero (put s.diff price (sub64 (get s.diff price) closed)) price;
    }

unfoldable pub close_order : Depth → Bool → Bool → ℕ → ℕ → Depth
close_order d is_market is_ask price quantity =
    if is_ask
    then record d { asks = close_at d.asks (price_key is_market price) quantity }
    else record d { bids = close_at d.bids (price_key is_market price) quantity }

abbrev pub drop {ℓ} : {A : Type ℓ} → ℕ → List A → List A
drop n [] = []
drop ℕ.zero (x ∷ xs) = x ∷ xs
drop (ℕ.suc n) (x ∷ xs) = drop n xs

unfoldable pub add_trade : Depth → ℕ → ℕ → List ℕ → Depth
add_trade d price quantity created_at =
    let t : Trade = record {
      trade_quantity = quantity;
      trade_price = price;
      trade_time = created_at;
    } in
    let kept =
      if leb 20 (length d.latest_trades)
      then drop (length d.latest_trades - 20) d.latest_trades
      else d.latest_trades in
    record d { latest_trades = kept ++ t ∷ []; latest_trades_diff = d.latest_trades_diff ++ t ∷ [] }

-- What is broadcast, and what a new listener is sent.
pub record DepthUpdate : Type 0 where
  pub ask_depth : DepthTable
  pub bid_depth : DepthTable
  pub trades : List Trade

is_nil : List Trade → Bool
is_nil [] = true
is_nil (t ∷ ts) = false

has_update : Depth → Bool
unfolding is_nil
has_update d =
    not (is_empty d.asks.diff) || not (is_empty d.bids.diff) || not (is_nil d.latest_trades_diff)

-- One round of the loop in `run`: with no listener, or with nothing to send, it only sleeps.
unfoldable pub flush : ℕ → Depth → Option DepthUpdate × Depth
unfolding has_update
flush listeners d =
    if listeners == 0
    then (none, d)
    else if has_update d
    then (
      some (record {
        ask_depth = d.asks.diff;
        bid_depth = d.bids.diff;
        trades = d.latest_trades_diff;
      }),
      record d {
        asks = record { depth = d.asks.depth; diff = [] };
        bids = record { depth = d.bids.depth; diff = [] };
        latest_trades_diff = [];
      },
    )
    else (none, d)
