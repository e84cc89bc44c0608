-- ===== src/Order.antt =====
-- models/Ask.go and models/Bid.go: the order types and the struct of an order. `Ask` and `Bid` have
-- the same fields, so one record stands for both; the side of an order is the table it is kept in.
-- The mutex has no state that a computation reads and is left out. Texts are lists of bytes.
pub mod Comparator
use dalal_street_server.Base.{ℕ, Bool, true, false, List, ◌||◌}
use dalal_street_server.Base.Word.{sub64}

pub data OrderType : Type 0 where
  limit market stop_loss stop_loss_active : OrderType

pub record Order : Type 0 where
  pub id : ℕ
  pub user_id : ℕ
  pub stock_id : ℕ
  pub order_type : OrderType
  pub price : ℕ
  pub stock_quantity : ℕ
  pub stock_quantity_fulfilled : ℕ
  pub is_closed : Bool
  pub created_at : List ℕ
  pub updated_at : List ℕ

-- isMarket of matchingengine/helpers.go.
unfoldable pub is_market : OrderType → Bool
is_market limit = false
is_market market = true
is_market stop_loss = false
is_market stop_loss_active = true

unfoldable pub is_stop_loss : OrderType → Bool
is_stop_loss limit = false
is_stop_loss market = false
is_stop_loss stop_loss = true
is_stop_loss stop_loss_active = false

-- `StockQuantity - StockQuantityFulfilled`, as it is written wherever depth is updated.
unfoldable pub unfulfilled : Order → ℕ
unfolding sub64
unfulfilled o = sub64 o.stock_quantity o.stock_quantity_fulfilled
