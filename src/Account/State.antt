-- ===== src/Account/State.antt =====
-- models.User, models.Transaction and models.TransactionSummary, the rows that are saved, and what
-- the account code uses of the database, the clock, floating point and the stocks.
use dalal_street_server.Base.{ℕ, Bool, Option, List}
use dalal_street_server.Order.{Order}
use dalal_street_server.Stock.{Stock}

-- The fields of a user that trading and blocking read or write. `total` and `block_count` are int64
-- patterns.
pub record User : Type 0 where
  pub id : ℕ
  pub cash : ℕ
  pub reserved_cash : ℕ
  pub total : ℕ
  pub is_blocked : Bool
  pub block_count : ℕ

pub data TransactionType : Type 0 where
  from_exchange order_fill mortgage dividend order_fee tax place_order : TransactionType
  cancel_order reserve_update short_sell ipo_allotment : TransactionType

-- The id is given when the row is saved. Quantities and totals are int64 patterns.
pub record Transaction : Type 0 where
  pub user_id : ℕ
  pub stock_id : ℕ
  pub kind : TransactionType
  pub reserved_stock_quantity : ℕ
  pub stock_quantity : ℕ
  pub price : ℕ
  pub reserved_cash_total : ℕ
  pub total : ℕ
  pub created_at : List ℕ

-- Go's float64, which the sources only use: conversions from uint64 and from int64 patterns, to
-- uint64 and to int64 patterns, arithmetic, the comparisons, and the constants that are written as a
-- quotient or a decimal.
pub record Floats : Type 1 where
  pub Float : Type 0
  pub of_uint : ℕ → Float
  pub of_int : ℕ → Float
  pub to_uint : Float → ℕ
  pub to_int : Float → ℕ
  pub plus : Float → Float → Float
  pub minus : Float → Float → Float
  pub times : Float → Float → Float
  pub over : Float → Float → Float
  pub min : Float → Float → Float
  pub max : Float → Float → Float
  pub equal : Float → Float → Bool
  pub positive : Float → Bool
  pub less : Float → Float → Bool
  pub at_most : Float → Float → Bool
  pub negate : Float → Float
  pub ratio : ℕ → ℕ → Float

pub record TransactionSummary (Float : Type 0) : Type 0 where
  pub id : ℕ
  pub user_id : ℕ
  pub stock_id : ℕ
  pub stock_quantity : ℕ
  pub price : Float

pub record OrderFill : Type 0 where
  pub ask_id : ℕ
  pub bid_id : ℕ
  pub transaction_id : ℕ

-- models.OrderDepositTransaction.
pub record OrderDepositTransaction : Type 0 where
  pub transaction_id : ℕ
  pub order_id : ℕ
  pub is_ask : Bool
  pub created_at : List ℕ

-- models.ShortSellBank and models.ShortSellLends; quantities are uint32. The id of a lend is given
-- when it is created.
pub record ShortSellBank : Type 0 where
  pub stock_id : ℕ
  pub available_stocks : ℕ

pub record ShortSellLends : Type 0 where
  pub id : ℕ
  pub stock_id : ℕ
  pub user_id : ℕ
  pub stock_quantity : ℕ
  pub is_squared_off : Bool

pub data Row (Float : Type 0) : Type 0 where
  user_row : User → Row Float
  ask_row bid_row : Order → Row Float
  transaction_row : Transaction → Row Float
  summary_row : TransactionSummary Float → Row Float
  order_fill_row : OrderFill → Row Float
  deposit_row : OrderDepositTransaction → Row Float
  bank_row : ShortSellBank → Row Float
  lend_row : ShortSellLends → Row Float
  stock_row : Stock Float → Row Float

-- The database within a transaction and the rest of the server's memory. `save` gives the id of the
-- saved row, `find_summary` the first summary of a user and a stock, if any, `reserved` the cash
-- reserved for a bid as getPlaceOrderTransactionDetails reads it; `lock` says whether
-- getUserExclusively gives a user, and `find_user` is the query in it;
-- `remember_ask`, `remember_bid`, `forget_ask` and `forget_bid` change the maps of open orders;
-- `trade_stock` is UpdateStockVolume with UpdateStockPrice. `stock` is a stock in memory,
-- `stock_count` what getSingleStockCount sums for a user and a stock, `lendable` the stocks that
-- getAvailableLendStocks finds, `lent` what getUserShortSellStocks sums, `stock_rows` all stocks
-- that LoadStocks reads; a query that fails gives none.
pub record Server : Type 1 where
  pub floats : Floats
  pub World : Type 0
  pub clock : World → List ℕ
  pub begin : World → World
  pub save : World → Row floats.Float → World × Option ℕ
  pub commit : World → World × Bool
  pub rollback : World → World
  pub reserved : World → ℕ → Option ℕ
  pub find_summary : World → ℕ → ℕ → Option (TransactionSummary floats.Float)
  pub lock : World → ℕ → Bool
  pub find_user : World → ℕ → Option User
  pub remember_ask : World → ℕ → World
  pub remember_bid : World → ℕ → World
  pub forget_ask : World → ℕ → World
  pub forget_bid : World → ℕ → World
  pub trade_stock : World → ℕ → ℕ → ℕ → World
  pub stock : World → ℕ → Stock floats.Float
  pub stock_count : World → ℕ → ℕ → Option ℕ
  pub lendable : World → ℕ → Option ℕ
  pub lent : World → ℕ → ℕ → Option ℕ
  pub stock_rows : World → Option (List (Stock floats.Float))

-- GetTransactionRef, at the time `now`.
unfoldable pub get_transaction_ref :
    List ℕ → ℕ → ℕ → TransactionType → ℕ → ℕ → ℕ → ℕ → ℕ → Transaction
get_transaction_ref now user stock kind reserved_stocks stocks price reserved_total total = record {
  user_id = user;
  stock_id = stock;
  kind = kind;
  reserved_stock_quantity = reserved_stocks;
  stock_quantity = stocks;
  price = price;
  reserved_cash_total = reserved_total;
  total = total;
  created_at = now;
}
