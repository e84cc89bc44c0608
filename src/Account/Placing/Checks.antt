-- ===== src/Account/Placing/Checks.antt =====
-- The checks of PlaceAskOrder and PlaceBidOrder, and the order fee.
use dalal_street_server.Base.{
  ℕ, ◌+◌, ◌-◌, ◌%◌, ◌^◌, Bool, true, false, not, ◌&&◌, ◌||◌, Option, none, some, ltb, leb, ◌==◌,
  if◌then◌else◌,
}
use dalal_street_server.Base.Word.{add64, sub64, mul64, is_negative}
use dalal_street_server.Order.{Order, OrderType, limit, market, stop_loss, stop_loss_active}
use dalal_street_server.Account.State.{User, Server}

-- The limits of models/Constants.go; BID_LIMIT and ASK_LIMIT are the same number.
abbrev pub order_limit : ℕ
order_limit = 50

abbrev pub short_sell_borrow_limit : ℕ
short_sell_borrow_limit = 20

abbrev pub order_price_window : ℕ
order_price_window = 20

abbrev pub minimum_order_price : ℕ
minimum_order_price = 10

abbrev pub order_fee_percent : ℕ
order_fee_percent = 3

pub data PlaceError : Type 0 where
  stock_bankrupt minimum_price_threshold order_price_out_of_window no_user : PlaceError
  order_stock_limit_exceeded query_failed not_enough_stocks not_enough_cash : PlaceError

pub data Checked : Type 0 where
  refuse : PlaceError → Checked
  allow : ℕ → Checked

-- An int64 above 0.
unfoldable pub is_positive : ℕ → Bool
is_positive n = not (is_negative n) && not (n == 0)

unfoldable pub is_limit : OrderType → Bool
is_limit limit = true
is_limit market = false
is_limit stop_loss = false
is_limit stop_loss_active = false

-- The stocks that an ask of `quantity` sells beyond the `owned` ones, both int64 patterns.
unfoldable pub short_sell_quantity : ℕ → ℕ → ℕ
short_sell_quantity owned quantity = if is_negative owned then quantity else sub64 quantity owned

-- The quantity check of both functions.
unfoldable pub is_quantity_refused : Order → Bool
is_quantity_refused o = ltb order_limit o.stock_quantity || ltb o.stock_quantity 1

-- The limit of a user per day, on what the user has borrowed; uint32 addition.
unfoldable pub check_lent : Option ℕ → ℕ → Checked
check_lent none short = refuse query_failed
check_lent (some lent) short =
    if ltb short_sell_borrow_limit ((lent + short) % 2 ^ 32)
    then refuse not_enough_stocks
    else allow short

-- The stocks that can be borrowed.
unfoldable pub check_lendable : Option ℕ → Option ℕ → ℕ → Checked
check_lendable none lent short = refuse query_failed
check_lendable (some available) lent short =
    if ltb available short then refuse not_enough_stocks else check_lent lent short

module _ (s : Server) where
  unfoldable pub upper_limit : ℕ → ℕ
  upper_limit current =
      s.floats.to_uint
        (s.floats.times (s.floats.ratio (100 + order_price_window) 100) (s.floats.of_uint current))

  unfoldable pub lower_limit : ℕ → ℕ
  lower_limit current =
      s.floats.to_uint
        (s.floats.times (s.floats.ratio (100 - order_price_window) 100) (s.floats.of_uint current))

  -- The checks before the lock on the user.
  unfoldable pub check_price : s.World → Order → Option PlaceError
  check_price w o =
      let current = (s.stock w o.stock_id).current_price in
      if (s.stock w o.stock_id).is_bankrupt
      then some stock_bankrupt
      else if not (is_limit o.order_type)
      then none
      else if leb o.price minimum_order_price
      then some minimum_price_threshold
      else if ltb (upper_limit current) o.price || ltb o.price (lower_limit current)
      then some order_price_out_of_window
      else none

  unfoldable pub get_order_fee_price : s.World → ℕ → ℕ → OrderType → ℕ
  get_order_fee_price w price stock_id limit = price
  get_order_fee_price w price stock_id market = (s.stock w stock_id).current_price
  get_order_fee_price w price stock_id stop_loss = price
  get_order_fee_price w price stock_id stop_loss_active = 0

  unfoldable pub get_order_fee : ℕ → ℕ → ℕ
  get_order_fee quantity price = s.floats.to_uint (
      s.floats.times (s.floats.ratio order_fee_percent 100)
        (s.floats.of_uint (mul64 quantity price)))

  abbrev pub price_of_order : s.World → Order → ℕ
  price_of_order w o = get_order_fee_price w o.price o.stock_id o.order_type

  abbrev pub fee_of_order : s.World → Order → ℕ
  fee_of_order w o = get_order_fee o.stock_quantity (price_of_order w o)

  unfoldable pub check_owned : s.World → Order → Option ℕ → Checked
  check_owned w o none = refuse query_failed
  check_owned w o (some owned) =
      let short = short_sell_quantity owned o.stock_quantity in
      if is_positive short
      then check_lendable (s.lendable w o.stock_id) (s.lent w o.stock_id o.user_id) short
      else allow short

  unfoldable pub check_fee : s.World → User → Order → Checked → Checked
  check_fee w user o (refuse e) = refuse e
  check_fee w user o (allow short) =
      if is_negative (sub64 user.cash (fee_of_order w o))
      then refuse not_enough_cash
      else allow short

  -- The checks of an ask under the lock; it is allowed with the quantity to sell short.
  unfoldable pub check_ask : s.World → User → Order → Checked
  check_ask w user o =
      if is_quantity_refused o
      then refuse order_stock_limit_exceeded
      else check_fee w user o (check_owned w o (s.stock_count w user.id o.stock_id))

  -- The cash that a bid reserves.
  unfoldable pub cash_to_reserve : s.World → Order → ℕ
  cash_to_reserve w o = mul64 o.stock_quantity (price_of_order w o)

  -- The checks of a bid under the lock; it is allowed with the cash to reserve.
  unfoldable pub check_bid : s.World → User → Order → Checked
  check_bid w user o =
      if is_quantity_refused o
      then refuse order_stock_limit_exceeded
      else if is_negative (sub64 user.cash (add64 (cash_to_reserve w o) (fee_of_order w o)))
      then refuse not_enough_cash
      else allow (cash_to_reserve w o)
