-- ===== src/Account/Placing/Rows.antt =====
-- The saves of PlaceAskOrder and PlaceBidOrder, with createAsk and createBid, the functions on a
-- user's cash, savePlaceOrderTransaction, and the short sales of models/ShortSell.go.
use dalal_street_server.Base.{
  ℕ, ◌+◌, ◌-◌, ◌%◌, ◌^◌, Bool, false, Option, none, some, List, if◌then◌else◌,
}
use dalal_street_server.Base.Word.{add64, sub64, neg64}
use dalal_street_server.Order.{Order}
use dalal_street_server.Book.State.{Side, ask, bid, is_ask}
use dalal_street_server.Account.State.{
  User, Transaction, Server, user_row, transaction_row, deposit_row, bank_row, lend_row, order_fee,
  place_order, short_sell, get_transaction_ref, OrderDepositTransaction,
}
use dalal_street_server.Account.Tx.{Tx, ◌>>=◌, pure, get, committed}
use dalal_street_server.Account.Close.{order_row}
use dalal_street_server.Account.Placing.Checks.{is_positive}

-- makeOrderDepositTransactionRef
unfoldable pub make_order_deposit_transaction_ref : List ℕ → ℕ → ℕ → Bool → OrderDepositTransaction
make_order_deposit_transaction_ref now transaction_id order_id is_ask = record {
  transaction_id = transaction_id;
  order_id = order_id;
  is_ask = is_ask;
  created_at = now;
}

module _ (s : Server) where
  abbrev pub remember : Side → s.World → ℕ → s.World
  remember ask w id = s.remember_ask w id
  remember bid w id = s.remember_bid w id

  abbrev pub created_now : s.World → Order → Order
  created_now w o = record o { created_at = s.clock w; updated_at = s.clock w }

  -- After the save of a new order, which has its id then.
  unfoldable pub after_create : Side → Order → s.World × Option ℕ → s.World × Order × Option ℕ
  after_create side o (w, none) = (w, o, none)
  after_create side o (w, some id) = (remember side w id, record o { id = id }, some id)

  unfoldable pub create : Side → Order → s.World → s.World × Order × Option ℕ
  create side o w =
      after_create side (created_now w o) (s.save w (order_row s side (created_now w o)))

  unfoldable pub subtract_user_cash : User → ℕ → Tx s.World User
  subtract_user_cash user fee = do
    let user' : User = record user { cash = sub64 user.cash fee }
    _ ← (λ w. s.save w (user_row user'))
    pure user'

  unfoldable pub add_user_reserved_cash : User → ℕ → Tx s.World User
  add_user_reserved_cash user cash = do
    let user' : User = record user { reserved_cash = add64 user.reserved_cash cash }
    _ ← (λ w. s.save w (user_row user'))
    pure user'

  unfoldable pub save_place_order_transaction : ℕ → Transaction → Bool → Tx s.World (Unit {0})
  save_place_order_transaction order_id t is_ask = do
    id ← (λ w. s.save w (transaction_row t))
    now ← get s.clock
    _ ← (λ w. s.save w (deposit_row (make_order_deposit_transaction_ref now id order_id is_ask)))
    pure tt

  unfoldable pub read_some : {A : Type 0} → (s.World → Option A) → Tx s.World A
  read_some read w = (w, read w)

  -- The quantity is a uint32; a negated one takes stocks out of the bank.
  unfoldable pub update_short_sell_bank : ℕ → ℕ → Tx s.World (Unit {0})
  update_short_sell_bank stock_id quantity = do
    available ← read_some (λ w. s.lendable w stock_id)
    _ ← (λ w. s.save w (
        bank_row
          (record { stock_id = stock_id; available_stocks = (available + quantity) % 2 ^ 32 })))
    pure tt

  unfoldable pub create_short_sell_lend : ℕ → ℕ → ℕ → Tx s.World (Unit {0})
  create_short_sell_lend stock_id user_id quantity = do
    _ ← (λ w. s.save w (
        lend_row (record {
          id = 0;
          stock_id = stock_id;
          user_id = user_id;
          stock_quantity = quantity;
          is_squared_off = false;
        })))
    pure tt

  unfoldable pub save_short_sell_lend_transaction : Transaction → Tx s.World (Unit {0})
  save_short_sell_lend_transaction t = do
    _ ← update_short_sell_bank t.stock_id ((2 ^ 32 - t.stock_quantity % 2 ^ 32) % 2 ^ 32)
    _ ← (λ w. s.save w (transaction_row t))
    create_short_sell_lend t.stock_id t.user_id (t.stock_quantity % 2 ^ 32)

  abbrev pub fee_transaction : s.World → ℕ → Order → ℕ → Transaction
  fee_transaction w user_id o fee =
      get_transaction_ref (s.clock w) user_id o.stock_id order_fee 0 0 0 0 (neg64 fee)

  unfoldable pub lend_if : ℕ → ℕ → Order → Tx s.World (Unit {0})
  lend_if short user_id o w =
      let t =
        get_transaction_ref (s.clock w) user_id o.stock_id short_sell 0 short
          (s.stock w o.stock_id).current_price 0 0 in
      if is_positive short then save_short_sell_lend_transaction t w else pure tt w

  -- The saves for a created ask: the user with the fee paid is the result.
  unfoldable pub save_ask_order : ℕ → ℕ → ℕ → Order → User → Tx s.World User
  save_ask_order user_id fee short o user = do
    user' ← subtract_user_cash user fee
    now ← get (λ w. w)
    _ ← (λ w. s.save w (transaction_row (fee_transaction now user_id o fee)))
    _ ← lend_if short user_id o
    placing ← get (λ w. w)
    _ ←
        save_place_order_transaction o.id
          (get_transaction_ref (s.clock placing) user_id o.stock_id place_order o.stock_quantity
            (neg64 o.stock_quantity) 0 0 0)
          (is_ask ask)
    _ ← committed s
    pure user'

  -- The saves for a created bid, with the cash to reserve.
  unfoldable pub save_bid_order : ℕ → ℕ → ℕ → Order → User → Tx s.World User
  save_bid_order user_id fee cash o user = do
    user1 ← subtract_user_cash user fee
    user2 ← add_user_reserved_cash user1 cash
    now ← get (λ w. w)
    _ ← (λ w. s.save w (transaction_row (fee_transaction now user_id o fee)))
    user3 ← subtract_user_cash user2 cash
    placing ← get (λ w. w)
    _ ←
        save_place_order_transaction o.id
          (get_transaction_ref (s.clock placing) user_id o.stock_id place_order 0 0 0 cash
            (neg64 cash))
          (is_ask bid)
    _ ← committed s
    pure user3
