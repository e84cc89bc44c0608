-- ===== src/Account/Close.antt =====
-- Ask.Close and Bid.Close, and the CancelOrderTransactions of models/User.go.
use dalal_street_server.Base.{◌≡◌, refl, ℕ, true, Option, none, some, if◌then◌else◌}
use dalal_street_server.Base.Word.{add64, sub64, neg64}
use dalal_street_server.Order.{Order, unfulfilled}
use dalal_street_server.Book.State.{Side, ask, bid}
use dalal_street_server.Account.State.{
  User, Row, user_row, ask_row, bid_row, transaction_row, Server, cancel_order, get_transaction_ref,
}
use dalal_street_server.Account.Tx.{Tx, ◌>>=◌, pure}

-- AlreadyClosedError, and the error of a save.
pub data CloseError : Type 0 where
  already_closed_error save_error : CloseError

-- The user with the cash that a closed bid had reserved.
abbrev pub refunded : ℕ → User → User
refunded cash user = record user {
  cash = add64 user.cash cash;
  reserved_cash = sub64 user.reserved_cash cash;
}

module _ (s : Server) where
  abbrev pub order_row : Side → Order → Row s.floats.Float
  order_row ask o = ask_row o
  order_row bid o = bid_row o

  abbrev pub forget : Side → s.World → ℕ → s.World
  forget ask w id = s.forget_ask w id
  forget bid w id = s.forget_bid w id

  abbrev pub closed_now : s.World → Order → Order
  closed_now w o = record o { is_closed = true; updated_at = s.clock w }

  -- After the save of the closed order `o`, which stays closed in memory when the save has failed.
  unfoldable pub after_save :
      Side → Order → s.World × Option ℕ → s.World × Order × Option CloseError
  after_save side o (w, none) = (w, o, some save_error)
  after_save side o (w, some id) = (forget side w o.id, o, none)

  unfoldable pub close : Side → Order → s.World → s.World × Order × Option CloseError
  close side o w =
      if o.is_closed
      then (w, o, some already_closed_error)
      else after_save side (closed_now w o) (s.save w (order_row side (closed_now w o)))

  -- `int64(float64(cash) * float64(q) / float64(n))`: the part of the cash for q of n stocks.
  unfoldable pub share : ℕ → ℕ → ℕ → ℕ
  share cash q n = s.floats.to_int (
      s.floats.over (s.floats.times (s.floats.of_int cash) (s.floats.of_uint q))
        (s.floats.of_uint n))

  unfoldable pub save_ask_cancel_order_transaction : Order → User → Tx s.World (Unit {0})
  save_ask_cancel_order_transaction o user w =
      let t =
        get_transaction_ref (s.clock w) user.id o.stock_id cancel_order (neg64 (unfulfilled o))
          (unfulfilled o) 0 0 0 in
      ((λ w. s.save w (transaction_row t)) >>= λ id. pure tt) w

  -- The part after the cash reserved for the bid is known. The user is changed before the saves,
  -- whether they succeed or not.
  unfoldable pub free_cash : Option ℕ → Order → User → s.World → s.World × User × Option (Unit {0})
  free_cash none o user w = (w, user, none)
  free_cash (some reserved) o user w =
      let refund = share reserved (unfulfilled o) o.stock_quantity in
      let t =
        get_transaction_ref (s.clock w) user.id o.stock_id cancel_order 0 0 0 (neg64 refund)
          refund in
      let user' = refunded refund user in
      let saves : Tx s.World (Unit {0}) =
        (λ w. s.save w (user_row user')) >>= (λ id w. s.save w (transaction_row t)) >>= λ id.
        pure tt in
      ((saves w).0, user', (saves w).1)

  unfoldable pub save_bid_cancel_order_transaction :
      Order → User → s.World → s.World × User × Option (Unit {0})
  save_bid_cancel_order_transaction o user w = free_cash (s.reserved w o.id) o user w

  -- The user after the cancel transaction of the bid `o`, saved or not: the freed cash is the part
  -- of the reserved cash for the unfulfilled stocks.
  pub data CancelOutcome (o : Order) (user : User)
      : s.World × User × Option (Unit {0}) → Type 0 where
    unread : {w : s.World} → CancelOutcome o user (w, user, none)
    freed :
        {w : s.World} (w0 : s.World) (cash : ℕ) (r : Option (Unit {0}))
        → s.reserved w0 o.id ≡ some cash
        → CancelOutcome o user (w, refunded (share cash (unfulfilled o) o.stock_quantity) user, r)

  free_cash-CancelOutcome :
      (o : Order) (user : User) (w : s.World) (cash : Option ℕ)
      → s.reserved w o.id ≡ cash
      → CancelOutcome o user (free_cash cash o user w)
  unfolding free_cash
  free_cash-CancelOutcome o user w none e = unread
  free_cash-CancelOutcome o user w (some cash) e = freed w cash _ e

  pub save_bid-CancelOutcome :
      (o : Order) (user : User) (w : s.World)
      → CancelOutcome o user (save_bid_cancel_order_transaction o user w)
  unfolding save_bid_cancel_order_transaction
  save_bid-CancelOutcome o user w = free_cash-CancelOutcome o user w _ refl
