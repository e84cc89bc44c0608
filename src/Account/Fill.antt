-- ===== src/Account/Fill.antt =====
-- PerformOrderFillTransaction of models/User.go. The two users are different, since an order is
-- never matched with an order of the same user.
use dalal_street_server.Base.{ℕ, not, ◌&&◌, ◌||◌, Option, none, some, ◌==◌, if◌then◌else◌}
use dalal_street_server.Base.Word.{add64, sub64, mul64, neg64, is_negative}
use dalal_street_server.Order.{Order}
use dalal_street_server.Book.State.{bid, FillStatus, already_closed, done, undone}
use dalal_street_server.Account.State.{
  User, Transaction, user_row, ask_row, bid_row, transaction_row, summary_row, order_fill_row,
  Server, order_fill, get_transaction_ref,
}
use dalal_street_server.Account.Tx.{Tx, ◌>>=◌, pure, get, committed, save_some}
use dalal_street_server.Account.Tax.{tax_for_asking_user, tax_for_bidding_user}
use dalal_street_server.Account.Close.{CloseError, close, share, save_bid_cancel_order_transaction}

-- What the function changes through its pointers.
pub record Parties : Type 0 where
  pub asking_user : User
  pub bidding_user : User
  pub ask_order : Order
  pub bid_order : Order

-- The numbers of a trade: its price and quantity, and the bidder's reserved cash that goes into it.
pub record Terms : Type 0 where
  pub price : ℕ
  pub quantity : ℕ
  pub reserved : ℕ

pub record Result (World : Type 0) : Type 0 where
  pub world : World
  pub parties : Parties
  pub ask_status : FillStatus
  pub bid_status : FillStatus
  pub transaction : Option Transaction

unfoldable pub total_of : Terms → ℕ
total_of t = mul64 t.price t.quantity

-- `cashLeft`, an int64 pattern.
unfoldable pub cash_left : Terms → User → ℕ
cash_left t user = add64 (sub64 user.cash (total_of t)) t.reserved

unfoldable pub fill_order : ℕ → Order → Order
fill_order quantity o =
    let n = add64 o.stock_quantity_fulfilled quantity in
    record o { stock_quantity_fulfilled = n; is_closed = o.stock_quantity == n }

-- revertToOldState without the rollback: the fields of `old` that it restores.
unfoldable pub revert : Parties → Parties → Parties
revert old p = record {
  asking_user = record p.asking_user { cash = old.asking_user.cash };
  bidding_user = record p.bidding_user {
    cash = old.bidding_user.cash;
    reserved_cash = old.bidding_user.reserved_cash;
  };
  ask_order = record p.ask_order {
    stock_quantity_fulfilled = old.ask_order.stock_quantity_fulfilled;
    is_closed = old.ask_order.is_closed;
  };
  bid_order = record p.bid_order {
    stock_quantity_fulfilled = old.bid_order.stock_quantity_fulfilled;
    is_closed = old.bid_order.is_closed;
  };
}

abbrev pub status_of : Order → FillStatus
status_of o = if o.is_closed then done else undone

module _ (s : Server) where
  -- `math.Max(0, float64(int64(ReservedCash) - reservedCashForTrade))` as a uint64
  unfoldable pub reserve_left : Terms → User → ℕ
  reserve_left t user =
      s.floats.to_uint
        (s.floats.max (s.floats.of_uint 0) (s.floats.of_int (sub64 user.reserved_cash t.reserved)))

  -- The users and the orders with the trade made.
  unfoldable pub trade : Terms → Parties → Parties
  trade t p = record {
    asking_user = record p.asking_user {
      cash = add64 p.asking_user.cash (mul64 t.quantity t.price);
    };
    bidding_user = record p.bidding_user {
      cash = cash_left t p.bidding_user;
      reserved_cash = reserve_left t p.bidding_user;
    };
    ask_order = fill_order t.quantity p.ask_order;
    bid_order = fill_order t.quantity p.bid_order;
  }

  abbrev pub failed : Parties → s.World → Result s.World
  failed p w = record {
    world = s.rollback w;
    parties = p;
    ask_status = undone;
    bid_status = undone;
    transaction = none;
  }

  -- The branch for a bidder without enough cash, after its commit, after its cancel transaction and
  -- from its start; `old` are the reverted users and orders.
  unfoldable pub end_drop : Parties → Parties → s.World × Option (Unit {0}) → Result s.World
  end_drop old p (w, none) = failed (revert old p) w
  end_drop old p (w, some u) = record {
    world = w;
    parties = p;
    ask_status = undone;
    bid_status = done;
    transaction = none;
  }

  unfoldable pub commit_drop :
      Parties → Parties → s.World × User × Option (Unit {0}) → Result s.World
  commit_drop old p (w, user, none) = failed (revert old (record p { bidding_user = user })) w
  commit_drop old p (w, user, some u) =
      end_drop old (record p { bidding_user = user }) (committed s w)

  unfoldable pub cancel_drop : Parties → s.World × Order × Option CloseError → Result s.World
  cancel_drop old (w, o, some e) = failed (revert old (record old { bid_order = o })) w
  cancel_drop old (w, o, none) =
      commit_drop old (record old { bid_order = o })
        (save_bid_cancel_order_transaction s o old.bidding_user w)

  unfoldable pub drop_bid : Parties → s.World → Result s.World
  drop_bid old w = cancel_drop old (close s bid old.bid_order w)

  abbrev pub ask_transaction : Terms → Parties → s.World → Transaction
  ask_transaction t p w =
      get_transaction_ref (s.clock w) p.ask_order.user_id p.ask_order.stock_id order_fill
        (neg64 t.quantity) 0 t.price 0 (total_of t)

  abbrev pub bid_transaction : Terms → Parties → s.World → Transaction
  bid_transaction t p w =
      get_transaction_ref (s.clock w) p.bid_order.user_id p.bid_order.stock_id order_fill 0
        t.quantity t.price (neg64 t.reserved) (add64 (neg64 (total_of t)) t.reserved)

  -- The taxes and the saves of a trade up to the commit, in their order; the result has the taxed
  -- users.
  unfoldable pub save_trade : Terms → Parties → Parties → Tx s.World Parties
  save_trade t old p w0 =
      (do
        (ask_summary, ask_tax, asking) ←
            get (λ w. tax_for_asking_user s w p.ask_order.stock_id t.quantity t.price p.asking_user)
        _ ← (λ w. s.save w (summary_row ask_summary))
        (bid_summary, bid_tax, bidding) ←
            get
              (λ w. tax_for_bidding_user s w p.bid_order.stock_id t.quantity t.price p.bidding_user)
        _ ← (λ w. s.save w (summary_row bid_summary))
        ask_id ← (λ w. s.save w (transaction_row (ask_transaction t old w0)))
        _ ← (λ w. s.save w (transaction_row (bid_transaction t old w0)))
        _ ← save_some s transaction_row ask_tax
        _ ← save_some s transaction_row bid_tax
        _ ← (λ w. s.save w (user_row asking))
        _ ← (λ w. s.save w (user_row bidding))
        _ ← (λ w. s.save w (ask_row p.ask_order))
        _ ← (λ w. s.save w (bid_row p.bid_order))
        _ ← (λ w. s.save w (
            order_fill_row (record {
              ask_id = p.ask_order.id;
              bid_id = p.bid_order.id;
              transaction_id = ask_id;
            })))
        _ ← committed s
        pure (record p { asking_user = asking; bidding_user = bidding }))
        w0

  -- After the saves of a trade that has begun in the world `w0`; the transaction that is returned
  -- carries the quantity sold.
  unfoldable pub end_trade : Terms → Parties → s.World → s.World × Option Parties → Result s.World
  end_trade t old w0 (w, none) = failed (revert old (trade t old)) w
  end_trade t old w0 (w, some p) = record {
    world = s.trade_stock w old.ask_order.stock_id t.price t.quantity;
    parties = p;
    ask_status = status_of p.ask_order;
    bid_status = status_of p.bid_order;
    transaction = some (record (ask_transaction t old w0) { stock_quantity = neg64 t.quantity });
  }

  -- The part after the cash reserved for the bid is known.
  unfoldable pub settle_fill : Terms → Parties → s.World → Result s.World
  settle_fill t old w =
      if is_negative (cash_left t old.bidding_user)
      then drop_bid (revert old (trade t old)) w
      else end_trade t old w (save_trade t old (trade t old) w)

  abbrev pub unchanged : Parties → s.World → FillStatus → FillStatus → Result s.World
  unchanged p w ask_status bid_status = record {
    world = w;
    parties = p;
    ask_status = ask_status;
    bid_status = bid_status;
    transaction = none;
  }

  abbrev pub open_status : Order → FillStatus
  open_status o = if o.is_closed then already_closed else undone

  -- The part after `db.Begin`, on the cash reserved for the bid if it is found.
  unfoldable pub start_fill : Option ℕ → Parties → ℕ → ℕ → s.World → Result s.World
  start_fill none p price quantity w = unchanged p w undone undone
  start_fill (some cash) p price quantity w =
      settle_fill
        (record {
          price = price;
          quantity = quantity;
          reserved = share s cash quantity p.bid_order.stock_quantity;
        })
        p w

  unfoldable pub perform_order_fill_transaction : Parties → ℕ → ℕ → s.World → Result s.World
  perform_order_fill_transaction p price quantity w =
      let w1 = s.begin w in
      if not (s.lock w p.ask_order.user_id && s.lock w p.bid_order.user_id)
      then unchanged p w undone undone
      else if p.ask_order.is_closed || p.bid_order.is_closed
      then unchanged p w (open_status p.ask_order) (open_status p.bid_order)
      else start_fill (s.reserved w1 p.bid_order.id) p price quantity w1
