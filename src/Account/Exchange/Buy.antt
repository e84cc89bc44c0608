-- ===== src/Account/Exchange/Buy.antt =====
-- The purchase of stocks from the exchange.
use dalal_street_server.Base.{ℕ, Option, none, some, List, ltb, ◌==◌, if◌then◌else◌}
use dalal_street_server.Base.Word.{add64, sub64, mul64, neg64}
use dalal_street_server.Stock.{Stock}
use dalal_street_server.Account.State.{
  User, Transaction, Server, user_row, transaction_row, summary_row, stock_row, from_exchange,
  get_transaction_ref,
}
use dalal_street_server.Account.Tx.{Tx, ◌>>=◌, pure, get, committed, save_some}
use dalal_street_server.Account.Tax.{tax_for_bidding_user}

-- BUY_LIMIT of models/Constants.go.
abbrev pub buy_limit : ℕ
buy_limit = 30

-- `save_failed` stands for the errors of errorHelper.
pub data BuyError : Type 0 where
  stock_bankrupt buy_limit_exceeded no_user not_enough_stocks not_enough_cash save_failed : BuyError

pub data Bought : Type 0 where
  failed : BuyError → Bought
  bought : Transaction → Bought

module _ (s : Server) where
  -- What the pointers to the user and the stock hold afterwards, and the result.
  pub record Purchase : Type 0 where
    pub world : s.World
    pub user : User
    pub stock : Stock s.floats.Float
    pub result : Bought

  abbrev pub fail_with : BuyError → User → Stock s.floats.Float → s.World → Purchase
  fail_with e user stock w = record { world = w; user = user; stock = stock; result = failed e }

  -- stockQuantityRemoved
  unfoldable pub stocks_removed : ℕ → Stock s.floats.Float → ℕ
  stocks_removed quantity stock =
      if ltb stock.stocks_in_exchange quantity then stock.stocks_in_exchange else quantity

  abbrev pub exchange_transaction : s.World → ℕ → ℕ → ℕ → ℕ → Transaction
  exchange_transaction w user_id stock_id removed price =
      get_transaction_ref (s.clock w) user_id stock_id from_exchange 0 removed price 0
        (neg64 (mul64 price removed))

  abbrev pub to_market : ℕ → List ℕ → Stock s.floats.Float → Stock s.floats.Float
  to_market removed now stock = record stock {
    stocks_in_exchange = sub64 stock.stocks_in_exchange removed;
    stocks_in_market = add64 stock.stocks_in_market removed;
    updated_at = now;
  }

  -- The part from the taxes to the commit: the user after the taxes.
  unfoldable pub save_purchase :
      ℕ → ℕ → ℕ → Transaction → Stock s.floats.Float → User → Tx s.World User
  save_purchase stock_id removed price t stock user = do
    (summary, tax, user') ← get (λ w. tax_for_bidding_user s w stock_id removed price user)
    _ ← (λ w. s.save w (summary_row summary))
    _ ← (λ w. s.save w (transaction_row t))
    _ ← save_some s transaction_row tax
    _ ← (λ w. s.save w (user_row user'))
    _ ← (λ w. s.save w (stock_row stock))
    _ ← committed s
    pure user'

  -- errorHelper puts the user and the stock back.
  unfoldable pub end_purchase :
      User
      → Stock s.floats.Float
      → Stock s.floats.Float
      → Transaction
      → s.World × Option User
      → Purchase
  end_purchase user stock stock' t (w, none) = fail_with save_failed user stock (s.rollback w)
  end_purchase user stock stock' t (w, some user') = record {
    world = w;
    user = user';
    stock = stock';
    result = bought t;
  }

  unfoldable pub purchase : ℕ → ℕ → ℕ → User → Stock s.floats.Float → s.World → Purchase
  purchase user_id stock_id removed user stock w =
      let price = stock.current_price in
      let t = exchange_transaction w user_id stock_id removed price in
      let stock' = to_market removed (s.clock w) stock in
      let paid : User = record user { cash = add64 user.cash t.total } in
      end_purchase user stock stock' t
        (save_purchase stock_id removed price t stock' paid (s.begin w))

  -- The part under the locks.
  unfoldable pub buy_locked : ℕ → ℕ → ℕ → User → Stock s.floats.Float → s.World → Purchase
  buy_locked user_id stock_id quantity user stock w =
      let removed = stocks_removed quantity stock in
      if removed == 0
      then fail_with not_enough_stocks user stock w
      else if ltb user.cash (mul64 stock.current_price removed)
      then fail_with not_enough_cash user stock w
      else purchase user_id stock_id removed user stock w

  -- `user` and `stock` are those of the ids.
  unfoldable pub buy_from_exchange : ℕ → ℕ → ℕ → User → Stock s.floats.Float → s.World → Purchase
  buy_from_exchange user_id stock_id quantity user stock w =
      if stock.is_bankrupt
      then fail_with stock_bankrupt user stock w
      else if ltb buy_limit quantity
      then fail_with buy_limit_exceeded user stock w
      else if s.lock w user_id
      then buy_locked user_id stock_id quantity user stock w
      else fail_with no_user user stock w
