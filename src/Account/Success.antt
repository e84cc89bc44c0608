-- ===== src/Account/Success.antt =====
-- A fill on a database that fails at nothing.
use dalal_street_server.Base.{ℕ, ◌≡◌, refl, true, false, ◌&&◌, ◌||◌, Option, none, some, ◌==◌}
use dalal_street_server.Base.Word.{add64, sub64, mul64, is_negative, neg64}
use dalal_street_server.Account.State.{Server, Row, Transaction, get_transaction_ref}
use dalal_street_server.Account.Tx.{Tx, ◌>>=◌, committed, save_some}
use dalal_street_server.Account.Yields.{Ends, ends, bind-Ends, get-Ends, pure-Ends, Yields, yielded}
use dalal_street_server.Account.Fill.{
  Parties, Terms, Result, cash_left, save_trade, end_trade, settle_fill, start_fill,
  perform_order_fill_transaction, status_of, trade, fill_order, total_of, reserve_left,
}
use dalal_street_server.Account.FillCases.{terms_of, IsCharged}
use dalal_street_server.Account.Close.{share}
use dalal_street_server.Account.Outcome.{save_trade-IsCharged}

abbrev pub Any : {A : Type 0} → A → Type 0
Any a = Unit

-- Every save and every commit succeeds.
pub record IsReliable (s : Server) : Type 0 where
  pub saves : (w : s.World) (row : Row s.floats.Float) → Ends (λ (id : ℕ). Unit) (s.save w row)
  pub commits : (w : s.World) → (s.commit w).1 ≡ true

module _ (s : Server) where
  -- The users and orders of `p` with the quantity sold at the price, before the taxes; `cash` is
  -- what is reserved for the whole bid.
  abbrev pub sold : ℕ → ℕ → ℕ → Parties → Parties
  sold price quantity cash p =
      let reserved = share s cash quantity p.bid_order.stock_quantity in
      let asked = add64 p.ask_order.stock_quantity_fulfilled quantity in
      let bought = add64 p.bid_order.stock_quantity_fulfilled quantity in
      record {
        asking_user = record p.asking_user {
          cash = add64 p.asking_user.cash (mul64 quantity price);
        };
        bidding_user = record p.bidding_user {
          cash = add64 (sub64 p.bidding_user.cash (mul64 price quantity)) reserved;
          reserved_cash = s.floats.to_uint (
              s.floats.max (s.floats.of_uint 0)
                (s.floats.of_int (sub64 p.bidding_user.reserved_cash reserved)));
        };
        ask_order = record p.ask_order {
          stock_quantity_fulfilled = asked;
          is_closed = p.ask_order.stock_quantity == asked;
        };
        bid_order = record p.bid_order {
          stock_quantity_fulfilled = bought;
          is_closed = p.bid_order.stock_quantity == bought;
        };
      }

  -- The fill reports a sale at the price and of the quantity, and the users and orders are those of
  -- the sale after the taxes.
  pub record IsSold (old : Parties) (price quantity cash : ℕ) (r : Result s.World) : Type 0 where
    pub report :
        (t : Transaction) × (r.transaction ≡ some t)
        × (t.price ≡ price)
        × (t.stock_quantity ≡ neg64 quantity)
    pub exchanged :
        IsCharged s (terms_of s old price quantity cash) (sold price quantity cash old) r.parties
    pub asked : r.ask_status ≡ status_of r.parties.ask_order
    pub bidden : r.bid_status ≡ status_of r.parties.bid_order

module _ (s : Server) (reliable : IsReliable s) where
  open reliable use {saves, commits}

  pub committed-Ends : (w : s.World) → Ends Any (committed s w)
  unfolding committed
  committed-Ends w = rw (commits w) (ends tt)

  pub save-Ends :
      {B : Type 0} (row : Row s.floats.Float) (f : ℕ → Tx s.World B) (w : s.World)
      → ((id : ℕ) (w' : s.World) → Ends Any (f id w'))
      → Ends Any (((λ w. s.save w row) >>= f) w)
  save-Ends row f w k = bind-Ends _ f w (saves w row) (λ id w' _. k id w')

  pub save_some-Ends :
      {A : Type 0} (row : A → Row s.floats.Float) (o : Option A) (w : s.World)
      → Ends Any (save_some s row o w)
  unfolding save_some
  save_some-Ends row none w = pure-Ends tt w tt
  save_some-Ends row (some a) w = bind-Ends _ _ w (saves w (row a)) (λ _ w' _. pure-Ends tt w' tt)

  save_trade-Ends : (t : Terms) (old p : Parties) (w : s.World) → Ends Any (save_trade s t old p w)
  unfolding save_trade
  save_trade-Ends t old p w = get-Ends _ _ _ (
      save-Ends _ _ _ λ _ w1. get-Ends _ _ _ (
        save-Ends _ _ _ λ _ w2. save-Ends _ _ _ λ _ w3. save-Ends _ _ _ λ _ w4.
          bind-Ends _ _ _ (save_some-Ends _ _ w4) λ _ w5 _.
            bind-Ends _ _ _ (save_some-Ends _ _ w5) λ _ w6 _. save-Ends _ _ _ λ _ _.
              save-Ends _ _ _ λ _ _. save-Ends _ _ _ λ _ _. save-Ends _ _ _ λ _ _.
                save-Ends _ _ _
                  λ _ w11. bind-Ends _ _ _ (committed-Ends w11) λ _ w12 _. pure-Ends _ w12 tt))

  end_trade-IsSold :
      (price quantity cash : ℕ) (old : Parties) (w : s.World) (r : s.World × Option Parties)
      → Ends Any r
      → Yields
          (IsCharged s
            (terms_of s old price quantity cash)
            (trade s (terms_of s old price quantity cash) old))
          r
      → IsSold s old price quantity cash (end_trade s (terms_of s old price quantity cash) old w r)
  unfolding end_trade get_transaction_ref trade fill_order cash_left total_of reserve_left
  end_trade-IsSold price quantity cash old w _ (ends p) (yielded c) = record {
    report = (_, refl, refl, refl);
    exchanged = c;
    asked = refl;
    bidden = refl;
  }

  -- On a database in which every save and commit succeeds, the fill of two open orders, whose users
  -- can be locked, makes the trade and reports it with its price and quantity, if the cash reserved
  -- for the bid is found and the bidder's cash with the part of it for the trade covers the trade.
  -- The fulfilled quantities of both orders are then greater by the quantity, an order is closed and
  -- reported done exactly if its whole quantity is fulfilled, the asker has the price of the trade,
  -- and the bidder has paid it, with the part of the reserved cash freed, before the taxes of both.
  pub perform_order_fill_transaction-IsSold :
      (old : Parties) (price quantity cash : ℕ) (w : s.World)
      → (s.lock w old.ask_order.user_id && s.lock w old.bid_order.user_id) ≡ true
      → (old.ask_order.is_closed || old.bid_order.is_closed) ≡ false
      → s.reserved (s.begin w) old.bid_order.id ≡ some cash
      → is_negative (cash_left (terms_of s old price quantity cash) old.bidding_user) ≡ false
      → IsSold s old price quantity cash (perform_order_fill_transaction s old price quantity w)
  unfolding perform_order_fill_transaction start_fill settle_fill
  perform_order_fill_transaction-IsSold old price quantity cash w locked are_open read covered =
      rw (locked, are_open, read, covered)
        (end_trade-IsSold price quantity cash old _ _ (save_trade-Ends _ _ _ _)
          (save_trade-IsCharged s _ _ _ _))
