-- ===== src/Account/Market.antt =====
-- The users with the rest of the server as the exchange that an order book trades on: its
-- `fillOrderFn` is PerformOrderFillTransaction, whose users are found by their ids.
use dalal_street_server.Base.{ℕ, ◌≡◌, ap, true, false, Option, none, some, ◌==◌, if◌then◌else◌}
use dalal_street_server.Order.{Order}
use dalal_street_server.Pqueue.Valid.{rank}
use dalal_street_server.Book.State.{Side, Exchange, Filled}
use dalal_street_server.Book.MakeTrade.{IsFill}
use dalal_street_server.Account.State.{User, Transaction, Server}
use dalal_street_server.Account.Close.{order_row}
use dalal_street_server.Account.Fill.{
  Parties, Result, fill_order, trade, perform_order_fill_transaction,
}
use dalal_street_server.Account.FillCases.{FillOutcome, nothing, dropped, traded}
use dalal_street_server.Account.Outcome.{perform_order_fill_transaction-FillOutcome}
use dalal_street_server.Book.State as Book

pub record Market (World : Type 0) : Type 0 where
  pub users : ℕ → User
  pub rest : World

-- Option.map on the transaction that the book reads.
abbrev pub sale_of : Option Transaction → Option Book.Transaction
sale_of none = none
sale_of (some t) =
    some (record { price = t.price; stock_quantity = t.stock_quantity; created_at = t.created_at })

module _ (s : Server) (price_of : s.World → ℕ → ℕ) where
  abbrev pub parties : Market s.World → Order → Order → Parties
  parties m a b = record {
    asking_user = m.users a.user_id;
    bidding_user = m.users b.user_id;
    ask_order = a;
    bid_order = b;
  }

  abbrev pub run_fill : Market s.World → Order → Order → ℕ → ℕ → Result s.World
  run_fill m a b price quantity =
      perform_order_fill_transaction s (parties m a b) price quantity m.rest

  abbrev pub users_after : Market s.World → Order → Order → Result s.World → ℕ → User
  users_after m a b r i =
      if i == a.user_id
      then r.parties.asking_user
      else if i == b.user_id
      then r.parties.bidding_user
      else m.users i

  unfoldable pub market_exchange : Exchange
  market_exchange = record {
    World = Market s.World;
    current_price = λ m i. price_of m.rest i;
    clock = λ m. s.clock m.rest;
    save = λ m side o.
        let (w, id) = s.save m.rest (order_row s side o) in
        (record m { rest = w }, elim id [ none ↦ false | some i ↦ true ]);
    fill = λ m a b price quantity.
        let r = run_fill m a b price quantity in
        record {
          world = record { users = users_after m a b r; rest = r.world };
          ask_order = r.parties.ask_order;
          bid_order = r.parties.bid_order;
          ask_status = r.ask_status;
          bid_status = r.bid_status;
          transaction = sale_of r.transaction;
        };
  }

  ask-rank :
      {old : Parties} {price quantity : ℕ} {r : Result s.World}
      → FillOutcome s old price quantity r
      → rank r.parties.ask_order ≡ rank old.ask_order
  unfolding rank trade fill_order
  ask-rank (nothing _ _ _ u) = ap rank u.ask_same
  ask-rank (dropped _ _ _ d) = ap rank d.ask_same
  ask-rank (traded _ _ _ _ _ c _ _) = ap (λ (p : Parties). rank p.ask_order) c.2

  bid-rank :
      {old : Parties} {price quantity : ℕ} {r : Result s.World}
      → FillOutcome s old price quantity r
      → rank r.parties.bid_order ≡ rank old.bid_order
  unfolding rank trade fill_order
  bid-rank (nothing _ _ _ u) = ap rank u.bid_updated.1
  bid-rank (dropped _ _ _ d) = ap rank d.bid_closed.1
  bid-rank (traded _ _ _ _ _ c _ _) = ap (λ (p : Parties). rank p.bid_order) c.2

  -- The fill of the accounts meets what the order book relies on: whatever it does, it changes no
  -- field of an order by which the queues are sorted.
  pub market_exchange-IsFill : IsFill market_exchange
  unfolding market_exchange
  market_exchange-IsFill = record {
    ask_rank = λ m a b p q.
        ask-rank (perform_order_fill_transaction-FillOutcome s (parties m a b) p q m.rest);
    bid_rank = λ m a b p q.
        bid-rank (perform_order_fill_transaction-FillOutcome s (parties m a b) p q m.rest);
  }
