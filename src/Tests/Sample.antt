-- ===== src/Tests/Sample.antt =====
-- A sample exchange, its orders and its book.
use dalal_street_server.Base.{
  ℕ, refl, true, false, Option, none, some, [], ◌∷◌, ◌==◌, if◌then◌else◌,
}
use dalal_street_server.Base.Word.{neg64}
use dalal_street_server.Order.{Order, OrderType, limit, stop_loss}
use dalal_street_server.Pqueue.Valid.{rank}
use dalal_street_server.Depth.{empty}
use dalal_street_server.Book.State.{Side, ask, bid, done, Exchange, Book}
use dalal_street_server.Book.MakeTrade.{IsFill}
use dalal_street_server.Book.Session.{new_book, load_old}

abbrev pub order : ℕ → OrderType → ℕ → ℕ → Order
order user kind price quantity = record {
  id = 0;
  user_id = user;
  stock_id = 1;
  order_type = kind;
  price = price;
  stock_quantity = quantity;
  stock_quantity_fulfilled = 0;
  is_closed = false;
  created_at = 50 ∷ 48 ∷ [];
  updated_at = 50 ∷ 48 ∷ [];
}

abbrev filled : Order → Order
filled o = record o { stock_quantity_fulfilled = o.stock_quantity; is_closed = true }

-- Every order is filled whole; the world is the price of the stock.
abbrev pub shop : Exchange
shop = record {
  World = ℕ;
  current_price = λ w i. w;
  clock = λ w. 50 ∷ 49 ∷ [];
  save = λ w s o. (w, true);
  fill = λ w a b p q. record {
    world = w;
    ask_order = filled a;
    bid_order = filled b;
    ask_status = done;
    bid_status = done;
    transaction = some (record { price = p; stock_quantity = neg64 q; created_at = 50 ∷ 49 ∷ [] });
  };
}

pub shop-IsFill : IsFill shop
unfolding rank
shop-IsFill = record { ask_rank = λ w a i p q. refl; bid_rank = λ w a i p q. refl }

-- Bids 1 (limit 100), 2 (limit 110, of user 7) and 3 (stop-loss 105); ask 1 (limit 90, of user 7).
abbrev pub table : Side → ℕ → Order
table bid i =
    if i == 1
    then order 5 limit 100 10
    else if i == 2
    then order 7 limit 110 10
    else order 6 stop_loss 105 10
table ask i = order 7 limit 90 10

abbrev pub or_else {ℓ} : {A : Type ℓ} → A → Option A → A
or_else a none = a
or_else a (some b) = b

abbrev pub fresh : Book ℕ
fresh = new_book table empty 100

abbrev pub loaded1 : Book ℕ
loaded1 = or_else fresh (load_old bid 1 fresh)

abbrev pub loaded2 : Book ℕ
loaded2 = or_else fresh (load_old bid 2 loaded1)

abbrev pub loaded : Book ℕ
loaded = or_else fresh (load_old bid 3 loaded2)
