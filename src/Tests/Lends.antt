-- ===== src/Tests/Lends.antt =====
-- The squaring of short sales on a small case.
use dalal_street_server.Base.{
  ℕ, ◌≡◌, ◌%◌, ◌+◌, ◌^◌, refl, ◌==◌, true, false, none, some, List, [], ◌∷◌, if◌then◌else◌, arith,
  All, Option,
}
use dalal_street_server.Base.Word.{word_mod, sub64}
use dalal_street_server.Account.State.{
  ShortSellBank, ShortSellLends, Server, Row, bank_row, lend_row, transaction_row, Transaction,
}
use dalal_street_server.Account.Yields.{ends}
use dalal_street_server.Account.Success.{IsReliable}
use dalal_street_server.Tests.Servers.{floats, listed}
use dalal_street_server.Account.ShortSell.{square_off}
use dalal_street_server.Account.ShortSell.Tables.{
  Tables, after_saves, Holds, KeepsTables, lent_stocks, lent_to,
}
use dalal_street_server.Account.ShortSell.Returned.{square_off-Has}
use dalal_street_server.Account.ShortSell.Rounds.{off}

abbrev lend : ℕ → ℕ → ℕ → ShortSellLends
lend id stock quantity = record {
  id = id;
  stock_id = stock;
  user_id = 7;
  stock_quantity = quantity;
  is_squared_off = false;
}

abbrev saved_row : Row ℕ → Tables → Tables
saved_row (transaction_row t) tables = record tables {
  owned = (after_saves t (lend 0 0 0) (record { stock_id = 0; available_stocks = 0 }) tables).owned;
}
saved_row (lend_row l) tables = record tables {
  lends = λ id. if l.id == id then some l else tables.lends id;
}
saved_row (bank_row r) tables = record tables {
  available = λ id. if r.stock_id == id then r.available_stocks else tables.available id;
}
saved_row _ tables = tables

-- A server whose world is the tables.
abbrev bank_server : Server
bank_server = record {
  floats = floats;
  World = Tables;
  clock = λ w. [];
  begin = λ w. w;
  save = λ w row. (saved_row row w, some 1);
  commit = λ w. (w, true);
  rollback = λ w. w;
  reserved = λ w id. none;
  find_summary = λ w user stock. none;
  lock = λ w user. true;
  find_user = λ w id. none;
  remember_ask = λ w id. w;
  remember_bid = λ w id. w;
  forget_ask = λ w id. w;
  forget_bid = λ w id. w;
  trade_stock = λ w stock price quantity. w;
  stock = λ w id. listed;
  stock_count = λ w user stock. some (w.owned user stock);
  lendable = λ w stock. some (w.available stock);
  lent = λ w stock user. some 0;
  stock_rows = λ w. none;
}

bank_server-IsReliable : IsReliable bank_server
bank_server-IsReliable = record { saves = λ w row. ends tt; commits = λ w. refl }

abbrev lend_at : Tables → ℕ → Option ShortSellLends
lend_at w id = w.lends id

kept_rows :
    (tables : Tables) (w : Tables) (t : Transaction) (l : ShortSellLends) (r : ShortSellBank)
    → Holds bank_server lend_at tables w
    → Holds bank_server lend_at
        (after_saves t l r tables)
        (saved_row (bank_row r) (saved_row (lend_row l) (saved_row (transaction_row t) w)))
kept_rows tables w t l r holds = record {
  bank = λ id. let h = holds.bank id in ground arith;
  counts = λ user stock. let h = holds.counts user stock in ground arith;
  rows = λ id. let h = holds.rows id in ground arith;
}

bank_server-KeepsTables : KeepsTables bank_server lend_at
bank_server-KeepsTables = record {
  begins = λ w id. refl;
  transactions = λ w t id. refl;
  lends = λ w lend id. refl;
  commits = kept_rows;
}

abbrev lends : List ShortSellLends
lends = lend 1 1 5 ∷ lend 2 2 4 ∷ lend 3 1 3 ∷ []

abbrev tables : Tables
tables = record {
  available = λ id. 10;
  owned = λ user stock. 20;
  lends = λ id. if id == 0 then none else some (lend id 1 5);
}

square_off-Has_example :
    ((square_off bank_server lends tables).1 ≡ true)
    × All (λ l. lend_at (square_off bank_server lends tables).0 l.id ≡ some (off l)) lends
    × ((id : ℕ)
        → bank_server.lendable (square_off bank_server lends tables).0 id
          ≡ some ((10 + lent_stocks id lends) % 2 ^ 32))
    × ((user stock : ℕ)
        → bank_server.stock_count (square_off bank_server lends tables).0 user stock
          ≡ some (sub64 20 (lent_to user stock lends % word_mod)))
square_off-Has_example =
    square_off-Has bank_server bank_server-IsReliable lend_at bank_server-KeepsTables tables lends
      tables (record { available = λ id. omega arith; owned = λ user stock. omega arith })
      (omega arith, (omega arith, (omega arith, tt))) ((refl, (refl, tt)), ((refl, tt), (tt, tt)))
      (record { bank = λ id. refl; counts = λ user stock. refl; rows = λ id. refl })
