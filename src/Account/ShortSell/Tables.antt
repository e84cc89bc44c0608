-- ===== src/Account/ShortSell/Tables.antt =====
-- What the database holds of lent stocks, and how it keeps it.
use dalal_street_server.Base.{
  ℕ, ◌+◌, ◌≡◌, ◌&&◌, Option, some, List, [], ◌∷◌, All, ◌==◌, if◌then◌else◌, false,
}
use dalal_street_server.Base.Word.{add64}
use dalal_street_server.Account.State.{
  ShortSellBank, ShortSellLends, Server, Transaction, transaction_row, lend_row, bank_row,
}

-- The stocks that can be lent, the sum of the transactions of a user in a stock, and the lends.
pub record Tables : Type 0 where
  pub available : ℕ → ℕ
  pub owned : ℕ → ℕ → ℕ
  pub lends : ℕ → Option ShortSellLends

-- The tables after a database transaction that saves a row of each kind.
abbrev pub after_saves : Transaction → ShortSellLends → ShortSellBank → Tables → Tables
after_saves t lend row tables = record {
  available = λ id. if row.stock_id == id then row.available_stocks else tables.available id;
  owned = λ user stock.
      if (t.user_id == user) && (t.stock_id == stock)
      then add64 (tables.owned user stock) t.stock_quantity
      else tables.owned user stock;
  lends = λ id. if lend.id == id then some lend else tables.lends id;
}

module _ (s : Server) (lend_at : s.World → ℕ → Option ShortSellLends) where
  -- The queries read the tables; `lend_at` is the row of a lend.
  pub record Holds (tables : Tables) (w : s.World) : Type 0 where
    pub bank : (id : ℕ) → s.lendable w id ≡ some (tables.available id)
    pub counts : (user stock : ℕ) → s.stock_count w user stock ≡ some (tables.owned user stock)
    pub rows : (id : ℕ) → lend_at w id ≡ tables.lends id

  -- How the database keeps its rows: within a transaction, the saves of transactions and lends leave
  -- the bank as it is, and the rows that are saved are read after the commit.
  pub record KeepsTables : Type 0 where
    pub begins : (w : s.World) (id : ℕ) → s.lendable (s.begin w) id ≡ s.lendable w id
    pub transactions :
        (w : s.World) (t : Transaction) (id : ℕ)
        → s.lendable (s.save w (transaction_row t)).0 id ≡ s.lendable w id
    pub lends :
        (w : s.World) (lend : ShortSellLends) (id : ℕ)
        → s.lendable (s.save w (lend_row lend)).0 id ≡ s.lendable w id
    pub commits :
        (tables : Tables) (w : s.World) (t : Transaction) (lend : ShortSellLends)
        (row : ShortSellBank)
        → Holds tables w
        → Holds
            (after_saves t lend row tables)
            (s.commit
              (s.save
                (s.save (s.save (s.begin w) (transaction_row t)).0 (lend_row lend)).0
                (bank_row row)).0).0

-- The stocks of one kind in the lends.
abbrev pub lent_stocks : ℕ → List ShortSellLends → ℕ
lent_stocks id [] = 0
lent_stocks id (lend ∷ lends) =
    (if lend.stock_id == id then lend.stock_quantity else 0) + lent_stocks id lends

-- The stocks of one kind in the lends of a user.
abbrev pub lent_to : ℕ → ℕ → List ShortSellLends → ℕ
lent_to user stock [] = 0
lent_to user stock (lend ∷ lends) =
    (if (lend.user_id == user) && (lend.stock_id == stock) then lend.stock_quantity else 0)
    + lent_to user stock lends

-- No two lends have the same id.
abbrev pub Distinct : List ShortSellLends → Type 0
Distinct [] = Unit
Distinct (lend ∷ lends) = All (λ l. (l.id == lend.id) ≡ false) lends × Distinct lends
