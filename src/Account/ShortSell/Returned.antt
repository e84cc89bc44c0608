-- ===== src/Account/ShortSell/Returned.antt =====
-- What squaring off gives back to the bank of lent stocks, and takes from the users.
use dalal_street_server.Base.{
  ℕ, ◌+◌, ◌%◌, ◌^◌, ◌<◌, ◌≡◌, refl, ap, ◌∙◌, true, false, ◌&&◌, Option, some, List, [], ◌∷◌, ◌==◌,
  ==_refl, if◌then◌else◌, arith, Bool-cases, inl, inr, All,
}
use dalal_street_server.Base.Word.{word_mod, add64, sub64, neg64}
use dalal_street_server.Account.State.{ShortSellLends, Server, get_transaction_ref}
use dalal_street_server.Account.Success.{IsReliable}
use dalal_street_server.Account.ShortSell.{square_off}
use dalal_street_server.Account.ShortSell.Tables.{
  Tables, Holds, KeepsTables, lent_stocks, lent_to, Distinct,
}
use dalal_street_server.Account.ShortSell.Rounds.{off, next, round-Holds}

-- A row of the lends after these are squared off one after another.
abbrev row_after : List ShortSellLends → ℕ → Option ShortSellLends → Option ShortSellLends
row_after [] id row = row
row_after (lend ∷ lends) id row =
    row_after lends id (if lend.id == id then some (off lend) else row)

row_after-other :
    (lends : List ShortSellLends) (id : ℕ) (row : Option ShortSellLends)
    → All (λ l. (l.id == id) ≡ false) lends
    → row_after lends id row ≡ row
row_after-other [] id row others = refl
row_after-other (lend ∷ lends) id row (other, others) =
    rw other (row_after-other lends id row others)

all_off :
    (lends : List ShortSellLends) (rows rows' : ℕ → Option ShortSellLends)
    → Distinct lends
    → ((id : ℕ) → rows' id ≡ row_after lends id (rows id))
    → All (λ l. rows' l.id ≡ some (off l)) lends
all_off [] rows rows' distinct e = tt
all_off (lend ∷ lends) rows rows' (others, distinct) e = (
  e lend.id
      ∙ row_after-other lends lend.id _ others
      ∙ ap (λ b. if b then some (off lend) else rows lend.id) (==_refl lend.id),
  all_off lends (λ id. if lend.id == id then some (off lend) else rows id) rows' distinct e,
)

whole : (n : ℕ) → n < word_mod → n ≡ sub64 n (0 % word_mod)
unfolding sub64
whole n h = omega arith

module _ (s : Server) (reliable : IsReliable s) (lend_at : s.World → ℕ → Option ShortSellLends)
    (keeps : KeepsTables s lend_at) where
  -- The numbers of the tables fit their types.
  pub record Fits (tables : Tables) : Type 0 where
    pub available : (id : ℕ) → tables.available id < 2 ^ 32
    pub owned : (user stock : ℕ) → tables.owned user stock < word_mod

  next-Fits :
      (tables : Tables) (w : s.World) (lend : ShortSellLends)
      → Fits tables
      → Fits (next s reliable lend_at keeps tables w lend)
  unfolding get_transaction_ref add64 neg64
  next-Fits tables w lend fits = record {
    available = λ id. let h = fits.available id in ground arith;
    owned = λ user stock. let h = fits.owned user stock in ground arith;
  }

  next-available :
      (tables : Tables) (w : s.World) (lend : ShortSellLends) (lends : List ShortSellLends) (id : ℕ)
      → ((next s reliable lend_at keeps tables w lend).available id + lent_stocks id lends) % 2 ^ 32
        ≡ (tables.available id + lent_stocks id (lend ∷ lends)) % 2 ^ 32
  next-available tables w lend lends id = elim (Bool-cases (lend.stock_id == id)) [
    | inl same ↦ let e : lend.stock_id ≡ id = ground arith in rw (same, e) (omega arith)
    | inr other ↦ rw other (omega arith)
  ]

  next-owned :
      (tables : Tables) (w : s.World) (lend : ShortSellLends) (lends : List ShortSellLends)
      (user stock : ℕ)
      → lend.stock_quantity < 2 ^ 32
      → sub64
          ((next s reliable lend_at keeps tables w lend).owned user stock)
          (lent_to user stock lends % word_mod)
        ≡ sub64 (tables.owned user stock) (lent_to user stock (lend ∷ lends) % word_mod)
  unfolding get_transaction_ref add64 neg64 sub64
  next-owned tables w lend lends user stock small =
      elim (Bool-cases ((lend.user_id == user) && (lend.stock_id == stock))) [
        | inl same ↦ rw same (omega arith)
        | inr other ↦ rw other (omega arith)
      ]

  record Squared (lends : List ShortSellLends) (tables : Tables) (w : s.World) : Type 0 where
    bank : (id : ℕ) → s.lendable w id ≡ some ((tables.available id + lent_stocks id lends) % 2 ^ 32)
    counts :
        (user stock : ℕ)
        → s.stock_count w user stock
          ≡ some (sub64 (tables.owned user stock) (lent_to user stock lends % word_mod))
    rows : (id : ℕ) → lend_at w id ≡ row_after lends id (tables.lends id)

  square_off-Squared :
      (tables : Tables) (lends : List ShortSellLends) (w : s.World)
      → Fits tables
      → All (λ l. l.stock_quantity < 2 ^ 32) lends
      → Holds s lend_at tables w
      → ((square_off s lends w).1 ≡ true) × Squared lends tables (square_off s lends w).0
  unfolding square_off
  square_off-Squared tables [] w fits small holds = (
    refl,
    record {
      bank = λ id. holds.bank id ∙ ap some (let h = fits.available id in omega arith);
      counts = λ user stock.
          holds.counts user stock ∙ ap some (let h = fits.owned user stock in whole _ h);
      rows = holds.rows;
    },
  )
  square_off-Squared tables (lend ∷ lends) w fits (few, small) holds =
      let done = round-Holds s reliable lend_at keeps tables lend w holds in
      let (fine, rest) =
        square_off-Squared (next s reliable lend_at keeps tables w lend) lends _
          (next-Fits tables w lend fits) small done.1 in
      rw done.0 (
        fine,
        record {
          bank = λ id. rest.bank id ∙ ap some (next-available tables w lend lends id);
          counts = λ user stock.
              rest.counts user stock ∙ ap some (next-owned tables w lend lends user stock few);
          rows = rest.rows;
        },
      )

  -- On a database whose saves and commits succeed and that keeps its rows, where the bank has a number
  -- of stocks of each kind below 2 ^ 32 and the lends have different ids and quantities below 2 ^ 32,
  -- the loop of SquareOffLends ends without an error. The row of every lend is then squared off; of
  -- each kind the bank has what it had and the stocks of that kind in all the lends, modulo 2 ^ 32;
  -- and the transactions of a user in a stock sum up to what they did less the stocks lent to the user,
  -- modulo 2 ^ 64.
  pub square_off-Has :
      (tables : Tables) (lends : List ShortSellLends) (w : s.World)
      → Fits tables
      → All (λ l. l.stock_quantity < 2 ^ 32) lends
      → Distinct lends
      → Holds s lend_at tables w
      → ((square_off s lends w).1 ≡ true)
        × All (λ l. lend_at (square_off s lends w).0 l.id ≡ some (off l)) lends
        × ((id : ℕ)
            → s.lendable (square_off s lends w).0 id
              ≡ some ((tables.available id + lent_stocks id lends) % 2 ^ 32))
        × ((user stock : ℕ)
            → s.stock_count (square_off s lends w).0 user stock
              ≡ some (sub64 (tables.owned user stock) (lent_to user stock lends % word_mod)))
  square_off-Has tables lends w fits small distinct holds =
      let (fine, squared) = square_off-Squared tables lends w fits small holds in
      (fine, all_off lends tables.lends _ distinct squared.rows, squared.bank, squared.counts)
