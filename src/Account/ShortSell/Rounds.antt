-- ===== src/Account/ShortSell/Rounds.antt =====
-- One lend that is squared off on a database that fails at nothing and keeps its rows.
use dalal_street_server.Base.{ℕ, ◌+◌, ◌%◌, ◌^◌, ◌≡◌, refl, ap, ap₂, ◌∙◌, true, Option, none, some}
use dalal_street_server.Base.Word.{neg64}
use dalal_street_server.Account.State.{
  ShortSellBank, ShortSellLends, Server, Row, Transaction, transaction_row, lend_row, bank_row,
  short_sell, get_transaction_ref,
}
use dalal_street_server.Account.Tx.{Tx, ◌>>=◌, pure}
use dalal_street_server.Account.Yields.{Ends, ends}
use dalal_street_server.Account.Success.{IsReliable}
use dalal_street_server.Account.Placing.Rows.{read_some, update_short_sell_bank}
use dalal_street_server.Account.ShortSell.{save_squared, end_squared}
use dalal_street_server.Account.ShortSell.Tables.{Tables, after_saves, Holds, KeepsTables}

-- The run has a result, of which and of the world after it `P` holds.
data EndsIn {World A : Type 0} (P : World → A → Type 0) : World × Option A → Type 0 where
  ends_in : {w : World} {a : A} → P w a → EndsIn P (w, some a)

continue-EndsIn :
    {World A B : Type 0} {P : World → A → Type 0} {Q : World → B → Type 0} (f : A → Tx World B)
    (r : World × Option A)
    → EndsIn P r
    → ((a : A) (w : World) → P w a → EndsIn Q (f a w))
    → EndsIn Q (elim r.1 as (λ _. World × Option B) [ none ↦ (r.0, none) | some a ↦ f a r.0 ])
continue-EndsIn f _ (ends_in p) k = k _ _ p

bind-EndsIn :
    {World A B : Type 0} {P : World → A → Type 0} {Q : World → B → Type 0} (m : Tx World A)
    (f : A → Tx World B) (w : World)
    → EndsIn P (m w)
    → ((a : A) (w' : World) → P w' a → EndsIn Q (f a w'))
    → EndsIn Q ((m >>= f) w)
unfolding ◌>>=◌
bind-EndsIn m f w p k = continue-EndsIn f (m w) p k

-- The lend squared off.
abbrev pub off : ShortSellLends → ShortSellLends
off lend = record lend { is_squared_off = true }

module _ (s : Server) (reliable : IsReliable s) (lend_at : s.World → ℕ → Option ShortSellLends)
    (keeps : KeepsTables s lend_at) where
  saved_world : (r : s.World × Option ℕ) → Ends (λ (id : ℕ). Unit) r → EndsIn (λ w id. w ≡ r.0) r
  saved_world _ (ends p) = ends_in refl

  save-EndsIn :
      {B : Type 0} {Q : s.World → B → Type 0} (row : s.World → Row s.floats.Float)
      (f : ℕ → Tx s.World B) (w : s.World)
      → ((id : ℕ) (w' : s.World) → w' ≡ (s.save w (row w)).0 → EndsIn Q (f id w'))
      → EndsIn Q (((λ w. s.save w (row w)) >>= f) w)
  save-EndsIn row f w k = bind-EndsIn _ f w (saved_world _ (reliable.saves w (row w))) k

  module _ (tables : Tables) where
    abbrev pub restocked : ShortSellLends → ShortSellBank
    restocked lend = record {
      stock_id = lend.stock_id;
      available_stocks = (tables.available lend.stock_id + lend.stock_quantity) % 2 ^ 32;
    }

    update_bank-EndsIn :
        (lend : ShortSellLends) (w : s.World)
        → s.lendable w lend.stock_id ≡ some (tables.available lend.stock_id)
        → EndsIn
            (λ w' _. w' ≡ (s.save w (bank_row (restocked lend))).0)
            (update_short_sell_bank s lend.stock_id lend.stock_quantity w)
    unfolding update_short_sell_bank read_some pure
    update_bank-EndsIn lend w has =
        bind-EndsIn {P = λ w' n. (w' ≡ w) × (n ≡ tables.available lend.stock_id)} _ _ w
          (rw has (ends_in (refl, refl)))
          (λ n w' (same, count). save-EndsIn _ _ w' (λ _ w'' saved. ends_in (
            saved
            ∙ ap₂
                (λ v k.
                  (s.save v (
                    bank_row (record {
                      stock_id = lend.stock_id;
                      available_stocks = (k + lend.stock_quantity) % 2 ^ 32;
                    }))).0)
                same count)))

    weaken-EndsIn :
        {A : Type 0} {P Q : s.World → A → Type 0} (r : s.World × Option A)
        → ((w : s.World) (a : A) → P w a → Q w a)
        → EndsIn P r
        → EndsIn Q r
    weaken-EndsIn _ k (ends_in p) = ends_in (k _ _ p)

    -- The transaction that takes the stocks of the lend from the user.
    abbrev pub taken_back : s.World → ShortSellLends → Transaction
    taken_back w lend =
        get_transaction_ref (s.clock w) lend.user_id lend.stock_id short_sell 0
          (neg64 lend.stock_quantity) (s.stock w lend.stock_id).current_price 0 0

    save_squared-EndsIn :
        (lend : ShortSellLends) (w : s.World)
        → ((id : ℕ) → s.lendable w id ≡ some (tables.available id))
        → EndsIn
            (λ w' _.
              w'
              ≡ (s.save
                  (s.save
                    (s.save w (transaction_row (taken_back w lend))).0
                    (lend_row (off lend))).0
                  (bank_row (restocked lend))).0)
            (save_squared s lend w)
    unfolding save_squared
    save_squared-EndsIn lend w has = save-EndsIn _ _ w (λ _ w1 e1. save-EndsIn _ _ w1 (λ _ w2 e2.
        let same = e2 ∙ ap (λ v. (s.save v (lend_row (off lend))).0) e1 in
        weaken-EndsIn _ (λ w' _ e. e ∙ ap (λ v. (s.save v (bank_row (restocked lend))).0) same)
          (update_bank-EndsIn lend w2 (
            ap (λ v. s.lendable v lend.stock_id) e2
            ∙ keeps.lends w1 _ lend.stock_id
            ∙ ap (λ v. s.lendable v lend.stock_id) e1
            ∙ keeps.transactions w _ lend.stock_id
            ∙ has lend.stock_id))))

    -- The tables after a lend is squared off.
    abbrev pub next : s.World → ShortSellLends → Tables
    next w lend = after_saves (taken_back (s.begin w) lend) (off lend) (restocked lend) tables

    squared-Holds :
        (lend : ShortSellLends) (w : s.World) (r : s.World × Option (Unit {0}))
        → Holds s lend_at tables w
        → EndsIn
            (λ w' _.
              w'
              ≡ (s.save
                  (s.save
                    (s.save (s.begin w) (transaction_row (taken_back (s.begin w) lend))).0
                    (lend_row (off lend))).0
                  (bank_row (restocked lend))).0)
            r
        → ((end_squared s r).1 ≡ true) × Holds s lend_at (next w lend) (end_squared s r).0
    unfolding end_squared
    squared-Holds lend w _ holds (ends_in {w = w'} e) = (
      reliable.commits w',
      rw e (keeps.commits tables w (taken_back (s.begin w) lend) (off lend) (restocked lend) holds),
    )

    pub round-Holds :
        (lend : ShortSellLends) (w : s.World)
        → Holds s lend_at tables w
        → ((end_squared s (save_squared s lend (s.begin w))).1 ≡ true)
          × Holds s lend_at (next w lend) (end_squared s (save_squared s lend (s.begin w))).0
    round-Holds lend w holds =
        squared-Holds lend w _ holds
          (save_squared-EndsIn lend (s.begin w) (λ id. keeps.begins w id ∙ holds.bank id))
