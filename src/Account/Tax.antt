-- ===== src/Account/Tax.antt =====
-- getTaxPercent, getTaxForBiddingUser and getTaxForAskingUser of models/User.go.
use dalal_street_server.Base.{
  ℕ, ◌/◌, ◌≤◌, not, ◌&&◌, Option, none, some, List, [], ◌∷◌, ◌==◌, leb, if◌then◌else◌, arith,
}
use dalal_street_server.Base.Word.{add64, sub64, mul64, neg64, int_rank}
use dalal_street_server.Account.State.{
  User, Transaction, TransactionSummary, Server, tax, get_transaction_ref,
}

-- TaxBrackets by increasing keys, which `sort.Slice` puts in this order, and MaxTaxPercent.
abbrev pub tax_brackets : List (ℕ × ℕ)
tax_brackets = (0, 0) ∷ (100000, 2) ∷ (500000, 5) ∷ (1000000, 9) ∷ (2000000, 15) ∷ []

abbrev pub max_tax_percent : ℕ
max_tax_percent = 25

-- The loop over the keys; `r` is the rank of the net cash among the int64s.
abbrev pub find_bracket : List (ℕ × ℕ) → ℕ → ℕ
find_bracket [] r = max_tax_percent
find_bracket ((key, percent) ∷ brackets) r =
    if leb r (int_rank key) then percent else find_bracket brackets r

unfoldable pub get_tax_percent : ℕ → ℕ
get_tax_percent net_cash = find_bracket tax_brackets (int_rank net_cash)

-- The cash after `Cash -= tax`, which is only reached for a profit.
unfoldable pub charge : ℕ → User → User
charge due user = if due == 0 then user else record user { cash = sub64 user.cash due }

module _ (s : Server) where
  abbrev pub Summary : Type 0
  Summary = TransactionSummary s.floats.Float

  -- `First(&transactionSummary)` on a fresh summary, which keeps the id 0 if there is none.
  unfoldable pub summary_of : s.World → ℕ → ℕ → Summary
  summary_of w user_id stock = elim (s.find_summary w user_id stock) [
    | none ↦ record {
      id = 0;
      user_id = user_id;
      stock_id = stock;
      stock_quantity = 0;
      price = s.floats.of_uint 0;
    }
    | some found ↦ found
  ]

  -- The tax on a profit.
  unfoldable pub tax_on : s.floats.Float → User → ℕ
  tax_on profit user =
      if s.floats.positive profit
      then mul64 (s.floats.to_uint profit) (get_tax_percent user.total) / 100
      else 0

  unfoldable pub tax_transaction : s.World → ℕ → ℕ → ℕ → Option Transaction
  tax_transaction w user_id stock due =
      if due == 0
      then none
      else some (get_transaction_ref (s.clock w) user_id stock tax 0 0 0 0 (neg64 due))

  -- getTaxForBiddingUser, with the user after it.
  unfoldable pub tax_for_bidding_user :
      s.World → ℕ → ℕ → ℕ → User → Summary × Option Transaction × User
  tax_for_bidding_user w stock quantity price user =
      let summary = summary_of w user.id stock in
      let bought = s.floats.of_uint quantity in
      let paid = s.floats.of_uint price in
      let held = s.floats.of_int summary.stock_quantity in
      let owed = s.floats.negate held in
      let is_short = s.floats.positive owed in
      let taxable = s.floats.min bought owed in
      let profit = s.floats.times taxable (s.floats.minus summary.price paid) in
      let is_first = summary.id == 0 in
      let due = if not is_first && is_short then tax_on profit user else 0 in
      let bought_back : Summary = record summary {
        stock_quantity = add64 summary.stock_quantity quantity;
        price = if s.floats.equal taxable owed then paid else summary.price;
      } in
      let bought_more : Summary = record summary {
        stock_quantity = add64 summary.stock_quantity quantity;
        price =
            s.floats.over
              (s.floats.plus (s.floats.times held summary.price) (s.floats.times bought paid))
              (s.floats.plus held bought);
      } in
      let bought_first : Summary = record summary { stock_quantity = quantity; price = paid } in
      let updated =
        if is_first then bought_first else if is_short then bought_back else bought_more in
      (updated, tax_transaction w user.id stock due, charge due user)

  -- getTaxForAskingUser, with the user after it.
  unfoldable pub tax_for_asking_user :
      s.World → ℕ → ℕ → ℕ → User → Summary × Option Transaction × User
  tax_for_asking_user w stock quantity price user =
      let summary = summary_of w user.id stock in
      let sold = s.floats.of_uint quantity in
      let paid = s.floats.of_uint price in
      let held = s.floats.of_int summary.stock_quantity in
      let owns = s.floats.positive held in
      let taxable = s.floats.min sold held in
      let profit = s.floats.times taxable (s.floats.minus paid summary.price) in
      let is_first = summary.id == 0 in
      let due = if not is_first && owns then tax_on profit user else 0 in
      let sold_own : Summary = record summary {
        stock_quantity = sub64 summary.stock_quantity quantity;
        price = if s.floats.equal taxable held then paid else summary.price;
      } in
      let sold_more : Summary = record summary {
        stock_quantity = sub64 summary.stock_quantity quantity;
        price =
            s.floats.over
              (s.floats.minus (s.floats.times held summary.price) (s.floats.times sold paid))
              (s.floats.minus held sold);
      } in
      let sold_first : Summary = record summary { stock_quantity = neg64 quantity; price = paid } in
      let updated = if is_first then sold_first else if owns then sold_own else sold_more in
      (updated, tax_transaction w user.id stock due, charge due user)

-- A user with more net cash is never taxed at a lower rate.
pub get_tax_percent-increases :
    (a b : ℕ) → int_rank a ≤ int_rank b → get_tax_percent a ≤ get_tax_percent b
unfolding get_tax_percent
get_tax_percent-increases a b h = ground arith
