-- ===== src/Account/Exchange/Outcome.antt =====
-- What a purchase from the exchange comes to.
use dalal_street_server.Base.{
  ℕ, ◌+◌, ◌-◌, ◌≤◌, ◌<◌, ◌≡◌, refl, ap, not, ◌&&◌, if◌then◌else◌, Option, none, some, List, ltb,
  ◌==◌, split_if, Option-cases, inl, inr, arith,
}
use dalal_street_server.Base.Word.{word_mod, add64, sub64, mul64, neg64, add64_exact, sub64_exact}
use dalal_street_server.Stock.{Stock}
use dalal_street_server.Account.State.{User, Transaction, Server, get_transaction_ref}
use dalal_street_server.Account.Tax.{charge, tax_on, summary_of, tax_for_bidding_user}
use dalal_street_server.Account.Yields.{
  Yields, stopped, yielded, bind-Yields, get-Yields, pure-Yields,
}
use dalal_street_server.Account.Exchange.Buy.{
  BuyError, stock_bankrupt, buy_limit_exceeded, no_user, not_enough_stocks, not_enough_cash,
  save_failed, failed, bought, Purchase, buy_limit, stocks_removed, to_market, save_purchase,
  end_purchase, purchase, buy_locked, buy_from_exchange,
}

module _ (s : Server) where
  -- Stocks of the stock in the exchange and in the market.
  abbrev pub all_stocks : Stock s.floats.Float → ℕ
  all_stocks stock = stock.stocks_in_exchange + stock.stocks_in_market

  -- The tax on a purchase of `removed` stocks at `price`: on the profit of those that end a short
  -- position, if the user has had the stock.
  abbrev pub tax_due : s.World → ℕ → ℕ → ℕ → User → ℕ
  tax_due w stock_id removed price user = elim (s.find_summary w user.id stock_id) [
    | none ↦ 0
    | some summary ↦
        let owed = s.floats.negate (s.floats.of_int summary.stock_quantity) in
        if not (summary.id == 0) && s.floats.positive owed
        then tax_on s
            (s.floats.times (s.floats.min (s.floats.of_uint removed) owed)
              (s.floats.minus summary.price (s.floats.of_uint price)))
            user
        else 0
  ]

  module _ (stock_id quantity : ℕ) (user : User) (stock : Stock s.floats.Float) (w : s.World) where
    -- The stocks of `t` are moved from the exchange to the market, and the user has paid for them.
    pub record IsMoved (t : Transaction) (removed : ℕ) (r : Purchase s) : Type 0 where
      pub range : (1 ≤ removed) × (removed ≤ quantity) × (removed ≤ buy_limit)
      pub same : (t.stock_quantity ≡ removed) × (t.price ≡ stock.current_price)
      pub covered : mul64 stock.current_price removed ≤ user.cash
      pub cash : r.user ≡ record user {
        cash =
            sub64
              (user.cash - mul64 stock.current_price removed)
              (tax_due (s.begin w) stock_id removed stock.current_price user);
      }
      pub left : r.stock.stocks_in_exchange + removed ≡ stock.stocks_in_exchange
      pub kept : all_stocks r.stock ≡ all_stocks stock

    pub data BuyOutcome : Purchase s → Type 0 where
      refused :
          {r : Purchase s} (e : BuyError)
          → r.result ≡ failed e
          → r.user ≡ user
          → r.stock ≡ stock
          → BuyOutcome r
      moved :
          {r : Purchase s} (t : Transaction) (removed : ℕ)
          → r.result ≡ bought t
          → IsMoved t removed r
          → BuyOutcome r

  charge_lem :
      (due : ℕ) (user : User)
      → user.cash < word_mod
      → charge due user ≡ record user { cash = sub64 user.cash due }
  unfolding charge
  charge_lem due user fits =
      split_if (λ u. u ≡ record user { cash = sub64 user.cash due }) (due == 0)
        (λ e.
          let same : user.cash ≡ sub64 user.cash due =
            let zero : due ≡ 0 = ground arith in
            omega (arith, sub64_exact user.cash due fits (omega arith)) in
          ap (λ c. record user { cash = c }) same)
        (λ _. refl)

  taxed_lem :
      (w : s.World) (stock_id removed price : ℕ) (user : User)
      → user.cash < word_mod
      → (tax_for_bidding_user s w stock_id removed price user).2
        ≡ record user { cash = sub64 user.cash (tax_due w stock_id removed price user) }
  unfolding tax_for_bidding_user summary_of
  taxed_lem w stock_id removed price user fits =
      elim (Option-cases (s.find_summary w user.id stock_id)) [
        | inl e ↦ rw (tax_due, tax_for_bidding_user, summary_of, e) (charge_lem 0 user fits)
        | inr (summary, e) ↦
            rw (tax_due, tax_for_bidding_user, summary_of, e) (charge_lem _ user fits)
      ]

  save_purchase-Yields :
      (stock_id removed price : ℕ) (t : Transaction) (stock : Stock s.floats.Float) (user : User)
      (w : s.World)
      → user.cash < word_mod
      → Yields
          (λ u. u ≡ record user { cash = sub64 user.cash (tax_due w stock_id removed price user) })
          (save_purchase s stock_id removed price t stock user w)
  unfolding save_purchase
  save_purchase-Yields stock_id removed price t stock user w fits = get-Yields _ _ w (
      bind-Yields _ _ _ λ _ _. bind-Yields _ _ _ λ _ _. bind-Yields _ _ _ λ _ _.
        bind-Yields _ _ _ λ _ _. bind-Yields _ _ _ λ _ _.
          bind-Yields _ _ _ λ _ w6. pure-Yields _ w6 (taxed_lem w stock_id removed price user fits))

  paid_exact :
      (cash cost : ℕ) → cash < word_mod → cost ≤ cash → add64 cash (neg64 cost) ≡ cash - cost
  unfolding add64 neg64
  paid_exact cash cost h k = omega arith

  module _ (stock_id quantity : ℕ) (user : User) (stock : Stock s.floats.Float) where
    removed_in_range :
        (stocks_removed s quantity stock ≤ quantity)
        × (stocks_removed s quantity stock ≤ stock.stocks_in_exchange)
    unfolding stocks_removed
    removed_in_range = ground arith

    module _ (cash_fits : user.cash < word_mod) (stocks_fit : all_stocks stock < word_mod) where
      -- The user after the payment and the taxes.
      abbrev HasPaid : s.World → ℕ → User → Type 0
      HasPaid w removed u = u ≡ record user {
        cash =
            sub64 (user.cash - mul64 stock.current_price removed)
              (tax_due (s.begin w) stock_id removed stock.current_price user);
      }

      end_purchase-Outcome :
          (removed : ℕ) (t : Transaction) (now : List ℕ) (w : s.World) (r : s.World × Option User)
          → (1 ≤ removed) × (removed ≤ quantity) × (removed ≤ buy_limit)
          → removed ≤ stock.stocks_in_exchange
          → (t.stock_quantity ≡ removed) × (t.price ≡ stock.current_price)
          → mul64 stock.current_price removed ≤ user.cash
          → Yields (HasPaid w removed) r
          → BuyOutcome stock_id quantity user stock w
              (end_purchase s user stock (to_market s removed now stock) t r)
      unfolding end_purchase
      end_purchase-Outcome removed t now w _ range there same covered stopped =
          refused save_failed refl refl refl
      end_purchase-Outcome removed t now w _ range there same covered (yielded e) =
          moved t removed refl (record {
            range = range;
            same = same;
            covered = covered;
            cash = e;
            left = omega (arith, sub64_exact stock.stocks_in_exchange removed (omega arith) there);
            kept = omega (
              arith,
              sub64_exact stock.stocks_in_exchange removed (omega arith) there,
              add64_exact stock.stocks_in_market removed (omega arith),
            );
          })

      save_purchase-HasPaid :
          (removed : ℕ) (t : Transaction) (stock' : Stock s.floats.Float) (w : s.World)
          → mul64 stock.current_price removed ≤ user.cash
          → Yields (HasPaid w removed) (
              save_purchase s stock_id removed stock.current_price t stock'
                (record user { cash = add64 user.cash (neg64 (mul64 stock.current_price removed)) })
                (s.begin w))
      unfolding tax_on
      save_purchase-HasPaid removed t stock' w enough =
          rw (paid_exact user.cash (mul64 stock.current_price removed) cash_fits enough) (
            save_purchase-Yields stock_id removed stock.current_price t stock'
              (record user { cash = user.cash - mul64 stock.current_price removed }) (s.begin w)
              (omega arith))

      buy_locked-Outcome :
          (user_id : ℕ) (w : s.World)
          → quantity ≤ buy_limit
          → BuyOutcome stock_id quantity user stock w
              (buy_locked s user_id stock_id quantity user stock w)
      unfolding buy_locked purchase get_transaction_ref
      buy_locked-Outcome user_id w small =
          let removed = stocks_removed s quantity stock in
          split_if (BuyOutcome stock_id quantity user stock w) (removed == 0)
            (λ _. refused not_enough_stocks refl refl refl)
            (λ some_left.
              split_if (BuyOutcome stock_id quantity user stock w)
                (ltb user.cash (mul64 stock.current_price removed))
                (λ _. refused not_enough_cash refl refl refl)
                (λ covered.
                  let enough : mul64 stock.current_price removed ≤ user.cash = ground arith in
                  end_purchase-Outcome removed _ (s.clock w) w _
                    (ground arith, removed_in_range.0, omega (arith, removed_in_range))
                    removed_in_range.1 (refl, refl) enough
                    (save_purchase-HasPaid removed _ _ w enough)))

      -- For a user and a stock whose numbers fit their types, PerformBuyFromExchangeTransaction either
      -- gives an error and leaves the user and the stock as they were, whatever save or commit has
      -- failed; or it moves at least one stock, at most the quantity asked for and the limit, from the
      -- exchange to the market, where the sum of both stays the same, and takes the price of what is
      -- moved, which the user's cash covers, and the tax that is due on the stocks that end a short
      -- position, the summary of the user read as the database transaction begins, from the user's
      -- cash, and nothing else. The subtraction of the tax wraps round.
      pub buy_from_exchange-BuyOutcome :
          (user_id : ℕ) (w : s.World)
          → BuyOutcome stock_id quantity user stock w
              (buy_from_exchange s user_id stock_id quantity user stock w)
      unfolding buy_from_exchange
      buy_from_exchange-BuyOutcome user_id w =
          split_if (BuyOutcome stock_id quantity user stock w) stock.is_bankrupt
            (λ _. refused stock_bankrupt refl refl refl)
            (λ _.
              split_if (BuyOutcome stock_id quantity user stock w) (ltb buy_limit quantity)
                (λ _. refused buy_limit_exceeded refl refl refl)
                (λ small.
                  split_if (BuyOutcome stock_id quantity user stock w) (s.lock w user_id)
                    (λ _. buy_locked-Outcome user_id w (ground arith))
                    (λ _. refused no_user refl refl refl)))
