-- ===== src/Account/Exchange/Success.antt =====
-- A purchase from the exchange on a database that fails at nothing.
use dalal_street_server.Base.{
  ℕ, ◌≤◌, ◌<◌, ◌≡◌, refl, sym, subst, true, false, Option, ltb, ◌==◌, split_if, arith,
}
use dalal_street_server.Base.Word.{word_mod, mul64}
use dalal_street_server.Stock.{Stock}
use dalal_street_server.Account.State.{User, Transaction, Server, get_transaction_ref}
use dalal_street_server.Account.Yields.{Ends, ends, bind-Ends, get-Ends, pure-Ends}
use dalal_street_server.Account.Success.{IsReliable, Any, committed-Ends, save-Ends, save_some-Ends}
use dalal_street_server.Account.Exchange.Buy.{
  bought, Purchase, buy_limit, stocks_removed, save_purchase, end_purchase, purchase, buy_locked,
  buy_from_exchange,
}
use dalal_street_server.Account.Exchange.Outcome.{
  all_stocks, IsMoved, BuyOutcome, refused, moved, buy_from_exchange-BuyOutcome,
}

module _ (s : Server) (reliable : IsReliable s) where
  save_purchase-Ends :
      (stock_id removed price : ℕ) (t : Transaction) (stock : Stock s.floats.Float) (user : User)
      (w : s.World)
      → Ends Any (save_purchase s stock_id removed price t stock user w)
  unfolding save_purchase
  save_purchase-Ends stock_id removed price t stock user w = get-Ends _ _ w (
      save-Ends s reliable _ _ _ λ _ w1. save-Ends s reliable _ _ _ λ _ w2.
        bind-Ends _ _ _ (save_some-Ends s reliable _ _ w2) λ _ w3 _.
          save-Ends s reliable _ _ _ λ _ _.
            save-Ends s reliable _ _ _
              λ _ w5. bind-Ends _ _ _ (committed-Ends s reliable w5) λ _ w6 _. pure-Ends _ w6 tt)

  -- The purchase reports a transaction of `n` stocks.
  abbrev IsReported : ℕ → Purchase s → Type 0
  IsReported n r = (t : Transaction) × (r.result ≡ bought t) × (t.stock_quantity ≡ n)

  end_purchase-IsReported :
      (user : User) (stock stock' : Stock s.floats.Float) (t : Transaction)
      (r : s.World × Option User)
      → Ends Any r
      → IsReported t.stock_quantity (end_purchase s user stock stock' t r)
  unfolding end_purchase
  end_purchase-IsReported user stock stock' t _ (ends p) = (t, refl, refl)

  reported :
      (user_id stock_id quantity : ℕ) (user : User) (stock : Stock s.floats.Float) (w : s.World)
      → stock.is_bankrupt ≡ false
      → quantity ≤ buy_limit
      → s.lock w user_id ≡ true
      → 1 ≤ stocks_removed s quantity stock
      → mul64 stock.current_price (stocks_removed s quantity stock) ≤ user.cash
      → IsReported
          (stocks_removed s quantity stock)
          (buy_from_exchange s user_id stock_id quantity user stock w)
  unfolding buy_from_exchange buy_locked purchase get_transaction_ref
  reported user_id stock_id quantity user stock w solvent small locked some_left covered =
      let removed = stocks_removed s quantity stock in
      split_if (IsReported removed) stock.is_bankrupt (λ e. absurd (ground arith))
        (λ _.
          split_if (IsReported removed) (ltb buy_limit quantity) (λ e. absurd (ground arith))
            (λ _.
              split_if (IsReported removed) (s.lock w user_id)
                (λ _.
                  split_if (IsReported removed) (removed == 0) (λ e. absurd (ground arith))
                    (λ _.
                      split_if (IsReported removed)
                        (ltb user.cash (mul64 stock.current_price removed))
                        (λ e. absurd (ground arith))
                        (λ _. end_purchase-IsReported user stock _ _ _ (
                          save_purchase-Ends stock_id removed stock.current_price _ _ _
                            (s.begin w)))))
                (λ e. absurd (ground arith))))

  -- The purchase reports a transaction of `n` stocks, which are moved and paid.
  abbrev pub IsBought : ℕ → ℕ → User → Stock s.floats.Float → s.World → ℕ → Purchase s → Type 0
  IsBought stock_id quantity user stock w n r =
      (t : Transaction) × (r.result ≡ bought t) × IsMoved s stock_id quantity user stock w t n r

  reported-IsBought :
      (stock_id quantity n : ℕ) (user : User) (stock : Stock s.floats.Float) (w : s.World)
      (r : Purchase s)
      → BuyOutcome s stock_id quantity user stock w r
      → IsReported n r
      → IsBought stock_id quantity user stock w n r
  reported-IsBought stock_id quantity n user stock w r (refused e failure same_user same_stock)
        (t, report, count) =
      absurd cc
  reported-IsBought stock_id quantity n user stock w r (moved t removed result m)
        (t', report, count) =
      let same : t ≡ t' = cc in
      let all : removed ≡ n = cc in
      (t, result, subst (λ k. IsMoved s stock_id quantity user stock w t k r) all m)

  -- For a user and a stock whose numbers fit their types, on a database in which every save and
  -- commit succeeds: if the stock is not bankrupt, the quantity is at least 1 and within the limit,
  -- the user can be locked, and `n` is the lesser of the quantity and the stocks in the exchange, of
  -- which there is one, then PerformBuyFromExchangeTransaction reports a transaction of `n` stocks at
  -- the current price, if the user's cash covers it: it takes `n` stocks from the exchange to the
  -- market and the price and the tax that is due from the user.
  pub buy_from_exchange-IsBought :
      (user_id stock_id quantity n : ℕ) (user : User) (stock : Stock s.floats.Float) (w : s.World)
      → user.cash < word_mod
      → all_stocks s stock < word_mod
      → stock.is_bankrupt ≡ false
      → (1 ≤ quantity) × (quantity ≤ buy_limit)
      → s.lock w user_id ≡ true
      → 1 ≤ stock.stocks_in_exchange
      → (n ≤ quantity) × (n ≤ stock.stocks_in_exchange)
      → (n < quantity → n ≡ stock.stocks_in_exchange)
      → mul64 stock.current_price n ≤ user.cash
      → IsBought stock_id quantity user stock w n
          (buy_from_exchange s user_id stock_id quantity user stock w)
  unfolding stocks_removed
  buy_from_exchange-IsBought user_id stock_id quantity n user stock w cash_fits stocks_fit solvent
        (positive, small) locked left (within, there) least covered =
      let all : stocks_removed s quantity stock ≡ n = ground (arith, least) in
      let report : IsReported n (buy_from_exchange s user_id stock_id quantity user stock w) =
        subst (λ k. IsReported k (buy_from_exchange s user_id stock_id quantity user stock w)) all
          (reported user_id stock_id quantity user stock w solvent small locked (ground arith)
            (subst (λ k. mul64 stock.current_price k ≤ user.cash) (sym all) covered)) in
      reported-IsBought stock_id quantity n user stock w _
        (buy_from_exchange-BuyOutcome s stock_id quantity user stock cash_fits stocks_fit user_id w)
        report
