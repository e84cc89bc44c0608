-- ===== src/Account/Mortgage/Outcome.antt =====
-- What a mortgage or a retrieval comes to.
use dalal_street_server.Base.{
  ℕ, ◌≤◌, ◌≡◌, refl, true, false, Option, none, some, ltb, ◌==◌, if◌then◌else◌, split_if, arith,
}
use dalal_street_server.Base.Word.{add64, sub64, mul64, neg64, is_negative, int_rank}
use dalal_street_server.Account.State.{User, Transaction, Server, get_transaction_ref}
use dalal_street_server.Account.Mortgage.Bank.{
  MortgageError, stock_bankrupt, no_user, query_failed, not_enough_stocks, not_enough_cash,
  invalid_retrieve_price, save_failed, Action, refuse, settle, MortgageDetails, mortgage_total,
  retrieve_total, end_action, add_to_bank, mortgage_owned, mortgage_stocks_action, take_from_bank,
  retrieve_found, retrieve_stocks_action,
}
use dalal_street_server.Account.Mortgage.Perform.{
  failed, mortgaged, MortgageResult, end_mortgage, after_action, mortgage_locked, perform_mortgage,
}

module _ (s : Server) (bank : MortgageDetails s) where
  -- A mortgage of `quantity` stocks that the user owns, for this total.
  pub record IsMortgage (user : User) (stock_id quantity price : ℕ) (w : s.World) (total : ℕ)
      : Type 0 where
    pub owned :
        (n : ℕ) × (s.stock_count w user.id stock_id ≡ some n) × (int_rank quantity ≤ int_rank n)
    pub paid : total ≡ mortgage_total price quantity

  -- A retrieval of `quantity` stocks that the bank has, for this total.
  pub record IsRetrieval (user : User) (stock_id quantity price : ℕ) (w : s.World) (total : ℕ)
      : Type 0 where
    pub banked :
        (n : ℕ) × (bank.stocks_in_bank w user.id stock_id price ≡ some (some n))
        × (int_rank quantity ≤ int_rank n)
    pub covered : int_rank (mul64 quantity price) ≤ int_rank user.cash
    pub paid : total ≡ retrieve_total price quantity

  -- An action that settles does so with a total that satisfies `P`.
  data Settles (P : ℕ → Type 0) : s.World × Action → Type 0 where
    refuses : {w : s.World} (e : MortgageError) → Settles P (w, refuse e)
    settles : {w : s.World} (total : ℕ) → P total → Settles P (w, settle total)

  end_action-Settles :
      (P : ℕ → Type 0) (total : ℕ) (r : s.World × Option (Unit {0}))
      → P total
      → Settles P (end_action s bank total r)
  end_action-Settles P total (w, none) p = refuses query_failed
  end_action-Settles P total (w, some _) p = settles total p

  module _ (user : User) (stock_id quantity price : ℕ) (w : s.World) where
    add_to_bank-Settles :
        (row : Option (Option ℕ))
        → Settles
            (λ t. t ≡ mortgage_total price quantity)
            (add_to_bank s bank user.id stock_id quantity price row w)
    unfolding add_to_bank
    add_to_bank-Settles none = refuses query_failed
    add_to_bank-Settles (some none) =
        end_action-Settles _ _ (bank.insert_row w user.id stock_id quantity price) refl
    add_to_bank-Settles (some (some n)) =
        end_action-Settles _ _
          (if n == 0
            then bank.insert_row w user.id stock_id quantity price
            else bank.update_row w user.id stock_id (add64 n quantity) price)
          refl

    weaken-Settles :
        {P Q : ℕ → Type 0} {r : s.World × Action}
        → ((t : ℕ) → P t → Q t)
        → Settles P r
        → Settles Q r
    weaken-Settles k (refuses e) = refuses e
    weaken-Settles k (settles t p) = settles t (k t p)

    mortgage_owned-Settles :
        (owned : Option ℕ)
        → s.stock_count w user.id stock_id ≡ owned
        → Settles
            (IsMortgage user stock_id quantity price w)
            (mortgage_owned s bank user stock_id quantity price owned w)
    unfolding mortgage_owned
    mortgage_owned-Settles none e = refuses query_failed
    mortgage_owned-Settles (some n) e =
        split_if (Settles _) (ltb (int_rank n) (int_rank quantity)) (λ _. refuses not_enough_stocks)
          (λ h.
            weaken-Settles (λ t p. record { owned = (n, e, ground arith); paid = p })
              (add_to_bank-Settles (bank.stocks_in_bank w user.id stock_id price)))

    take_from_bank-Settles :
        (n : ℕ)
        → bank.stocks_in_bank w user.id stock_id price ≡ some (some n)
        → Settles
            (IsRetrieval user stock_id quantity price w)
            (take_from_bank s bank user stock_id quantity price n w)
    unfolding take_from_bank
    take_from_bank-Settles n e =
        split_if (Settles _) (ltb (int_rank user.cash) (int_rank (mul64 quantity price)))
          (λ _. refuses not_enough_cash)
          (λ rich.
            split_if (Settles _) (ltb (int_rank quantity) (int_rank n))
              (λ h.
                end_action-Settles _ _ (bank.update_row w user.id stock_id (sub64 n quantity) price)
                  (record { banked = (n, e, ground arith); covered = ground arith; paid = refl }))
              (λ _.
                split_if (Settles _) (quantity == n)
                  (λ h.
                    end_action-Settles _ _ (bank.delete_row w user.id stock_id price) (record {
                      banked = (n, e, ground arith);
                      covered = ground arith;
                      paid = refl;
                    }))
                  (λ _. refuses not_enough_stocks)))

    retrieve_found-Settles :
        (row : Option (Option ℕ))
        → bank.stocks_in_bank w user.id stock_id price ≡ row
        → Settles
            (IsRetrieval user stock_id quantity price w)
            (retrieve_found s bank user stock_id quantity price row w)
    unfolding retrieve_found
    retrieve_found-Settles none e = refuses query_failed
    retrieve_found-Settles (some none) e = refuses invalid_retrieve_price
    retrieve_found-Settles (some (some n)) e = take_from_bank-Settles n e

  module _ (user_id stock_id quantity retrieve_price : ℕ) (user : User) (w : s.World) where
    -- The rule for the sign of the quantity.
    abbrev pub Rule : ℕ → ℕ → Type 0
    Rule price total =
        (is_negative quantity ≡ true
          → (price ≡ (s.stock (s.begin w) stock_id).current_price)
            × IsMortgage user stock_id (neg64 quantity) price (s.begin w) total)
        × (is_negative quantity ≡ false
            → (price ≡ retrieve_price) × IsRetrieval user stock_id quantity price (s.begin w) total)

    pub data MortgageOutcome : MortgageResult s.World → Type 0 where
      refused :
          {r : MortgageResult s.World} (e : MortgageError)
          → r.result ≡ failed e
          → r.user ≡ user
          → MortgageOutcome r
      done :
          {r : MortgageResult s.World} (t : Transaction)
          → r.result ≡ mortgaged t
          → t.stock_quantity ≡ quantity
          → r.user ≡ record user { cash = add64 user.cash t.total }
          → Rule t.price t.total
          → MortgageOutcome r

    end_mortgage-Outcome :
        (t : Transaction) (r : s.World × Option (Unit {0}))
        → t.stock_quantity ≡ quantity
        → Rule t.price t.total
        → MortgageOutcome
            (end_mortgage s bank user (record user { cash = add64 user.cash t.total }) t r)
    unfolding end_mortgage
    end_mortgage-Outcome t (w', none) e rule = refused save_failed refl refl
    end_mortgage-Outcome t (w', some _) e rule = done t refl e refl rule

    after_action-Outcome :
        (price : ℕ) (r : s.World × Action)
        → Settles (Rule price) r
        → MortgageOutcome (after_action s bank user_id stock_id quantity price user r)
    unfolding after_action get_transaction_ref
    after_action-Outcome price _ (refuses e) = refused e refl refl
    after_action-Outcome price _ (settles total rule) = end_mortgage-Outcome _ _ refl rule

    -- PerformMortgageTransaction either gives an error and leaves the cash as it was, or makes a
    -- transaction for the quantity and adds its total to the cash. Then a quantity below 0 is mortgaged:
    -- the user owns that many stocks and is paid 80 percent of the current price; any other is
    -- retrieved: the bank has that many stocks at the given price, the cash covers this price, and 90
    -- percent of it are taken.
    pub perform_mortgage-MortgageOutcome :
        MortgageOutcome (perform_mortgage s bank user_id stock_id quantity retrieve_price user w)
    unfolding perform_mortgage mortgage_locked mortgage_stocks_action retrieve_stocks_action
    perform_mortgage-MortgageOutcome =
        split_if MortgageOutcome (s.stock w stock_id).is_bankrupt
          (λ _. refused stock_bankrupt refl refl)
          (λ _.
            split_if MortgageOutcome (s.lock w user_id)
              (λ _.
                split_if MortgageOutcome (is_negative quantity)
                  (λ neg. after_action-Outcome _ _ (
                    weaken-Settles user stock_id quantity retrieve_price w
                      (λ t p. ((λ _. (refl, p)), (λ e. absurd (ground arith))))
                      (mortgage_owned-Settles user stock_id (neg64 quantity) _ (s.begin w) _ refl)))
                  (λ pos. after_action-Outcome _ _ (
                    weaken-Settles user stock_id quantity retrieve_price w
                      (λ t p. ((λ e. absurd (ground arith)), (λ _. (refl, p))))
                      (retrieve_found-Settles user stock_id quantity retrieve_price (s.begin w) _
                        refl))))
              (λ _. refused no_user refl refl))
