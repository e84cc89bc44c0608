-- ===== src/Account/Mortgage/Bank.antt =====
-- mortgageStocksAction and retrieveStocksAction of models/MortgageDetail.go. Quantities and totals
-- are int64 patterns.
use dalal_street_server.Base.{ℕ, ◌/◌, Option, none, some, ltb, ◌==◌, if◌then◌else◌}
use dalal_street_server.Base.Word.{add64, sub64, mul64, neg64, is_negative, int_rank}
use dalal_street_server.Account.State.{User, Server}

-- MORTGAGE_RETRIEVE_RATE and MORTGAGE_DEPOSIT_RATE of models/Constants.go.
abbrev pub mortgage_retrieve_rate : ℕ
mortgage_retrieve_rate = 90

abbrev pub mortgage_deposit_rate : ℕ
mortgage_deposit_rate = 80

-- `query_failed` and `save_failed` stand for errors of the database.
pub data MortgageError : Type 0 where
  stock_bankrupt no_user query_failed not_enough_stocks not_enough_cash : MortgageError
  invalid_retrieve_price save_failed : MortgageError

-- The result of an action: an error, or the total of the transaction.
pub data Action : Type 0 where
  refuse : MortgageError → Action
  settle : ℕ → Action

-- Go's quotient of an int64 by 100, which is rounded towards 0.
unfoldable pub percent : ℕ → ℕ
percent n = if is_negative n then neg64 (neg64 n / 100) else n / 100

unfoldable pub mortgage_total : ℕ → ℕ → ℕ
mortgage_total price quantity = percent (mul64 (mul64 price quantity) mortgage_deposit_rate)

unfoldable pub retrieve_total : ℕ → ℕ → ℕ
retrieve_total price quantity =
    percent (mul64 (mul64 (neg64 price) quantity) mortgage_retrieve_rate)

-- The table MortgageDetails: the stocks in a row of a user, a stock and a price, where none is an
-- error and some none a missing row; and the statements that insert, update and delete a row, which
-- give none if they fail.
pub record MortgageDetails (s : Server) : Type 0 where
  pub stocks_in_bank : s.World → ℕ → ℕ → ℕ → Option (Option ℕ)
  pub insert_row : s.World → ℕ → ℕ → ℕ → ℕ → s.World × Option (Unit {0})
  pub update_row : s.World → ℕ → ℕ → ℕ → ℕ → s.World × Option (Unit {0})
  pub delete_row : s.World → ℕ → ℕ → ℕ → s.World × Option (Unit {0})

module _ (s : Server) (bank : MortgageDetails s) where
  -- `if err != nil` after a statement.
  abbrev pub end_action : ℕ → s.World × Option (Unit {0}) → s.World × Action
  end_action total (w, none) = (w, refuse query_failed)
  end_action total (w, some _) = (w, settle total)

  -- The row that is changed; a missing one counts as a row of 0 stocks.
  unfoldable pub add_to_bank : ℕ → ℕ → ℕ → ℕ → Option (Option ℕ) → s.World → s.World × Action
  add_to_bank user_id stock_id quantity price none w = (w, refuse query_failed)
  add_to_bank user_id stock_id quantity price (some none) w =
      end_action (mortgage_total price quantity) (bank.insert_row w user_id stock_id quantity price)
  add_to_bank user_id stock_id quantity price (some (some n)) w =
      end_action (mortgage_total price quantity) (
        if n == 0
        then bank.insert_row w user_id stock_id quantity price
        else bank.update_row w user_id stock_id (add64 n quantity) price)

  unfoldable pub mortgage_owned : User → ℕ → ℕ → ℕ → Option ℕ → s.World → s.World × Action
  mortgage_owned user stock_id quantity price none w = (w, refuse query_failed)
  mortgage_owned user stock_id quantity price (some owned) w =
      if ltb (int_rank owned) (int_rank quantity)
      then (w, refuse not_enough_stocks)
      else add_to_bank user.id stock_id quantity price
          (bank.stocks_in_bank w user.id stock_id price) w

  unfoldable pub mortgage_stocks_action : User → ℕ → ℕ → ℕ → s.World → s.World × Action
  mortgage_stocks_action user stock_id quantity price w =
      mortgage_owned user stock_id quantity price (s.stock_count w user.id stock_id) w

  unfoldable pub take_from_bank : User → ℕ → ℕ → ℕ → ℕ → s.World → s.World × Action
  take_from_bank user stock_id quantity price n w =
      if ltb (int_rank user.cash) (int_rank (mul64 quantity price))
      then (w, refuse not_enough_cash)
      else if ltb (int_rank quantity) (int_rank n)
      then end_action (retrieve_total price quantity)
          (bank.update_row w user.id stock_id (sub64 n quantity) price)
      else if quantity == n
      then end_action (retrieve_total price quantity) (bank.delete_row w user.id stock_id price)
      else (w, refuse not_enough_stocks)

  unfoldable pub retrieve_found : User → ℕ → ℕ → ℕ → Option (Option ℕ) → s.World → s.World × Action
  retrieve_found user stock_id quantity price none w = (w, refuse query_failed)
  retrieve_found user stock_id quantity price (some none) w = (w, refuse invalid_retrieve_price)
  retrieve_found user stock_id quantity price (some (some n)) w =
      take_from_bank user stock_id quantity price n w

  unfoldable pub retrieve_stocks_action : User → ℕ → ℕ → ℕ → s.World → s.World × Action
  retrieve_stocks_action user stock_id quantity price w =
      retrieve_found user stock_id quantity price (bank.stocks_in_bank w user.id stock_id price) w
