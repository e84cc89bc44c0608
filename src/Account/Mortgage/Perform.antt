-- ===== src/Account/Mortgage/Perform.antt =====
-- PerformMortgageTransaction.
use dalal_street_server.Base.{ℕ, Option, none, some, if◌then◌else◌}
use dalal_street_server.Base.Word.{add64, neg64, is_negative}
use dalal_street_server.Account.State.{
  User, Transaction, Server, user_row, transaction_row, mortgage, get_transaction_ref,
}
use dalal_street_server.Account.Tx.{Tx, ◌>>=◌, committed}
use dalal_street_server.Account.Mortgage.Bank.{
  MortgageError, stock_bankrupt, no_user, save_failed, Action, refuse, settle, MortgageDetails,
  mortgage_stocks_action, retrieve_stocks_action,
}

pub data Mortgaged : Type 0 where
  failed : MortgageError → Mortgaged
  mortgaged : Transaction → Mortgaged

pub record MortgageResult (World : Type 0) : Type 0 where
  pub world : World
  pub user : User
  pub result : Mortgaged

module _ (s : Server) (bank : MortgageDetails s) where
  abbrev pub mortgage_fails : MortgageError → User → s.World → MortgageResult s.World
  mortgage_fails e user w = record { world = w; user = user; result = failed e }

  unfoldable pub save_mortgage : Transaction → User → Tx s.World (Unit {0})
  save_mortgage t user = do
    _ ← (λ w. s.save w (transaction_row t))
    _ ← (λ w. s.save w (user_row user))
    committed s

  -- errorHelper puts the cash back.
  unfoldable pub end_mortgage :
      User → User → Transaction → s.World × Option (Unit {0}) → MortgageResult s.World
  end_mortgage old user t (w, none) = mortgage_fails save_failed old (s.rollback w)
  end_mortgage old user t (w, some _) = record { world = w; user = user; result = mortgaged t }

  unfoldable pub after_action : ℕ → ℕ → ℕ → ℕ → User → s.World × Action → MortgageResult s.World
  after_action user_id stock_id quantity price user (w, refuse e) =
      mortgage_fails e user (s.rollback w)
  after_action user_id stock_id quantity price user (w, settle total) =
      let t = get_transaction_ref (s.clock w) user_id stock_id mortgage 0 quantity price 0 total in
      let user' : User = record user { cash = add64 user.cash total } in
      end_mortgage user user' t (save_mortgage t user' w)

  -- A quantity below 0 is mortgaged at the current price, any other is retrieved.
  unfoldable pub mortgage_locked : ℕ → ℕ → ℕ → ℕ → User → s.World → MortgageResult s.World
  mortgage_locked user_id stock_id quantity retrieve_price user w =
      let price = (s.stock w stock_id).current_price in
      if is_negative quantity
      then after_action user_id stock_id quantity price user
          (mortgage_stocks_action s bank user stock_id (neg64 quantity) price w)
      else after_action user_id stock_id quantity retrieve_price user
          (retrieve_stocks_action s bank user stock_id quantity retrieve_price w)

  unfoldable pub perform_mortgage : ℕ → ℕ → ℕ → ℕ → User → s.World → MortgageResult s.World
  perform_mortgage user_id stock_id quantity retrieve_price user w =
      if (s.stock w stock_id).is_bankrupt
      then mortgage_fails stock_bankrupt user w
      else if s.lock w user_id
      then mortgage_locked user_id stock_id quantity retrieve_price user (s.begin w)
      else mortgage_fails no_user user w
