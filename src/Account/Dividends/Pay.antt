-- ===== src/Account/Dividends/Pay.antt =====
-- PerformDividendsTransaction and RevertToOldState. A result none is a call that never returns.
use dalal_street_server.Base.{
  ℕ, Bool, true, false, Option, none, some, List, [], ◌∷◌, ltb, ◌==◌, if◌then◌else◌, ◌>>=◌,
}
use dalal_street_server.Base.Word.{add64, sub64, mul64}
use dalal_street_server.Account.State.{
  User, Transaction, Server, user_row, transaction_row, dividend, get_transaction_ref,
}
use dalal_street_server.Account.Users.{Users, put}
use dalal_street_server.Account.Holding.{Holding, take_user, set_world, no_locks}

-- A row of the query: a user with the stocks of the user, of which there is at least one.
pub record UserDetails : Type 0 where
  pub user_id : ℕ
  pub stock_quantity : ℕ

-- The queries: the greatest id of a stock, the users who own a stock, and whether GetCompanyDetails
-- finds the stock for the notification.
pub record StockRegister (World : Type 0) : Type 0 where
  pub max_stock_id : World → Option ℕ
  pub benefitting_users : World → ℕ → List UserDetails
  pub company_found : World → ℕ → Bool

-- How the call ends: with an error before the commit, with an error of the notification, or well.
pub data DividendEnd : Type 0 where
  failed unannounced succeeded : DividendEnd

-- The map of dividends by user, the latest first.
abbrev pub Dividends : Type 0
Dividends = List (ℕ × ℕ)

abbrev pub paid : ℕ → User → User
paid total user = record user { cash = add64 user.cash total }

-- An assignment to the map.
abbrev pub assign : ℕ → ℕ → Dividends → Dividends
assign id amount [] = (id, amount) ∷ []
assign id amount ((i, n) ∷ dividends) =
    let rest = assign id amount dividends in
    if i == id then (id, amount) ∷ dividends else (i, n) ∷ rest

module _ (s : Server) where
  -- The loop over the map, in one of the orders that Go may choose.
  unfoldable pub revert_to_old_state : Dividends → Holding s.World → Option (Bool × Holding s.World)
  revert_to_old_state [] h = some (true, h)
  revert_to_old_state ((id, amount) ∷ dividends) h = take_user s id h >>= λ (found, h').
      elim found [
        | none ↦ some (false, h')
        | some user ↦ revert_to_old_state dividends (record h' {
          users = put s h'.users id (record user { cash = sub64 user.cash amount });
        })
      ]

  -- What follows a failure: the dividends are taken back, then errorHelper rolls back.
  unfoldable pub revert_and_fail :
      Dividends → Holding s.World → Option (DividendEnd × Holding s.World)
  revert_and_fail dividends h = revert_to_old_state dividends h >>= λ (ok, h').
      some (failed, if ok then set_world s (s.rollback h'.users.world) h' else h')

  unfoldable pub end_dividends :
      StockRegister s.World
      → ℕ
      → Dividends
      → Holding s.World
      → Option (DividendEnd × Holding s.World)
  end_dividends register stock_id dividends h =
      let (w, ok) = s.commit h.users.world in
      let h' = set_world s w h in
      if ok
      then some (if register.company_found w stock_id then succeeded else unannounced, h')
      else revert_and_fail dividends h'

  abbrev pub dividend_transaction : s.World → ℕ → ℕ → UserDetails → Transaction
  dividend_transaction w stock_id amount details =
      get_transaction_ref (s.clock w) details.user_id stock_id dividend 0 0 amount 0
        (mul64 amount details.stock_quantity)

  -- `dividendsMap[id] = total`, the cash and its save.
  unfoldable pub pay_user :
      ℕ → ℕ → User → Dividends → Holding s.World → Bool × Dividends × Holding s.World
  pay_user id total user dividends h =
      let h' = record h { users = put s h.users id (paid total user) } in
      let (w, r) = s.save h.users.world (user_row (paid total user)) in
      (elim r [ none ↦ false | some _ ↦ true ], assign user.id total dividends, set_world s w h')

  unfoldable pub pay_found :
      ℕ
      → ℕ
      → Dividends
      → Option User × Holding s.World
      → Option (Bool × Dividends × Holding s.World)
  pay_found id total dividends (none, h) = some (false, dividends, h)
  pay_found id total dividends (some user, h) = some (pay_user id total user dividends h)

  -- One round of the loop over the users, up to the result of the last save.
  unfoldable pub pay_details :
      ℕ
      → ℕ
      → UserDetails
      → Dividends
      → Holding s.World
      → Option (Bool × Dividends × Holding s.World)
  pay_details stock_id amount details dividends h =
      let w = h.users.world in
      let (w', r) = s.save w (transaction_row (dividend_transaction w stock_id amount details)) in
      let h' = set_world s w' h in
      elim r [
        | none ↦ some (false, dividends, h')
        | some _ ↦
            take_user s details.user_id h'
            >>= pay_found details.user_id (mul64 amount details.stock_quantity) dividends
      ]

  unfoldable pub pay_all :
      StockRegister s.World
      → ℕ
      → ℕ
      → List UserDetails
      → Dividends
      → Holding s.World
      → Option (DividendEnd × Holding s.World)
  pay_all register stock_id amount [] dividends h = end_dividends register stock_id dividends h
  pay_all register stock_id amount (details ∷ users) dividends h =
      pay_details stock_id amount details dividends h >>= λ (ok, dividends', h').
      let rest = pay_all register stock_id amount users dividends' h' in
      if ok then rest else revert_and_fail dividends' h'

  abbrev pub released : DividendEnd × Holding s.World → DividendEnd × Users s.World
  released (e, h) = (e, h.users)

  unfoldable pub dividends_for :
      StockRegister s.World
      → ℕ
      → ℕ
      → Option ℕ
      → Users s.World
      → Option (DividendEnd × Users s.World)
  dividends_for register stock_id amount none m = some (failed, m)
  dividends_for register stock_id amount (some max_id) m =
      let m' = record m { world = s.begin m.world } in
      if ltb max_id stock_id
      then some (failed, m)
      else pay_all register stock_id amount (register.benefitting_users m'.world stock_id) []
          (no_locks s m')
        >>= λ r. some (released r)

  unfoldable pub perform_dividends :
      StockRegister s.World → ℕ → ℕ → Users s.World → Option (DividendEnd × Users s.World)
  perform_dividends register stock_id amount m =
      dividends_for register stock_id amount (register.max_stock_id m.world) m
