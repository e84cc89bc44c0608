-- ===== src/Account/Dividends/Outcome.antt =====
-- What paying dividends comes to.
use dalal_street_server.Base.{
  ℕ, ◌≡◌, Bool, false, Option, none, some, List, [], ◌∷◌, ltb, if◌then◌else◌, ◌>>=◌, split_if, ◌==◌,
  All,
}
use dalal_street_server.Base.Word.{mul64}
use dalal_street_server.Account.State.{Server}
use dalal_street_server.Account.Users.{Users}
use dalal_street_server.Account.Dividends.Pay.{
  UserDetails, StockRegister, Dividends, revert_and_fail, DividendEnd, end_dividends, pay_all,
  dividends_for, perform_dividends,
}
use dalal_street_server.Account.Dividends.Credits.{
  Keyed, Distinct, KeepsUsers, IsPaid, Credits-IsPaid,
}
use dalal_street_server.Account.Holding.{Holding, set_world}
use dalal_street_server.Account.Dividends.Revert.{
  DividendOutcome, waits, unpaid, paid_out, Outcome, revert_and_fail-Outcome,
}
use dalal_street_server.Account.Dividends.Round.{
  Ready, Round, round_waits, round_fails, round_pays, pay_details-Round,
}

module _ (s : Server) (keeps : KeepsUsers s) (m : Users s.World) where
  weaken-Outcome :
      {Done Done' : Users s.World → Type 0} (r : Option (DividendEnd × Users s.World))
      → ((m' : Users s.World) → Done m' → Done' m')
      → DividendOutcome s m Done r
      → DividendOutcome s m Done' r
  weaken-Outcome _ k waits = waits
  weaken-Outcome _ k (unpaid kept) = unpaid kept
  weaken-Outcome _ k (paid_out fine p) = paid_out fine (k _ p)

  module _ (register : StockRegister s.World) (stock_id amount : ℕ) where
    continue-Round :
        (details : UserDetails) (users : List UserDetails) (old : Holding s.World)
        (r : Option (Bool × Dividends × Holding s.World))
        → All (λ e. (details.user_id == e.user_id) ≡ false) users
        → Round s keeps m details.user_id (mul64 amount details.stock_quantity) old r
        → ((dividends : Dividends) (h : Holding s.World)
            → Ready s keeps m dividends h
            → Outcome s m
                (IsPaid s amount users h.users)
                (pay_all s register stock_id amount users dividends h))
        → Outcome s m (IsPaid s amount (details ∷ users) old.users) (
            r >>= λ (ok, dividends, h).
            if ok
            then pay_all s register stock_id amount users dividends h
            else revert_and_fail s dividends h)
    continue-Round details users old _ others round_waits k = waits
    continue-Round details users old _ others (round_fails {dividends} {h} all kept) k =
        revert_and_fail-Outcome s m _ dividends h all kept
    continue-Round details users old _ others (round_pays {dividends} {h} ready credits) k =
        weaken-Outcome _ (λ m' p. Credits-IsPaid s amount details users old h m' others credits p)
          (k dividends h ready)

    end_dividends-Outcome :
        (dividends : Dividends) (h : Holding s.World)
        → Ready s keeps m dividends h
        → Outcome s m (IsPaid s amount [] h.users) (end_dividends s register stock_id dividends h)
    unfolding end_dividends
    end_dividends-Outcome dividends h ready =
        let w = (s.commit h.users.world).0 in
        let nobody : IsPaid s amount [] h.users (set_world s w h).users = record {
          paid = tt;
          others = λ id user all e. e;
        } in
        split_if (Outcome s m (IsPaid s amount [] h.users)) (s.commit h.users.world).1
          (λ _.
            split_if (λ e. Outcome s m (IsPaid s amount [] h.users) (some (e, set_world s w h)))
              (register.company_found w stock_id) (λ _. paid_out (λ e. cc) nobody)
              (λ _. paid_out (λ e. cc) nobody))
          (λ _. revert_and_fail-Outcome s m _ dividends _ ready.all ready.kept)

    pay_all-Outcome :
        (users : List UserDetails) (dividends : Dividends) (h : Holding s.World)
        → Distinct users
        → Ready s keeps m dividends h
        → Outcome s m
            (IsPaid s amount users h.users)
            (pay_all s register stock_id amount users dividends h)
    unfolding pay_all
    pay_all-Outcome [] dividends h distinct ready = end_dividends-Outcome dividends h ready
    pay_all-Outcome (details ∷ users) dividends h (others, distinct) ready =
        continue-Round details users h _ others
          (pay_details-Round s keeps m stock_id amount details dividends h ready)
          (λ ds h' r. pay_all-Outcome users ds h' distinct r)

    -- The users when the database transaction begins.
    abbrev pub begun : Users s.World
    begun = record m { world = s.begin m.world }

    -- The rows of the query for the users who own the stock.
    abbrev pub rows : List UserDetails
    rows = register.benefitting_users begun.world stock_id

    dividends_for-Outcome :
        (max_id : Option ℕ)
        → Keyed m
        → Distinct rows
        → DividendOutcome s m
            (IsPaid s amount rows begun)
            (dividends_for s register stock_id amount max_id m)
    unfolding dividends_for
    dividends_for-Outcome none keyed distinct = unpaid (λ j u e. e)
    dividends_for-Outcome (some max_id) keyed distinct =
        split_if (DividendOutcome s m (IsPaid s amount rows begun)) (ltb max_id stock_id)
          (λ _. unpaid (λ j u e. e))
          (λ _.
            pay_all-Outcome rows [] _ distinct
              (record { keyed = keyed; all = tt; kept = λ _ j u e. e }))

    -- Where every user has the own id in memory, the database keeps the users and no user has two rows,
    -- PerformDividendsTransaction does one of three things. It never returns, since RevertToOldState
    -- waits for the locks that the call itself holds. Or it reports a failure before its commit, and
    -- every user in memory is as it was. Or it reports another end, and every user of the rows, with
    -- the cash of the user in memory or in the database at the start, is in memory with the amount
    -- times the quantity of the row added, modulo 2 ^ 64, and the other users in memory are as they were.
    pub perform_dividends-DividendOutcome :
        Keyed m
        → Distinct rows
        → DividendOutcome s m
            (IsPaid s amount rows begun)
            (perform_dividends s register stock_id amount m)
    unfolding perform_dividends
    perform_dividends-DividendOutcome keyed distinct =
        dividends_for-Outcome (register.max_stock_id m.world) keyed distinct
