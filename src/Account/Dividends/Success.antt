-- ===== src/Account/Dividends/Success.antt =====
-- Dividends on a database that fails at nothing.
use dalal_street_server.Base.{
  ℕ, ◌≡◌, ◌≢◌, refl, sym, ◌∙◌, Bool, true, false, Option, none, some, List, [], ◌∷◌, ltb, ◌==◌, ◌≤◌,
  split_if, All, arith, Returns, returns, bind-Returns, Option-cases, inl, inr,
}
use dalal_street_server.Account.State.{User, Server, user_row, transaction_row}
use dalal_street_server.Account.Yields.{Ends, ends}
use dalal_street_server.Account.Success.{IsReliable}
use dalal_street_server.Account.Users.{Users, get_user_exclusively, find_user, load_user}
use dalal_street_server.Account.Dividends.Pay.{
  UserDetails, StockRegister, Dividends, DividendEnd, failed, end_dividends, paid, pay_user,
  pay_found, pay_details, pay_all, dividend_transaction, dividends_for, perform_dividends,
}
use dalal_street_server.Account.Dividends.Credits.{
  Keyed, Distinct, KeepsUsers, current, IsPaid, Credits, current-same,
}
use dalal_street_server.Account.Dividends.Revert.{DividendOutcome, waits, unpaid, paid_out}
use dalal_street_server.Account.Dividends.Round.{
  Ready, Round, round_waits, round_fails, round_pays, pay_details-Round,
}
use dalal_street_server.Account.Dividends.Outcome.{perform_dividends-DividendOutcome}
use dalal_street_server.Account.Holding.{Holding, hold, take_user, set_world}

module _ (s : Server) (reliable : IsReliable s) (keeps : KeepsUsers s) (m : Users s.World) where
  saved : {A : Type 0} (r : s.World × Option A) → Ends (λ a. Unit) r → (a : A) × (r.1 ≡ some a)
  saved _ (ends {a = a} _) = (a, refl)

  -- The round pays.
  abbrev Fine : Option (Bool × Dividends × Holding s.World) → Type 0
  Fine = Returns (λ (ok, dividends, h). ok ≡ true)

  pay_user-Fine :
      (id total : ℕ) (user : User) (dividends : Dividends) (h : Holding s.World)
      → Fine (some (pay_user s id total user dividends h))
  unfolding pay_user
  pay_user-Fine id total user dividends h =
      let (i, e) =
        saved (s.save h.users.world (user_row (paid total user)))
          (reliable.saves h.users.world (user_row (paid total user))) in
      returns (rw e refl)

  take_found :
      (id total : ℕ) (dividends : Dividends) (h : Holding s.World) (found : Option User)
      → h.users.user_locks id ≡ found
      → current s h.users id ≢ none
      → Fine (pay_found s id total dividends (hold s id (find_user s id found h.users) h))
  unfolding pay_found find_user load_user
  take_found id total dividends h none e known =
      elim (Option-cases (s.find_user h.users.world id)) [
        | inl missing ↦ absurd (known (rw (current, e, missing) refl))
        | inr (user, f) ↦ rw f (pay_user-Fine id total user dividends _)
      ]
  take_found id total dividends h (some user) e known = pay_user-Fine id total user dividends _

  pay_details-Fine :
      (stock_id amount : ℕ) (d : UserDetails) (dividends : Dividends) (h : Holding s.World)
      → h.held d.user_id ≡ false
      → current s h.users d.user_id ≢ none
      → Fine (pay_details s stock_id amount d dividends h)
  unfolding pay_details take_user get_user_exclusively
  pay_details-Fine stock_id amount d dividends h free known =
      let t = dividend_transaction s h.users.world stock_id amount d in
      let (i, e) =
        saved (s.save h.users.world (transaction_row t))
          (reliable.saves h.users.world (transaction_row t)) in
      let h' = set_world s (s.save h.users.world (transaction_row t)).0 h in
      rw (pay_details, e, free)
        (take_found d.user_id _ dividends h' (h.users.user_locks d.user_id) refl (λ lost. known (
          sym (
            current-same s h.users h'.users d.user_id refl
              (keeps.transactions h.users.world t d.user_id))
          ∙ lost)))

  -- What a round leaves, if it pays.
  Fine-Credits :
      (id total : ℕ) (old : Holding s.World) (r : Option (Bool × Dividends × Holding s.World))
      → Round s keeps m id total old r
      → Fine r
      → Returns
          (λ (ok, dividends, h).
            (ok ≡ true) × Ready s keeps m dividends h × Credits s id total old h)
          r
  Fine-Credits id total old _ round_waits r = elim r [ ]
  Fine-Credits id total old _ (round_fails all kept) (returns e) = absurd cc
  Fine-Credits id total old _ (round_pays ready credits) (returns e) = returns (e, ready, credits)

  -- The users of the rows can be locked and are found.
  abbrev Open : Holding s.World → List UserDetails → Type 0
  Open h rows = All (λ d. (h.held d.user_id ≡ false) × (current s h.users d.user_id ≢ none)) rows

  still-Open :
      (id total : ℕ) (rows : List UserDetails) (h h' : Holding s.World)
      → Credits s id total h h'
      → All (λ e. (id == e.user_id) ≡ false) rows
      → Open h rows
      → Open h' rows
  still-Open id total [] h h' c others free = tt
  still-Open id total (d ∷ rows) h h' c (other, others) ((now, known), free) = (
    (
      c.locks d.user_id other ∙ now,
      λ lost. known (
          sym (
            current-same s h.users h'.users d.user_id (c.memory d.user_id other)
              (c.found d.user_id other))
          ∙ lost),
    ),
    still-Open id total rows h h' c others free,
  )

  module _ (register : StockRegister s.World) (stock_id amount : ℕ) where
    -- The call does not report a failure before its commit.
    abbrev Good : {A : Type 0} → Option (DividendEnd × A) → Type 0
    Good = Returns (λ (e, rest). e ≢ failed)

    end_dividends-Good :
        (dividends : Dividends) (h : Holding s.World)
        → Good (end_dividends s register stock_id dividends h)
    unfolding end_dividends
    end_dividends-Good dividends h =
        let w = (s.commit h.users.world).0 in
        rw (reliable.commits h.users.world) (
          returns (
            split_if (λ e. e ≢ failed) (register.company_found w stock_id) (λ _ e. cc) (λ _ e. cc)))

    pay_all-Good :
        (rows : List UserDetails) (dividends : Dividends) (h : Holding s.World)
        → Distinct rows
        → Ready s keeps m dividends h
        → Open h rows
        → Good (pay_all s register stock_id amount rows dividends h)
    unfolding pay_all
    pay_all-Good [] dividends h distinct ready free = end_dividends-Good dividends h
    pay_all-Good (d ∷ rows) dividends h (others, distinct) ready ((now, known), free) =
        bind-Returns
          (Fine-Credits d.user_id _ h _
            (pay_details-Round s keeps m stock_id amount d dividends h ready)
            (pay_details-Fine stock_id amount d dividends h now known))
          (λ (ok, ds, h') (fine, ready', c). rw fine (
            pay_all-Good rows ds h' distinct ready'
              (still-Open d.user_id _ rows h h' c others free)))

    module _ (max_id : ℕ) where
      -- The users when the database transaction begins, and the rows of those who own the stock.
      abbrev begun : Users s.World
      begun = record m { world = s.begin m.world }

      abbrev rows : List UserDetails
      rows = register.benefitting_users begun.world stock_id

      all-Open :
          (ds : List UserDetails)
          → All (λ d. current s begun d.user_id ≢ none) ds
          → Open (record { users = begun; held = λ j. false }) ds
      all-Open [] known = tt
      all-Open (d ∷ ds) (k, known) = ((refl, k), all-Open ds known)

      perform_dividends-Good :
          register.max_stock_id m.world ≡ some max_id
          → stock_id ≤ max_id
          → Keyed m
          → Distinct rows
          → All (λ d. current s begun d.user_id ≢ none) rows
          → Good (perform_dividends s register stock_id amount m)
      unfolding perform_dividends dividends_for
      perform_dividends-Good read in_range keyed distinct known =
          let small : ltb max_id stock_id ≡ false = ground arith in
          rw (read, small)
            (bind-Returns
              (pay_all-Good rows [] _ distinct
                (record { keyed = keyed; all = tt; kept = λ _ j u e. e }) (all-Open rows known))
              (λ r p. returns p))

      Good-IsPaid :
          (r : Option (DividendEnd × Users s.World))
          → DividendOutcome s m (IsPaid s amount rows begun) r
          → Good r
          → Returns (λ (e, m'). (e ≢ failed) × IsPaid s amount rows begun m') r
      Good-IsPaid _ waits r = elim r [ ]
      Good-IsPaid _ (unpaid kept) (returns ne) = absurd (ne refl)
      Good-IsPaid _ (paid_out ne p) (returns _) = returns (ne, p)

      -- On a database in which every save and commit succeeds and that keeps the users, where every
      -- user in memory has the own id, the stock's id is in range, no user has two rows and the user
      -- of every row is in memory or in the database, PerformDividendsTransaction returns without a
      -- failure before its commit, and every user of the rows is in memory with the amount times the
      -- quantity of the row added to the cash, modulo 2 ^ 64.
      pub perform_dividends-PaidAll :
          register.max_stock_id m.world ≡ some max_id
          → stock_id ≤ max_id
          → Keyed m
          → Distinct rows
          → All (λ d. current s begun d.user_id ≢ none) rows
          → Returns
              (λ (e, m'). (e ≢ failed) × IsPaid s amount rows begun m')
              (perform_dividends s register stock_id amount m)
      perform_dividends-PaidAll read in_range keyed distinct known =
          Good-IsPaid _
            (perform_dividends-DividendOutcome s keeps m register stock_id amount keyed distinct)
            (perform_dividends-Good read in_range keyed distinct known)
