-- ===== src/Account/Dividends/Round.antt =====
-- One round of the payment of dividends.
use dalal_street_server.Base.{
  ℕ, ◌≡◌, refl, Bool, true, false, Option, none, some, [], ◌∷◌, ◌>>=◌, split_if, arith, ◌==◌,
  ==_refl, sym, ap, ◌∙◌,
}
use dalal_street_server.Base.Word.{mul64}
use dalal_street_server.Account.State.{User, Server, user_row, transaction_row}
use dalal_street_server.Account.Users.{Users, get_user_exclusively, put}
use dalal_street_server.Account.Dividends.Pay.{
  UserDetails, Dividends, assign, dividend_transaction, paid, pay_user, pay_found, pay_details,
}
use dalal_street_server.Account.Dividends.Credits.{
  Keyed, KeepsUsers, current, Credits, current-same,
}
use dalal_street_server.Account.Holding.{Holding, hold, take_user, set_world}
use dalal_street_server.Account.Dividends.Revert.{
  Kept, AllHeld, assign-AllHeld, assign-nonempty, Got, missing, got, put-Keyed, find_user-Got,
}

module _ (s : Server) (keeps : KeepsUsers s) (m : Users s.World) where
  -- The users and dividends between two rounds.
  pub record Ready (dividends : Dividends) (h : Holding s.World) : Type 0 where
    pub keyed : Keyed h.users
    pub all : AllHeld s dividends h
    pub kept : dividends ≡ [] → Kept m h.users

  -- What a round from `old` comes to.
  pub data Round (id total : ℕ) (old : Holding s.World)
      : Option (Bool × Dividends × Holding s.World) → Type 0 where
    round_waits : Round id total old none
    round_fails :
        {dividends : Dividends} {h : Holding s.World}
        → AllHeld s dividends h
        → (dividends ≡ [] → Kept m h.users)
        → Round id total old (some (false, dividends, h))
    round_pays :
        {dividends : Dividends} {h : Holding s.World}
        → Ready dividends h
        → Credits s id total old h
        → Round id total old (some (true, dividends, h))

  more_held :
      (id : ℕ) (user : User) (m' : Users s.World) (dividends : Dividends) (h : Holding s.World)
      → AllHeld s dividends h
      → AllHeld s dividends (hold s id (some user, m') h).1
  more_held id user m' [] h all = tt
  more_held id user m' (d ∷ dividends) h (held, all) =
      (ground arith, more_held id user m' dividends h all)

  set_world-Ready :
      (w : s.World) (dividends : Dividends) (h : Holding s.World)
      → Ready dividends h
      → Ready dividends (set_world s w h)
  set_world-Ready w dividends h ready = record {
    keyed = ready.keyed;
    all = ready.all;
    kept = ready.kept;
  }

  module _ (id total : ℕ) (dividends : Dividends) (old : Holding s.World) where
    pay_user-Round :
        (user : User) (h : Holding s.World)
        → user.id ≡ id
        → h.held id ≡ true
        → AllHeld s dividends h
        → Keyed h.users
        → current s old.users id ≡ some user
        → ((j : ℕ) → (id == j) ≡ false → h.held j ≡ old.held j)
        → ((j : ℕ) → (id == j) ≡ false → h.users.user_locks j ≡ old.users.user_locks j)
        → ((j : ℕ) → s.find_user h.users.world j ≡ s.find_user old.users.world j)
        → Round id total old (some (pay_user s id total user dividends h))
    unfolding pay_user
    pay_user-Round user h same held all keyed now locks memory found =
        let all' = assign-AllHeld s user.id total dividends h (cc) all in
        let never = λ (e : assign user.id total dividends ≡ []).
          absurd (assign-nonempty s user.id total dividends e) in
        elim (s.save h.users.world (user_row (paid total user))).1
          as (λ r. Round id total old (
            some (
              (
                elim r [ none ↦ false | some _ ↦ true ],
                assign user.id total dividends,
                set_world s (s.save h.users.world (user_row (paid total user))).0
                    (record h { users = put s h.users id (paid total user) }),
              )))) [
                | none ↦ round_fails all' never
                | some _ ↦
                    round_pays
                      (record {
                        keyed = put-Keyed s keeps h.users id (paid total user) same keyed;
                        all = all';
                        kept = never;
                      })
                      (record {
                        locks = locks;
                        own = (user, now, rw (==_refl id) refl);
                        memory = λ j ne. rw ne (memory j ne);
                        found = λ j ne.
                            keeps.users h.users.world (paid total user) j (rw same ne) ∙ found j;
                      })
              ]

    after_take :
        (h : Holding s.World) (r : Option User × Users s.World)
        → Ready dividends h
        → ((j : ℕ) → s.find_user h.users.world j ≡ s.find_user old.users.world j)
        → h.held ≡ old.held
        → h.users.user_locks ≡ old.users.user_locks
        → Got s keeps h.users id r
        → Round id total old (pay_found s id total dividends (hold s id r h))
    unfolding pay_found
    after_take h _ ready found locks memory (missing kept now) =
        round_fails ready.all (λ e j u k. kept j u (ready.kept e j u k))
    after_take h _ ready found locks memory (got {user} {m'} kept keyed same now world others) =
        pay_user-Round user _ same (ground arith) (more_held id user m' dividends h ready.all) keyed
          (sym (current-same s old.users h.users id (ap (λ f. f id) memory) (found id)) ∙ now)
          (λ j ne. rw ne (ap (λ f. f j) locks)) (λ j ne. others j ne ∙ ap (λ f. f j) memory)
          (λ j. ap (λ w. s.find_user w j) world ∙ found j)

    take-Round :
        (h : Holding s.World)
        → Ready dividends h
        → ((j : ℕ) → s.find_user h.users.world j ≡ s.find_user old.users.world j)
        → h.held ≡ old.held
        → h.users.user_locks ≡ old.users.user_locks
        → Round id total old (take_user s id h >>= pay_found s id total dividends)
    unfolding take_user get_user_exclusively
    take-Round h ready found locks memory =
        split_if (λ o. Round id total old (o >>= pay_found s id total dividends)) (h.held id)
          (λ _. round_waits)
          (λ _.
            after_take h _ ready found locks memory
              (find_user-Got s keeps h.users id (h.users.user_locks id) refl ready.keyed))

  pub pay_details-Round :
      (stock_id amount : ℕ) (details : UserDetails) (dividends : Dividends) (h : Holding s.World)
      → Ready dividends h
      → Round details.user_id
          (mul64 amount details.stock_quantity)
          h
          (pay_details s stock_id amount details dividends h)
  unfolding pay_details
  pay_details-Round stock_id amount details dividends h ready =
      let w = h.users.world in
      let t = dividend_transaction s w stock_id amount details in
      let saved = s.save w (transaction_row t) in
      elim saved.1
        as (λ r. Round details.user_id (mul64 amount details.stock_quantity) h (elim r [
          | none ↦ some (false, dividends, set_world s saved.0 h)
          | some _ ↦
              take_user s details.user_id (set_world s saved.0 h)
              >>= pay_found s details.user_id (mul64 amount details.stock_quantity) dividends
        ])) [
          | none ↦ round_fails ready.all ready.kept
          | some _ ↦
              take-Round details.user_id _ dividends h (set_world s saved.0 h)
                (set_world-Ready saved.0 dividends h ready) (keeps.transactions w t) refl refl
        ]
