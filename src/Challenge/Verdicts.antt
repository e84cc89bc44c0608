-- ===== src/Challenge/Verdicts.antt =====
-- What is decided on the states of users when the challenges of a day are closed.
use dalal_street_server.Base.{
  ℕ, ◌≤◌, ◌≡◌, refl, sym, ◌∙◌, subst, true, false, Option, none, some, List, [], ◌∷◌, ◌==◌, ◌↔◌,
  if◌then◌else◌, ◌>>=◌, All, Returns, returns, bind-Returns, arith, Bool-cases, inl, inr,
}
use dalal_street_server.Base.Word.{add64, sub64, int_rank}
use dalal_street_server.Account.State.{User, Server}
use dalal_street_server.Account.Users.{
  get_user_stock_worth, get_user_exclusively, find_user, stock_worth as worth_of,
}
use dalal_street_server.Account.Holding.{Holding}
use dalal_street_server.Account.Holding.Taken.{
  Fetched, Taken, waiting, missing, taken, take_user-Taken,
}
use dalal_street_server.Challenge.{
  ChallengeType, cash, net_worth, stock_worth, specific_stock, unsupported, UserState,
  UpdateUserStateQueryData, ChallengeStore,
}
use dalal_street_server.Challenge.Closing.{
  judged, Judging, save_judged, value_of, judge_value, judge_user, take_stock_worth, judge_locked,
  judge, judge_all,
}

module _ (count : User → ℕ → ℕ) where
  -- What a challenge measures of a user, an int64 pattern; `count` are the stocks of a user.
  unfoldable pub measure : UpdateUserStateQueryData → User → ChallengeType → Option ℕ
  measure q u cash = some (add64 u.cash u.reserved_cash)
  measure q u net_worth = some u.total
  measure q u stock_worth = some (sub64 u.total (add64 u.cash u.reserved_cash))
  measure q u specific_stock = some (count u q.stock_id)
  measure q u unsupported = none

-- The state has the row's id and the value, and is completed if the value has grown by that of the
-- challenge.
pub record IsVerdict (q : UpdateUserStateQueryData) (value : ℕ) (x : UserState) : Type 0 where
  pub id : x.id ≡ q.id
  pub final : x.final_value ≡ value
  pub completed :
      (x.is_completed ≡ true) ↔ (int_rank (add64 q.initial_value q.value) ≤ int_rank value)

judged-IsVerdict : (q : UpdateUserStateQueryData) (value : ℕ) → IsVerdict q value (judged q value)
unfolding judged
judged-IsVerdict q value = record {
  id = refl;
  final = refl;
  completed = (λ e. ground arith, λ h. ground arith);
}

module _ (s : Server) (store : ChallengeStore s.World)
    (updates : (w : s.World) (x : UserState) → (store.update_state w x).1 ≡ true)
    (users : ℕ → Option User) where
  -- Between two rounds: the users are in memory, and no lock is held.
  pub record Ready (h : Holding s.World) : Type 0 where
    pub kept : (j : ℕ) (u : User) → users j ≡ some u → h.users.user_locks j ≡ some u
    pub free : (j : ℕ) → h.held j ≡ false

  Round : UpdateUserStateQueryData → ℕ → Option (Judging s store) → Type 0
  Round q value =
      Returns (λ (state, h). ((x : UserState) × (state ≡ some x) × IsVerdict q value x) × Ready h)

  save_judged-Round :
      (q : UpdateUserStateQueryData) (value : ℕ) (h : Holding s.World)
      → Ready h
      → Round q value (some (save_judged s store (judged q value) h))
  unfolding save_judged Round
  save_judged-Round q value h ready = rw (updates h.users.world (judged q value)) (
      returns
        ((_, refl, judged-IsVerdict q value), record { kept = ready.kept; free = ready.free }))

  judge_value-Round :
      (q : UpdateUserStateQueryData) (value : ℕ) (h : Holding s.World)
      → ((j : ℕ) (u : User) → users j ≡ some u → h.users.user_locks j ≡ some u)
      → ((j : ℕ) → (q.user_id == j) ≡ false → h.held j ≡ false)
      → Round q value (some (judge_value s store q (some value) h))
  unfolding judge_value save_judged Round
  judge_value-Round q value h kept others = rw (updates h.users.world (judged q value)) (
      returns (
        (_, refl, judged-IsVerdict q value),
        record {
          kept = kept;
          free = λ j. elim (Bool-cases (q.user_id == j)) [
            | inl e ↦ rw e refl
            | inr e ↦ rw e (others j e)
          ];
        },
      ))

  -- The user that is taken is the one in memory.
  same_user :
      (id : ℕ) (u user : User) (h m : Holding s.World)
      → users id ≡ some u
      → Ready h
      → Fetched s id h.users m.users
      → m.users.user_locks id ≡ some user
      → u ≡ user
  same_user id u user h m e ready fetched own =
      let both : some u ≡ some user = sym (fetched.kept id u (ready.kept id u e)) ∙ own in cc

  locked-Round :
      (kind : ChallengeType) (q : UpdateUserStateQueryData) (value : ℕ) (u : User)
      (h : Holding s.World) (o : Option (Option User × Holding s.World))
      → users q.user_id ≡ some u
      → Ready h
      → ((w : s.World) → value_of s store kind q u w ≡ some value)
      → Taken s q.user_id h o
      → Round q value (o >>= λ found. some (judge_user s store kind q found))
  unfolding judge_user
  locked-Round kind q value u h _ e ready valued (waiting held) =
      absurd (ground (arith, ready.free q.user_id))
  locked-Round kind q value u h _ e ready valued (missing absent _ _) =
      let known = ready.kept q.user_id u e in absurd (cc)
  locked-Round kind q value u h _ e ready valued (taken {user} {m'} _ own fetched) =
      let h1 : Holding s.World = record {
        users = m';
        held = λ j. if q.user_id == j then true else h.held j;
      } in
      let same = same_user q.user_id u user h h1 e ready fetched own in
      rw (subst (λ x. value_of s store kind q x m'.world ≡ some value) same (valued m'.world)) (
        judge_value-Round q value h1 (λ j v p. fetched.kept j v (ready.kept j v p))
          (λ j p. rw p (ready.free j)))

  worth-Round :
      (q : UpdateUserStateQueryData) (u : User) (h : Holding s.World)
      → users q.user_id ≡ some u
      → Ready h
      → Round q (sub64 u.total (add64 u.cash u.reserved_cash)) (
          take_stock_worth s store q.user_id h >>= λ (worth, h').
          some (save_judged s store (judged q worth) h'))
  unfolding take_stock_worth get_user_stock_worth get_user_exclusively find_user worth_of
  worth-Round q u h e ready =
      rw (ready.free q.user_id, ready.kept q.user_id u e) (save_judged-Round q _ h ready)

  module _ (count : User → ℕ → ℕ)
      (counts : (w : s.World) (u : User) (id : ℕ)
        → store.total_stock_count w u id ≡ some (count u id)) where
    judge-Round :
        (kind : ChallengeType) (q : UpdateUserStateQueryData) (u : User) (value : ℕ)
        (h : Holding s.World)
        → users q.user_id ≡ some u
        → measure count q u kind ≡ some value
        → Ready h
        → Round q value (judge s store kind q h)
    unfolding judge judge_locked measure value_of
    judge-Round cash q u value h known m ready =
        locked-Round cash q value u h _ known ready (λ w. m) (take_user-Taken s q.user_id h)
    judge-Round net_worth q u value h known m ready =
        locked-Round net_worth q value u h _ known ready (λ w. m) (take_user-Taken s q.user_id h)
    judge-Round specific_stock q u value h known m ready =
        locked-Round specific_stock q value u h _ known ready (λ w. counts w u q.stock_id ∙ m)
          (take_user-Taken s q.user_id h)
    judge-Round stock_worth q u value h known m ready =
        let same : sub64 u.total (add64 u.cash u.reserved_cash) ≡ value = cc in
        subst (λ v. Round q v (judge s store stock_worth q h)) same (worth-Round q u h known ready)
    judge-Round unsupported q u value h known m ready = absurd (cc)

    -- The row's user is in memory, with a value for the challenge.
    abbrev pub Measured : UpdateUserStateQueryData → ℕ → Type 0
    Measured q value =
        (u : User) × (users q.user_id ≡ some u) × (measure count q u q.challenge_type ≡ some value)

    -- A verdict for each row, in the rows' order.
    abbrev pub Verdicts : List UpdateUserStateQueryData → List UserState → Type 0
    Verdicts [] [] = Unit
    Verdicts [] (x ∷ states) = ⊥
    Verdicts (q ∷ rows) [] = ⊥
    Verdicts (q ∷ rows) (x ∷ states) =
        ((value : ℕ) × Measured q value × IsVerdict q value x) × Verdicts rows states

    add_state-Verdicts :
        (q : UpdateUserStateQueryData) (rows : List UpdateUserStateQueryData) (x : UserState)
        (r : Option (List UserState) × Holding s.World)
        → (value : ℕ) × Measured q value × IsVerdict q value x
        → (((xs : List UserState) × (r.0 ≡ some xs) × Verdicts rows xs) × Ready r.1)
        → Returns
            (λ (states, h).
              ((xs : List UserState) × (states ≡ some xs) × Verdicts (q ∷ rows) xs) × Ready h)
            (some (elim r.0 [ none ↦ none | some xs ↦ some (x ∷ xs) ], r.1))
    add_state-Verdicts q rows x r verdict ((xs, e, all), ready) =
        rw e (returns ((_, refl, (verdict, all)), ready))

    -- On a database whose updates of states succeed, with no lock held, where the user of each row is
    -- in memory, the challenge's type is supported and the stocks of users can be counted: the loop of
    -- updateUserState ends without an error, the users are still in memory and unchanged, and no lock
    -- is held. For each row, in their order, a state is saved that has the row's id and the user's
    -- measure by the type, and is completed exactly if this has reached the initial value and the
    -- challenge's value, as an int64.
    pub judge_all-Verdicts :
        (rows : List UpdateUserStateQueryData) (h : Holding s.World)
        → All (λ q. (value : ℕ) × Measured q value) rows
        → Ready h
        → Returns
            (λ (states, h').
              ((xs : List UserState) × (states ≡ some xs) × Verdicts rows xs) × Ready h')
            (judge_all s store rows h)
    unfolding judge_all Round
    judge_all-Verdicts [] h all ready = returns (([], refl, tt), ready)
    judge_all-Verdicts (q ∷ rows) h ((value, (u, known, m)), all) ready =
        bind-Returns (judge-Round q.challenge_type q u value h known m ready)
          (λ r ((x, e, verdict), ready'). rw e (
            bind-Returns (judge_all-Verdicts rows r.1 all ready')
              (λ r' p. add_state-Verdicts q rows x r' (value, (u, known, m), verdict) p)))
