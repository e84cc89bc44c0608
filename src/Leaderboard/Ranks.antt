-- ===== src/Leaderboard/Ranks.antt =====
-- The ranks of the leaderboard.
use dalal_street_server.Base.{
  ℕ, ◌+◌, ◌%◌, ◌^◌, ◌≤◌, ◌<◌, ◌∙◌, ◌≡◌, refl, Bool, true, false, Option, none, some, List, [], ◌∷◌,
  map, ltb, ◌==◌, if◌then◌else◌, All, Returns, returns, bind-Returns, arith, split_if, Bool-cases,
  inl, inr,
}
use dalal_street_server.Base.Word.{int_rank}
use dalal_street_server.Account.State.{User, Server}
use dalal_street_server.Account.Users.{put}
use dalal_street_server.Account.Yields.{Ends, ends}
use dalal_street_server.Account.Success.{IsReliable}
use dalal_street_server.Account.Holding.{Holding, set_world, release}
use dalal_street_server.Account.Holding.Taken.{Taken, waiting, missing, taken, take_user-Taken}
use dalal_street_server.Leaderboard.{LeaderboardRow, LeaderboardQueryData, LeaderboardStore}
use dalal_street_server.Leaderboard.Update.{entry, next_rank, save_total, update_users}

-- The number of results whose total is above one of this order.
unfoldable pub ahead : ℕ → List LeaderboardQueryData → ℕ
ahead n [] = 0
ahead n (r ∷ results) = (if ltb n (int_rank r.total) then 1 else 0) + ahead n results

-- The totals do not grow.
abbrev pub Descending : List LeaderboardQueryData → Type 0
Descending [] = Unit
Descending (r ∷ results) =
    All (λ q. int_rank q.total ≤ int_rank r.total) results × Descending results

-- The user, total and rank of an entry, and those due to a result of the query.
abbrev pub standing : LeaderboardRow → ℕ × ℕ × ℕ
standing e = (e.user_id, e.total_worth, e.rank)

abbrev pub due_standing : (ℕ → ℕ) → LeaderboardQueryData → ℕ × ℕ × ℕ
due_standing ranks r = (r.user_id, r.total, ranks (int_rank r.total) % 2 ^ 32)

ahead_none :
    (n : ℕ) (results : List LeaderboardQueryData)
    → All (λ q. int_rank q.total ≤ n) results
    → ahead n results ≡ 0
unfolding ahead
ahead_none n [] all = refl
ahead_none n (q ∷ results) (h, all) = ground (arith, ahead_none n results all)

-- Between two rounds: `before` counts the results so far that are above a total. The rank of the
-- next result is right, and the counter is the rank of any total below it.
abbrev Counts : (ℕ → ℕ) → (ℕ → ℕ) → ℕ → ℕ → List LeaderboardQueryData → Type 0
Counts ranks before counter rank [] = Unit
Counts ranks before counter rank (r ∷ results) =
    ((n : ℕ) → ranks n ≡ before n + 1 + ahead n (r ∷ results))
    × (rank ≡ before (int_rank r.total) + 1)
    × ((n : ℕ) → n < int_rank r.total → counter ≡ before n + 1)

above : LeaderboardQueryData → (ℕ → ℕ) → ℕ → ℕ
above r before n = before n + (if ltb n (int_rank r.total) then 1 else 0)

next-Counts :
    (ranks before : ℕ → ℕ) (counter rank : ℕ) (r : LeaderboardQueryData)
    (results : List LeaderboardQueryData)
    → Descending (r ∷ results)
    → Counts ranks before counter rank (r ∷ results)
    → Counts ranks (above r before) (counter + 1) (next_rank (counter + 1) rank r results) results
unfolding next_rank above ahead
next-Counts ranks before counter rank r [] sorted c = tt
next-Counts ranks before counter rank r (q ∷ results) ((h, _), _) (total, current, lower) = (
  λ n. total n ∙ omega arith,
  split_if (λ x. x ≡ above r before (int_rank q.total) + 1)
      (ltb (int_rank q.total) (int_rank r.total)) (λ less. ground (arith, lower (int_rank q.total)))
      (λ same.
        let e : int_rank q.total ≡ int_rank r.total = ground arith in
        rw e (ground (arith, current))),
  λ n below. ground (arith, lower n),
)

own-rank :
    (ranks before : ℕ → ℕ) (counter rank : ℕ) (r : LeaderboardQueryData)
    (results : List LeaderboardQueryData)
    → Descending (r ∷ results)
    → Counts ranks before counter rank (r ∷ results)
    → rank ≡ ranks (int_rank r.total)
unfolding ahead
own-rank ranks before counter rank r results (all, _) (total, current, _) =
    ground (arith, total (int_rank r.total), ahead_none (int_rank r.total) results all)

module _ (s : Server) where
  -- The query for each user of a result finds one.
  abbrev pub AllFound : List LeaderboardQueryData → Type 0
  AllFound results =
      (w : s.World) → All (λ r. (u : User) × (s.find_user w r.user_id ≡ some u)) results

  abbrev pub IsFree : Holding s.World → Type 0
  IsFree h = (j : ℕ) → h.held j ≡ false

  abbrev pub Ranked :
      (ℕ → ℕ) → List LeaderboardQueryData → Option (List LeaderboardRow) × Holding s.World → Type 0
  Ranked ranks results (entries, h) =
      (es : List LeaderboardRow) × (entries ≡ some es)
      × (map standing es ≡ map (due_standing ranks) results)
      × IsFree h

module _ (s : Server) (store : LeaderboardStore s.World) (reliable : IsReliable s) where
  saved-Round :
      (id : ℕ) (user : User) (h : Holding s.World) (r : s.World × Option ℕ)
      → ((j : ℕ) → (id == j) ≡ false → h.held j ≡ false)
      → Ends (λ (i : ℕ). Unit) r
      → let end = elim r.1 as (λ _. Bool × Holding s.World) [
        | none ↦ (false, set_world s (s.rollback r.0) (record h { users = put s h.users id user }))
        | some _ ↦
            (true, release s id (set_world s r.0 (record h { users = put s h.users id user })))
      ] in
        (end.0 ≡ true) × IsFree s end.1
  saved-Round id user h _ others (ends tt) =
      (refl, λ j. elim (Bool-cases (id == j)) [ inl e ↦ rw e refl | inr e ↦ rw e (others j e) ])

  save_total-Round :
      (result : LeaderboardQueryData) (h : Holding s.World)
      (o : Option (Option User × Holding s.World))
      → IsFree s h
      → (u : User) × (s.find_user h.users.world result.user_id ≡ some u)
      → Taken s result.user_id h o
      → Returns
          (λ found. let (ok, h') = save_total s store result found in (ok ≡ true) × IsFree s h')
          o
  unfolding save_total
  save_total-Round result h _ free found (waiting e) = absurd (ground (arith, free result.user_id))
  save_total-Round result h _ free (u, e) (missing _ e' _) = absurd (cc)
  save_total-Round result h _ free found (taken {user} {m'} _ own fetched) =
      let h' : Holding s.World = record {
        users = m';
        held = λ j. if result.user_id == j then true else h.held j;
      } in
      returns (saved-Round result.user_id _ h' _ (λ j e. rw e (free j)) (reliable.saves _ _))

  add_entry-Ranked :
      (ranks : ℕ → ℕ) (index rank : ℕ) (r : LeaderboardQueryData)
      (results : List LeaderboardQueryData)
      → rank ≡ ranks (int_rank r.total)
      → (x : Option (List LeaderboardRow) × Holding s.World) → Ranked s ranks results x
      → Returns
          (Ranked s ranks (r ∷ results))
          (some (elim x.0 [ none ↦ none | some es ↦ some (entry index rank r ∷ es) ], x.1))
  unfolding entry
  add_entry-Ranked ranks index rank r results own x (es, e, same, free) =
      rw e (returns (_, refl, rw (own, same) refl, free))

  update_users-Ranked :
      (ranks before : ℕ → ℕ) (index counter rank : ℕ) (results : List LeaderboardQueryData)
      (h : Holding s.World)
      → Descending results
      → Counts ranks before counter rank results
      → IsFree s h
      → AllFound s results
      → Returns (Ranked s ranks results) (update_users s store index counter rank results h)
  unfolding update_users
  update_users-Ranked ranks before index counter rank [] h sorted c free found =
      returns ([], refl, refl, free)
  update_users-Ranked ranks before index counter rank (r ∷ results) h sorted c free found =
      bind-Returns
        (save_total-Round r h _ free (found h.users.world).0 (take_user-Taken s r.user_id h))
        (λ x (ok, free'). rw ok (
          bind-Returns
            (update_users-Ranked ranks (above r before) (index + 1) (counter + 1) _ results _
              sorted.1 (next-Counts ranks before counter rank r results sorted c) free'
              (λ w. (found w).1))
            (add_entry-Ranked ranks index rank r results
              (own-rank ranks before counter rank r results sorted c))))

  start-Counts :
      (results : List LeaderboardQueryData)
      → Descending results
      → Counts (λ n. 1 + ahead n results) (λ n. 0) 1 1 results
  start-Counts [] sorted = tt
  start-Counts (r ∷ results) sorted = (λ n. omega arith, refl, λ n below. refl)

  -- On a database whose saves and commits succeed, with no lock held, and where each user of the
  -- query's results is found, the loop of UpdateLeaderboard runs to its end and leaves no lock held.
  -- If the totals do not grow along the results, the entries stand for the results in their order, and
  -- the rank of each is one more than the number of results with a greater total, modulo 2 ^ 32: equal
  -- totals share a rank.
  pub update_users-ahead :
      (results : List LeaderboardQueryData) (h : Holding s.World)
      → Descending results
      → IsFree s h
      → AllFound s results
      → Returns (Ranked s (λ n. 1 + ahead n results) results) (update_users s store 0 1 1 results h)
  update_users-ahead results h sorted free found =
      update_users-Ranked (λ n. 1 + ahead n results) (λ n. 0) 0 1 1 results h sorted
        (start-Counts results sorted) free found
