-- ===== src/Book/Skip.antt =====
-- The loop of getTopMatchingBid and getTopMatchingAsk that sets the user's own orders aside.
use mathlib.Core.List.{Mem, not-mem-nil, mem-cons, append-nil, append_assoc}
use native.Mathlib.Nat.{ℕ_set}
use mathlib.Core.List.Perm
use mathlib.Core.Logic.Or
use dalal_street_server.Base.{
  ℕ, zero, suc, ◌+◌, ◌≡◌, ◌≢◌, ◌<◌, sym, ap, subst, [], ◌∷◌, ◌++◌, List, Option, none, some, Perm,
  arith, length, inl, inr, ◌==◌, Returns, returns, split-Returns,
}
use dalal_street_server.Order.{Order}
use dalal_street_server.Pqueue.Defs.{Pqueue, waiting, head}
use dalal_street_server.Pqueue.Valid.{IsValid}
use dalal_street_server.Pqueue.Pop.{Popped, head-cases}
use dalal_street_server.Book.State.{Side, Book}
use dalal_street_server.Book.Valid.{IsQueue, IsValidBook}
use dalal_street_server.Book.Steps.{
  with_queue, with_queue-IsValidBook, with_side_self, with_queue-with_queue, with_queue-same,
  pop_queue-then,
}
use dalal_street_server.Book.Match.{skip_own}

-- The head of a valid queue.
pub head-returns :
    (orders : ℕ → Order) (q : Pqueue) → IsValid orders q → (h : Option ℕ) × (head q ≡ some h)
head-returns orders q v = elim (head-cases orders q v) [
  | inl (e, z) ↦ (none, e)
  | inr (t, top, p) ↦ (some t, top.shown)
]

pub head-positive :
    (orders : ℕ → Order) (q : Pqueue) (t : ℕ)
    → IsValid orders q
    → head q ≡ some (some t)
    → 0 < q.elems_count
head-positive orders q t v e = elim (head-cases orders q v) [
  | inl (e', z) ↦ cc
  | inr (t', top, p) ↦ p
]

-- `mine` was taken out of `before`, which leaves `q` with the head `top`, an order of another user.
pub record Skipped (s : Side) (user : ℕ) (orders : ℕ → Order) (before : Pqueue) (top : Option ℕ)
    (mine : List ℕ) (q : Pqueue) : Type 0 where
  pub queue : IsQueue s orders q
  pub own : (j : ℕ) → Mem j mine → (orders j).user_id ≡ user
  pub same : Perm (mine ++ waiting q) (waiting before)
  pub shown : head q ≡ some top
  pub count : q.elems_count + length mine ≡ before.elems_count
  pub another : (t : ℕ) → top ≡ some t → (orders t).user_id ≢ user

more-Skipped :
    (s : Side) (user : ℕ) (orders : ℕ → Order) (before p q : Pqueue) (i : ℕ) (top : Option ℕ)
    (mine : List ℕ)
    → (orders i).user_id ≡ user
    → Popped orders before i p
    → Skipped s user orders p top mine q
    → Skipped s user orders before top (i ∷ mine) q
more-Skipped s user orders before p q i top mine e o k = record {
  queue = k.queue;
  own = λ j m. Or.elim (ℕ_set _ _) (mem-cons.0 m) (λ same. rw same e) (k.own j);
  same = Perm.trans (Perm.cons i k.same) o.same;
  shown = k.shown;
  another = k.another;
  count = omega (arith, k.count, o.count);
}

module _ {World : Type 0} (s : Side) (user : ℕ) where
  stop-Skipped :
      (b : Book World) (top : Option ℕ)
      → IsValidBook b
      → head (b.queue s) ≡ some top
      → ((t : ℕ) → top ≡ some t → (b.orders s t).user_id ≢ user)
      → Skipped s user (b.orders s) (b.queue s) top [] (b.queue s)
  stop-Skipped b top v e n = record {
    queue = (v s).0;
    own = λ j m. absurd (not-mem-nil m);
    same = Perm.rfl;
    shown = e;
    another = n;
    count = omega arith;
  }

  -- The loop returns; with the queue and the orders set aside nothing is lost.
  pub skip_own-Skipped {κ} :
      (fuel : ℕ) (top : Option ℕ) (own : List ℕ) (b : Book World)
      → {Q : Option ℕ × List ℕ × Book World → Type κ} → IsValidBook b
      → head (b.queue s) ≡ some top
      → (b.queue s).elems_count < fuel
      → ((t : Option ℕ) (mine : List ℕ) (q : Pqueue)
          → Skipped s user (b.orders s) (b.queue s) t mine q
          → Q (t, own ++ mine, with_queue s q b))
      → Returns Q (skip_own fuel s user top own b)
  unfolding skip_own
  skip_own-Skipped zero top own b v e f k = absurd (omega arith)
  skip_own-Skipped (suc fuel) none own b {Q} v e f k = returns (
      subst (λ c. Q (none, own, c)) (with_queue-same s b)
        (subst (λ l. Q (none, l, with_queue s (b.queue s) b)) (append-nil own)
          (k none [] (b.queue s) (stop-Skipped b none v e (λ t c. cc)))))
  skip_own-Skipped (suc fuel) (some t) own b {Q} v e f k =
      split-Returns ((b.orders s t).user_id == user)
        (λ mine.
          pop_queue-then s b _ v (head-positive (b.orders s) (b.queue s) t (v s).0.valid e)
            λ i p pv o.
              let c = with_queue s p b in
              let cv = with_queue-IsValidBook s p b v pv in
              let at : c.queue s ≡ p = with_side_self s p b.queue in
              let (h, he) = head-returns (c.orders s) (c.queue s) (cv s).0.valid in
              let user_same : (b.orders s i).user_id ≡ user = ground (arith, o.shown, e) in
              rw he (
                skip_own-Skipped fuel h (own ++ i ∷ []) c cv he
                  (omega (arith, ap (λ r. r.elems_count) at, o.count))
                  λ t' m q sk.
                    let k' = subst (λ r. Skipped s user (b.orders s) r t' m q) at sk in
                    subst (λ d. Q (t', (own ++ i ∷ []) ++ m, d))
                      (sym (with_queue-with_queue s b q p))
                      (subst (λ l. Q (t', l, with_queue s q b)) (sym (append_assoc own (i ∷ []) m))
                        (k t' (i ∷ m) q (
                          more-Skipped s user (b.orders s) (b.queue s) p q i t' m user_same o
                            k')))))
        (λ n. returns (
          subst (λ c. Q (some t, own, c)) (with_queue-same s b)
            (subst (λ l. Q (some t, l, with_queue s (b.queue s) b)) (append-nil own)
              (k (some t) [] (b.queue s)
                (stop-Skipped b (some t) v e (λ t' c. ground (arith, c)))))))
