-- ===== src/Book/TopMatch.antt =====
-- What getTopMatchingBid and getTopMatchingAsk return: the best order of another user that matches,
-- or nothing when no such order waits; no order is lost.
use mathlib.Core.List.{
  Mem, Mem-prop, not-mem-nil, mem-cons_self, mem-cons_of_mem, mem-append, mem-append_left,
}
use mathlib.Core.List.Perm
use mathlib.Core.List.{perm_middle}
use mathlib.Core.Logic.Or
use dalal_street_server.Base.{
  ℕ, ◌+◌, ◌≡◌, ◌≢◌, refl, sym, subst, [], ◌∷◌, ◌++◌, true, false, List, Option, none, some, Perm,
  arith, length, inl, inr, Returns, returns, split-Returns, bind-Returns, ◌>>=◌,
}
use dalal_street_server.Order.{Order, is_stop_loss}
use dalal_street_server.Order.Comparator.{comparator, bid_comparator, ask_comparator}
use dalal_street_server.Pqueue.Defs.{Pqueue, waiting, head}
use dalal_street_server.Pqueue.Valid.{IsValid, rank}
use dalal_street_server.Pqueue.Pop.{head-cases, waiting-none}
use dalal_street_server.Book.State.{Side, ask, bid, other, Book}
use dalal_street_server.Book.Valid.{queue_kind, IsQueue, IsValidBook}
use dalal_street_server.Book.Steps.{
  with_queue, with_queue-IsValidBook, with_side_self, with_queue-with_queue, with_queue-same,
  push_queue-then,
}
use dalal_street_server.Book.Match.{
  is_order_matching, matches, add_back, choose_top, get_top_matching,
}
use dalal_street_server.Book.Skip.{Skipped, skip_own-Skipped, head-returns}

-- `own` was pushed back onto `before`.
pub record Restored (s : Side) (orders : ℕ → Order) (before : Pqueue) (own : List ℕ) (q : Pqueue)
    : Type 0 where
  pub queue : IsQueue s orders q
  pub same : Perm (waiting q) (own ++ waiting before)
  pub count : q.elems_count ≡ before.elems_count + length own

pub add_back-Restored {κ} :
    {World : Type 0} (s : Side) (own : List ℕ) (b : Book World) {Q : Book World → Type κ}
    → IsValidBook b
    → ((j : ℕ) → Mem j own → is_stop_loss (b.orders s j).order_type ≡ false)
    → ((q : Pqueue) → Restored s (b.orders s) (b.queue s) own q → Q (with_queue s q b))
    → Returns Q (add_back s own b)
unfolding add_back
add_back-Restored s [] b {Q} v a k = returns (
    subst Q (with_queue-same s b)
      (k (b.queue s) (record { queue = (v s).0; same = Perm.rfl; count = omega arith })))
add_back-Restored s (i ∷ own) b {Q} v a k =
    push_queue-then s i b (add_back s own) v (a i mem-cons_self) λ p pv o.
      let at = with_side_self s p b.queue in
      add_back-Restored s own (with_queue s p b) (with_queue-IsValidBook s p b v pv)
        (λ j m. a j (mem-cons_of_mem i m))
        λ q r.
          let r' = subst (λ z. Restored s (b.orders s) z own q) at r in
          subst Q (sym (with_queue-with_queue s b q p)) (
            k q (record {
              queue = r'.queue;
              same = Perm.trans r'.same (
                  Perm.trans (Perm.append_left own o.same) (perm_middle own (waiting (b.queue s))));
              count = omega (arith, r'.count, o.count);
            }))

-- If the first order does not match, no order that comes after it does.
matches-after :
    (s : Side) (incoming first later : Order)
    → comparator (queue_kind (other s)) (rank first) (rank later) ≡ false
    → matches s incoming first ≡ false
    → matches s incoming later ≡ false
unfolding comparator bid_comparator ask_comparator is_order_matching rank
matches-after ask incoming first later c m = ground arith
matches-after bid incoming first later c m = ground arith

pub empty-waiting :
    (orders : ℕ → Order) (q : Pqueue) → IsValid orders q → head q ≡ some none → waiting q ≡ []
empty-waiting orders q v e = elim (head-cases orders q v) [
  | inl (e', z) ↦ waiting-none q z
  | inr (t, top, p) ↦ absurd (cc (top.shown))
]

top-first :
    (s : Side) (orders : ℕ → Order) (q : Pqueue) (t : ℕ)
    → IsQueue s orders q
    → head q ≡ some (some t)
    → (j : ℕ) → Mem j (waiting q)
    → comparator (queue_kind s) (rank (orders t)) (rank (orders j)) ≡ false
top-first s orders q t v e j m = elim (head-cases orders q v.valid) [
  | inl (e', z) ↦ cc
  | inr (t', top, p) ↦
      let same : t' ≡ t = ground (arith, top.shown, e) in
      subst (λ i. comparator (queue_kind s) (rank (orders i)) (rank (orders j)) ≡ false) same
        (subst (λ k. comparator k (rank (orders t')) (rank (orders j)) ≡ false) v.sort
          (top.first j m))
]

module _ {World : Type 0} (s : Side) (id : ℕ) (b : Book World) where
  abbrev user : ℕ
  user = (b.orders s id).user_id

  -- No order of another user matches, and the queue `q` holds the orders that it held.
  pub record Unmatched (q : Pqueue) : Type 0 where
    pub queue : IsQueue (other s) (b.orders (other s)) q
    pub same : Perm (waiting q) (waiting (b.queue (other s)))
    pub count : q.elems_count ≡ (b.queue (other s)).elems_count
    pub none_match :
        (j : ℕ)
        → Mem j (waiting (b.queue (other s)))
        → (b.orders (other s) j).user_id ≢ user
        → matches s (b.orders s id) (b.orders (other s) j) ≡ false

  -- `t` matches, is another user's, and comes after no other user's order; it is the head of `q`,
  -- which holds all the orders but the user's own that were set aside.
  pub record Matched (t : ℕ) (own : List ℕ) (q : Pqueue) : Type 0 where
    pub queue : IsQueue (other s) (b.orders (other s)) q
    pub shown : head q ≡ some (some t)
    pub matching : matches s (b.orders s id) (b.orders (other s) t) ≡ true
    pub another : (b.orders (other s) t).user_id ≢ user
    pub aside : (j : ℕ) → Mem j own → (b.orders (other s) j).user_id ≡ user
    pub same : Perm (own ++ waiting q) (waiting (b.queue (other s)))
    pub count : q.elems_count + length own ≡ (b.queue (other s)).elems_count
    pub best :
        (j : ℕ)
        → Mem j (waiting (b.queue (other s)))
        → (b.orders (other s) j).user_id ≢ user
        → comparator
            (queue_kind (other s))
            (rank (b.orders (other s) t))
            (rank (b.orders (other s) j))
          ≡ false

  pub data TopMatch : Option ℕ × List ℕ × Book World → Type 0 where
    unmatched : (q : Pqueue) → Unmatched q → TopMatch (none, [], with_queue (other s) q b)
    matched :
        (t : ℕ) (own : List ℕ) (q : Pqueue)
        → Matched t own q
        → TopMatch (some t, own, with_queue (other s) q b)

  module _ (v : IsValidBook b) where
    -- Another user's order was not set aside.
    left :
        {top : Option ℕ} {own : List ℕ} {q : Pqueue} (j : ℕ)
        → Skipped (other s) user (b.orders (other s)) (b.queue (other s)) top own q
        → Mem j (waiting (b.queue (other s)))
        → (b.orders (other s) j).user_id ≢ user
        → Mem j (waiting q)
    left {own = own} {q} j k m n =
        Or.elim Mem-prop (mem-append.0 ((Perm.mem_iff k.same).1 m)) (λ o. absurd (n (k.own j o)))
          (λ w. w)

    -- The end without a match: the orders that were set aside go back.
    left_alone :
        (top : Option ℕ) (own : List ℕ) (q : Pqueue)
        → Skipped (other s) user (b.orders (other s)) (b.queue (other s)) top own q
        → ((j : ℕ) → Mem j (waiting q) → matches s (b.orders s id) (b.orders (other s) j) ≡ false)
        → Returns TopMatch
            (add_back (other s) own (with_queue (other s) q b) >>= λ b'. some (none, [], b'))
    left_alone top own q k n =
        let at = with_side_self (other s) q b.queue in
        bind-Returns
          (add_back-Restored (other s) own (with_queue (other s) q b)
            {Q = λ c. TopMatch (none, [], c)} (with_queue-IsValidBook (other s) q b v k.queue)
            (λ j m. (v (other s)).0.active j ((Perm.mem_iff k.same).0 (mem-append_left _ m)))
            λ p r.
              let r' = subst (λ z. Restored (other s) (b.orders (other s)) z own p) at r in
              subst (λ c. TopMatch (none, [], c)) (sym (with_queue-with_queue (other s) b p q))
                (unmatched p (record {
                  queue = r'.queue;
                  same = Perm.trans r'.same k.same;
                  count = omega (arith, r'.count, k.count);
                  none_match = λ j m u. n j (left j k m u);
                })))
          λ c t. returns t

    finish :
        (top : Option ℕ) (own : List ℕ) (q : Pqueue)
        → Skipped (other s) user (b.orders (other s)) (b.queue (other s)) top own q
        → Returns TopMatch (choose_top s (b.orders s id) top own (with_queue (other s) q b))
    unfolding choose_top
    finish none own q k = left_alone none own q k (λ j m. absurd (
        not-mem-nil (subst (Mem j) (empty-waiting (b.orders (other s)) q k.queue.valid k.shown) m)))
    finish (some t) own q k =
        split-Returns (matches s (b.orders s id) (b.orders (other s) t))
          (λ e. returns (
            matched t own q (record {
              queue = k.queue;
              shown = k.shown;
              matching = e;
              another = k.another t refl;
              aside = k.own;
              same = k.same;
              count = k.count;
              best = λ j m u.
                  top-first (other s) (b.orders (other s)) q t k.queue k.shown j (left j k m u);
            })))
          (λ e. left_alone (some t) own q k (λ j m.
            matches-after s (b.orders s id) (b.orders (other s) t) (b.orders (other s) j)
              (top-first (other s) (b.orders (other s)) q t k.queue k.shown j m) e))

    -- The search returns, with the best matching order of another user, or with nothing if no order
    -- of another user matches; in both cases every order is still in the queue or set aside.
    pub get_top_matching-TopMatch : Returns TopMatch (get_top_matching s id b)
    unfolding get_top_matching
    get_top_matching-TopMatch =
        let o = other s in
        let (h, he) = head-returns (b.orders o) (b.queue o) (v o).0.valid in
        rw he (
          bind-Returns
            (skip_own-Skipped o user ((b.queue o).elems_count + 1) h [] b
              {Q = λ (top, own, c).
                (q : Pqueue) × (c ≡ with_queue o q b)
                × Skipped o user (b.orders o) (b.queue o) top own q}
              v he (omega arith) λ t m q k. (q, refl, k))
            λ (top, own, c) (q, e, k). rw e (finish top own q k))
