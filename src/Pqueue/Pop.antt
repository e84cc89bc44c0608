-- ===== src/Pqueue/Pop.antt =====
-- Pop and Head: they return, and give an order that comes after none of the others.
use mathlib.Core.List.{
  Mem, mem-map_of_mem, not-mem-nil, mem-cons, mem-cons_self, mem-cons_of_mem, mem-map,
}
use mathlib.Core.Bool.{Bool-set}
use mathlib.Core.List.Perm
use mathlib.Core.Logic.{∥∥₁_elim}
use mathlib.Core.Logic.Or
use native.Mathlib.Decide.{ℕ_discrete}
use dalal_street_server.Base.{
  ◌⊎◌, inl, inr, [], map, ℕ, zero, suc, ◌+◌, ◌-◌, ◌≤◌, ◌<◌, ◌≡◌, refl, subst, ap, ap₂, ◌∙◌, ◌∷◌,
  Perm, Bool, false, some, none, arith, Returns, returns, bind-Returns, weaken-Returns,
  split-Returns, ltb,
}
use dalal_street_server.Order.{Order}
use dalal_street_server.Order.Comparator.{comparator}
use dalal_street_server.Heap.Cells.{
  Slice, load-some, exch-some, truncate, swapped, swapped-perm, contents,
}
use dalal_street_server.Heap.Order.{root_first}
use dalal_street_server.Heap.Sink.{SinkInv, sink_restores}
use dalal_street_server.Pqueue.Defs.{Item, Pqueue, new_item, factors, after, pop, head, waiting}
use dalal_street_server.Pqueue.Valid.{IsValid, after-IsOrder, rank, factors-new_item, cell-mem}

-- What Pop returns: the order `id`, which comes after no waiting order, and a valid queue of the
-- other orders.
pub record Popped (orders : ℕ → Order) (q : Pqueue) (id : ℕ) (r : Pqueue) : Type 0 where
  pub valid : IsValid orders r
  pub same : Perm (id ∷ waiting r) (waiting q)
  pub first :
      (j : ℕ) → Mem j (waiting q) → comparator q.kind (rank (orders id)) (rank (orders j)) ≡ false
  pub shown : head q ≡ some (some id)
  pub count : q.elems_count ≡ suc r.elems_count
  pub kept : r.kind ≡ q.kind

-- Every item is in a cell.
mem-contents :
    {A : Type 0} (f : ℕ → A) (n : ℕ) (P : A → Bool)
    → ((c : ℕ) → 0 < c → c ≤ n → P (f c) ≡ false)
    → (x : A) → Mem x (contents f n)
    → P x ≡ false
mem-contents f zero P h x m = absurd (not-mem-nil m)
mem-contents f (suc n) P h x m =
    Or.elim (Bool-set _ _) (mem-cons.0 m) (λ e. rw e (h (suc n) (omega arith) (omega arith)))
      (mem-contents f n P (λ c p q. h c p (omega arith)) x)

pub pop-empty :
    (orders : ℕ → Order) (q : Pqueue)
    → q.elems_count ≡ 0
    → (pop orders q ≡ some (none, q)) × (head q ≡ some none)
unfolding pop head
pop-empty orders q e = (ground arith, ground arith)

module _ (orders : ℕ → Order) (q : Pqueue) (v : IsValid orders q)
    (some_wait : 0 < q.elems_count) where
  abbrev rest : ℕ
  rest = q.elems_count - 1

  abbrev cut : Slice Item
  cut = truncate (swapped q.items 1 q.elems_count) q.elems_count

  abbrev top : Item
  top = q.items.cell 1

  size_suc : q.elems_count ≡ suc rest
  size_suc = omega arith

  cut-perm : Perm (top ∷ contents cut.cell rest) (contents q.items.cell q.elems_count)
  cut-perm =
      let whole : contents cut.cell q.elems_count ≡ top ∷ contents cut.cell rest =
        ap (contents cut.cell) size_suc ∙ ap₂ ◌∷◌ (ground arith) refl in
      subst (λ l. Perm l (contents q.items.cell q.elems_count)) whole
        (swapped-perm q.items 1 q.elems_count q.elems_count (omega arith) some_wait some_wait
          (omega arith))

  cut-SinkInv : SinkInv (after orders q.kind) cut.cell rest 1
  cut-SinkInv = record {
    edges = λ c p r n. ground (arith, v.heap c);
    bridged = λ c p r n. absurd (omega arith);
  }

  top-current : top ≡ new_item orders top.value
  top-current = v.current top ((Perm.mem_iff cut-perm).0 mem-cons_self)

  first-item :
      (i : Item) → Mem i (contents q.items.cell q.elems_count) → after orders q.kind top i ≡ false
  first-item = mem-contents q.items.cell q.elems_count (after orders q.kind top) (λ c p r.
      root_first (after orders q.kind) q.items.cell q.elems_count c (after-IsOrder orders q.kind)
        v.heap p r)

  factors-rank : (i : Item) → i ≡ new_item orders i.value → factors orders i ≡ rank (orders i.value)
  factors-rank i e = ap (factors orders) e ∙ factors-new_item orders i.value

  first-order :
      (j : ℕ)
      → Mem j (waiting q)
      → comparator q.kind (rank (orders top.value)) (rank (orders j)) ≡ false
  first-order j m = ∥∥₁_elim (mem-map.0 m) (Bool-set _ _) λ (i, at, e).
      let less = first-item i at in
      rw (← factors-rank top top-current, ← e, ← factors-rank i (v.current i at)) less

  head-some : head q ≡ some (some top.value)
  unfolding head
  head-some = rw (load-some q.items 1 (omega arith) (ground (arith, v.sized))) (ground arith)

  pub pop-Popped :
      Returns (λ (r, q'). (r ≡ some top.value) × Popped orders q top.value q') (pop orders q)
  unfolding pop
  pop-Popped =
      split-Returns (ltb q.elems_count 1) (λ b. absurd (ground arith))
        λ b.
          rw
            (
              load-some q.items 1 (omega arith) (ground (arith, v.sized)),
              exch-some q.items 1 q.elems_count (omega arith) (ground (arith, v.sized)) some_wait
                  (ground (arith, v.sized)),
            )
            (bind-Returns
              (sink_restores (after orders q.kind) (after-IsOrder orders q.kind) (rest + 1) rest 1
                cut size_suc (omega arith) (omega arith) (omega arith) cut-SinkInv)
              λ u h.
                let same = Perm.trans (Perm.cons top h.same) cut-perm in
                returns (
                  refl,
                  record {
                    valid = record {
                      sized = h.size ∙ size_suc;
                      heap = h.heap;
                      current = λ i m. v.current i ((Perm.mem_iff same).0 (mem-cons_of_mem top m));
                    };
                    same = Perm.map (λ (i : Item). i.value) same;
                    first = first-order;
                    shown = head-some;
                    count = size_suc;
                    kept = refl;
                  },
                ))

-- Pop of a valid queue that is not empty never panics and its loop ends. It returns an order that
-- comes after none of the waiting orders, which Head shows too, and a valid queue of the others.
pub pop-Returns :
    (orders : ℕ → Order) (q : Pqueue)
    → IsValid orders q
    → 0 < q.elems_count
    → Returns (λ (r, q'). (id : ℕ) × (r ≡ some id) × Popped orders q id q') (pop orders q)
pop-Returns orders q v h = weaken-Returns (λ (r, q') (e, p). (_, e, p)) (pop-Popped orders q v h)

-- The head of a queue, where it has one.
pub record Top (orders : ℕ → Order) (q : Pqueue) (t : ℕ) : Type 0 where
  pub shown : head q ≡ some (some t)
  pub waits : Mem t (waiting q)
  pub first :
      (j : ℕ) → Mem j (waiting q) → comparator q.kind (rank (orders t)) (rank (orders j)) ≡ false

pub waiting-none : (q : Pqueue) → q.elems_count ≡ 0 → waiting q ≡ []
waiting-none q e = ap (λ n. map (λ (i : Item). i.value) (contents q.items.cell n)) e

-- Head shows nothing of an empty queue, and otherwise an order that comes after no other.
pub head-cases :
    (orders : ℕ → Order) (q : Pqueue)
    → IsValid orders q
    → ((head q ≡ some none) × (q.elems_count ≡ 0))
      ⊎ ((t : ℕ) × Top orders q t × (0 < q.elems_count))
head-cases orders q v = elim (ℕ_discrete q.elems_count 0) [
  | yes e ↦ inl ((pop-empty orders q e).1, e)
  | no ne ↦
      let more : 0 < q.elems_count = omega arith in
      inr (
        (q.items.cell 1).value,
        record {
          shown = head-some orders q v more;
          waits =
              mem-map_of_mem (λ (i : Item). i.value)
                (cell-mem q.items.cell q.elems_count 1 (omega arith) more);
          first = first-order orders q v more;
        },
        more,
      )
]
