-- ===== src/Pqueue/Valid.antt =====
-- The invariant of a queue: the slice holds the items and slot 0, the items are a heap, and each
-- item still shows the price and the quantity of its order.
use mathlib.Core.List.{Mem, not-mem-nil, mem-cons_self, mem-cons_of_mem, mem-map_of_mem}
use native.Mathlib.Decide.{ℕ_discrete}
use dalal_street_server.Base.{ℕ, zero, suc, ◌/◌, ◌<◌, ◌≤◌, ◌≡◌, refl, sym, ap, ap₂, ◌∙◌, arith}
use dalal_street_server.Order.{Order}
use dalal_street_server.Order.Comparator.{
  PqType, Factors, comparator, comparator_asym, comparator_negative_trans,
}
use dalal_street_server.Heap.Cells.{contents}
use dalal_street_server.Heap.Order.{IsOrder, IsHeap}
use dalal_street_server.Pqueue.Defs.{Item, Pqueue, new, new_item, factors, after, waiting}

pub record IsValid (orders : ℕ → Order) (q : Pqueue) : Type 0 where
  pub sized : q.items.len ≡ suc q.elems_count
  pub heap : IsHeap (after orders q.kind) q.items.cell q.elems_count
  pub current :
      (i : Item) → Mem i (contents q.items.cell q.elems_count) → i ≡ new_item orders i.value

-- By either comparator no two items come after one another, and "does not come after" is transitive:
-- the queue is served in a strict weak order.
pub after-IsOrder : (orders : ℕ → Order) (kind : PqType) → IsOrder (after orders kind)
after-IsOrder orders kind = record {
  asym = λ a b. comparator_asym kind (factors orders a) (factors orders b);
  trans = λ a b c.
      comparator_negative_trans kind (factors orders a) (factors orders b) (factors orders c);
}

pub Item-set : IsSet Item
Item-set = hlevel

-- What the comparators read of an order.
unfoldable pub rank : Order → Factors
rank o = record {
  order_type = o.order_type;
  price = o.price;
  placed_at = o.created_at;
  quantity = o.stock_quantity;
}

pub factors-new_item :
    (orders : ℕ → Order) (id : ℕ) → factors orders (new_item orders id) ≡ rank (orders id)
unfolding factors new_item rank
factors-new_item orders id = refl

pub new-IsValid : (orders : ℕ → Order) (kind : PqType) → IsValid orders (new kind)
unfolding new
new-IsValid orders kind = record {
  sized = refl;
  heap = λ c p q. absurd (omega arith);
  current = λ i m. absurd (not-mem-nil m);
}

pub cell-mem : {A : Type 0} (f : ℕ → A) (n c : ℕ) → 0 < c → c ≤ n → Mem (f c) (contents f n)
cell-mem f zero c p q = absurd (omega arith)
cell-mem f (suc n) c p q = elim (ℕ_discrete c (suc n)) [
  | yes e ↦ rw (ap f e) mem-cons_self
  | no ne ↦ mem-cons_of_mem (f (suc n)) (cell-mem f n c p (omega arith))
]

-- Only the ranks of the waiting orders matter.
module _ (before now : ℕ → Order) (q : Pqueue)
    (same : (i : ℕ) → Mem i (waiting q) → rank (now i) ≡ rank (before i)) where
  rank-item :
      (i : Item)
      → Mem i (contents q.items.cell q.elems_count)
      → rank (now i.value) ≡ rank (before i.value)
  rank-item i m = same i.value (mem-map_of_mem (λ (j : Item). j.value) m)

  factors-same :
      (i : Item) → Mem i (contents q.items.cell q.elems_count) → factors now i ≡ factors before i
  unfolding factors rank
  factors-same i m = ground (arith, rank-item i m)

  new_item-same :
      (i : Item)
      → Mem i (contents q.items.cell q.elems_count)
      → new_item now i.value ≡ new_item before i.value
  unfolding new_item rank
  new_item-same i m = ground (arith, rank-item i m)

  pub IsValid-same : IsValid before q → IsValid now q
  IsValid-same v = record {
    sized = v.sized;
    heap = λ c p r.
        let up =
          factors-same _
            (cell-mem q.items.cell q.elems_count (c / 2) (omega arith) (omega arith)) in
        let low = factors-same _ (cell-mem q.items.cell q.elems_count c (omega arith) r) in
        ap₂ (comparator q.kind) up low ∙ v.heap c p r;
    current = λ i m. v.current i m ∙ sym (new_item-same i m);
  }
