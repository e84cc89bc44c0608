-- ===== src/Pqueue/Push.antt =====
-- Push returns, and adds exactly one order to the queue.
use mathlib.Core.List.{Mem, mem-cons}
use mathlib.Core.List.Perm
use mathlib.Core.Logic.Or
use dalal_street_server.Base.{ℕ, ◌+◌, ◌≡◌, refl, ◌∷◌, Perm, arith, Returns, returns, bind-Returns}
use dalal_street_server.Order.{Order}
use dalal_street_server.Heap.Cells.{append, contents, contents-append}
use dalal_street_server.Heap.Swim.{SwimInv, swim_restores}
use dalal_street_server.Pqueue.Defs.{Item, Pqueue, new_item, after, push, waiting}
use dalal_street_server.Pqueue.Valid.{IsValid, Item-set, after-IsOrder}

-- What Push returns: a valid queue of the old orders and the new one.
pub record Pushed (orders : ℕ → Order) (q : Pqueue) (id : ℕ) (r : Pqueue) : Type 0 where
  pub valid : IsValid orders r
  pub same : Perm (waiting r) (id ∷ waiting q)
  pub count : r.elems_count ≡ q.elems_count + 1
  pub kept : r.kind ≡ q.kind

module _ (orders : ℕ → Order) (q : Pqueue) (id : ℕ) (v : IsValid orders q) where
  grown-contents :
      contents (append q.items (new_item orders id)).cell (q.elems_count + 1)
      ≡ new_item orders id ∷ contents q.items.cell q.elems_count
  grown-contents = contents-append q.items.cell q.items.len q.elems_count _ v.sized

  grown-SwimInv :
      SwimInv
        (after orders q.kind)
        (append q.items (new_item orders id)).cell
        (q.elems_count + 1)
        (q.elems_count + 1)
  grown-SwimInv = record {
    edges = λ c p r n. ground (arith, v.heap c, v.sized);
    bridged = λ c p r n. absurd (omega arith);
  }

  grown-current :
      (i : Item)
      → Mem i (new_item orders id ∷ contents q.items.cell q.elems_count)
      → i ≡ new_item orders i.value
  unfolding new_item
  grown-current i m = Or.elim (Item-set _ _) (mem-cons.0 m) (λ e. ground (arith, e)) (v.current i)

  -- Push never panics and its loop ends; the queue stays valid and gains the order, and no other.
  pub push-Pushed : Returns (Pushed orders q id) (push orders q id)
  unfolding push
  push-Pushed =
      bind-Returns
        (swim_restores (after orders q.kind) (after-IsOrder orders q.kind) (q.elems_count + 1)
          (q.elems_count + 1) (q.elems_count + 1) (append q.items (new_item orders id))
          (ground (arith, v.sized)) (omega arith) (omega arith) (omega arith) grown-SwimInv)
        λ s h.
          let same = rw grown-contents at h.same in
          returns (record {
            valid = record {
              sized = ground (arith, h.size, v.sized);
              heap = h.heap;
              current = λ i m. grown-current i ((Perm.mem_iff same).0 m);
            };
            same = Perm.map (λ (i : Item). i.value) same;
            count = refl;
            kept = refl;
          })
