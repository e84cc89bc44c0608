-- ===== src/Pqueue/Defs.antt =====
-- matchingengine/pqueue.go: the items, the queue and its methods.
use dalal_street_server.Base.{
  ℕ, ◌+◌, ◌-◌, ◌==◌, Bool, Option, none, some, List, map, ltb, if◌then◌else◌, ◌>>=◌,
}
use dalal_street_server.Order.{Order}
use dalal_street_server.Order.Comparator.{PqType, Factors, comparator}
use dalal_street_server.Heap.{swim, sink}
use dalal_street_server.Heap.Cells.{Slice, load, exch, append, truncate, contents}

pub record Item : Type 0 where
  pub value : ℕ
  pub price : ℕ
  pub quantity : ℕ

pub record Pqueue : Type 0 where
  pub items : Slice Item
  pub elems_count : ℕ
  pub kind : PqType

-- The pointer nil of slot 0; it is never read.
abbrev pub nil_item : Item
nil_item = record { value = 0; price = 0; quantity = 0 }

unfoldable pub new : PqType → Pqueue
new kind = record { items = record { len = 1; cell = λ _. nil_item }; elems_count = 0; kind = kind }

module _ (orders : ℕ → Order) where
  unfoldable pub new_item : ℕ → Item
  new_item id = record {
    value = id;
    price = (orders id).price;
    quantity = (orders id).stock_quantity;
  }

  -- The arguments that `less` hands to the comparator.
  unfoldable pub factors : Item → Factors
  factors i = record {
    order_type = (orders i.value).order_type;
    price = i.price;
    placed_at = (orders i.value).created_at;
    quantity = i.quantity;
  }

  abbrev pub after : PqType → Item → Item → Bool
  after kind a b = comparator kind (factors a) (factors b)

  unfoldable pub push : Pqueue → ℕ → Option Pqueue
  unfolding new_item
  push q id =
      let n = q.elems_count + 1 in
      swim (after q.kind) n (append q.items (new_item id)) n >>= λ s.
      some (record q { items = s; elems_count = n })

  unfoldable pub pop : Pqueue → Option (Option ℕ × Pqueue)
  pop q = if ltb q.elems_count 1 then some (none, q) else do
    first ← load q.items 1
    s ← exch q.items 1 q.elems_count
    let t = truncate s q.elems_count
    let n = q.elems_count - 1
    u ← sink (after q.kind) (n + 1) t n 1
    some (some first.value, record q { items = u; elems_count = n })

unfoldable pub head : Pqueue → Option (Option ℕ)
head q =
    if ltb q.elems_count 1 then some none else load q.items 1 >>= λ first. some (some first.value)

unfoldable pub size : Pqueue → ℕ
size q = q.elems_count

unfoldable pub is_empty_queue : Pqueue → Bool
is_empty_queue q = q.elems_count == 0

-- The orders in the queue, as keys.
abbrev pub waiting : Pqueue → List ℕ
waiting q = map (λ i. i.value) (contents q.items.cell q.elems_count)
