-- ===== src/Heap.antt =====
-- matchingengine/pqueue.go: the slice of a heap and the methods `less`, `exch`, `swim` and `sink`,
-- which are written twice there, for bids and for asks, and once here, over any items and order.
-- Go's slot 0 holds nil, whose use would panic, so `load` refuses it as it does an index past the
-- end. `none` is a panic, or fuel that ran out; the fuel is the index for `swim` and the number
-- of items for `sink`, and Heap/Swim and Heap/Sink show that it suffices.
pub mod Cells
pub mod Order
pub mod Swim
pub mod Sink
use dalal_street_server.Base.{
  ℕ, zero, suc, ◌+◌, ◌*◌, ◌/◌, ◌≡◌, Bool, Option, none, some, ltb, leb, ◌&&◌, if◌then◌else◌, ◌>>=◌,
}
use Cells.{Slice, load, exch}

module _ {A : Type 0} (after : A → A → Bool) where
  unfoldable pub less : Slice A → ℕ → ℕ → Option Bool
  less s i j = do x ← load s i; y ← load s j; some (after x y)

  unfoldable pub swim : ℕ → Slice A → ℕ → Option (Slice A)
  swim zero s k = none
  swim (suc fuel) s k =
      let rise = exch s (k / 2) k >>= λ t. swim fuel t (k / 2) in
      let step = less s (k / 2) k >>= λ b. if b then rise else some s in
      if ltb 1 k then step else some s

  -- `size` is the method size() of the queue.
  unfoldable pub larger_child : Slice A → ℕ → ℕ → Option ℕ
  larger_child s size k =
      let j = 2 * k in
      if ltb j size then less s j (j + 1) >>= (λ b. some (if b then j + 1 else j)) else some j

  unfoldable pub sink : ℕ → Slice A → ℕ → ℕ → Option (Slice A)
  sink zero s size k = none
  sink (suc fuel) s size k =
      let fall = larger_child s size k >>= λ j.
      let down = exch s k j >>= λ t. sink fuel t size j in
      less s k j >>= λ b. if b then down else some s in
      if leb (2 * k) size then fall else some s
