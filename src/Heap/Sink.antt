-- ===== src/Heap/Sink.antt =====
-- `sink` restores the heap order when only the edges below `k` may be out of order.
use mathlib.Core.List.Perm
use dalal_street_server.Base.{
  ℕ, zero, suc, ◌+◌, ◌*◌, ◌/◌, ◌≤◌, ◌<◌, ◌≡◌, ◌≢◌, refl, Bool, true, false, arith, ltb, leb,
  Returns, returns, split-Returns, bind-Returns,
}
use dalal_street_server.Heap.{larger_child, sink}
use dalal_street_server.Heap.Cells.{Slice, exch-some, swapped}
use dalal_street_server.Heap.Order.{IsOrder, after_irrefl, Sifted, swapped-Sifted}
use dalal_street_server.Heap.Swim.{less-some}

-- All edges but those below `k` are in order, and so are those that skip `k`.
pub record SinkInv {A : Type 0} (after : A → A → Bool) (f : ℕ → A) (n k : ℕ) : Type 0 where
  pub edges : (c : ℕ) → 1 < c → c ≤ n → c / 2 ≢ k → after (f (c / 2)) (f c) ≡ false
  pub bridged : (c : ℕ) → 1 < k → c ≤ n → c / 2 ≡ k → after (f (k / 2)) (f c) ≡ false

-- `j` is the child of `k` that comes first.
record IsFirstChild {A : Type 0} (after : A → A → Bool) (f : ℕ → A) (n k j : ℕ) : Type 0 where
  child : j / 2 ≡ k
  inside : j ≤ n
  first : (c : ℕ) → c / 2 ≡ k → c ≤ n → after (f j) (f c) ≡ false

module _ {A : Type 0} (after : A → A → Bool) (o : IsOrder after) where
  larger_child-IsFirstChild :
      (s : Slice A) (n k : ℕ)
      → s.len ≡ suc n
      → 0 < k
      → 2 * k ≤ n
      → Returns (IsFirstChild after s.cell n k) (larger_child after s n k)
  unfolding larger_child
  larger_child-IsFirstChild s n k e p q =
      let f = s.cell in
      let j = 2 * k in
      split-Returns (ltb j n)
        (λ b.
          rw
            (less-some after o s j (j + 1) (ground arith) (ground arith) (ground arith)
              (ground arith))
            (returns (record {
              child = ground arith;
              inside = ground arith;
              first = λ c u v. ground (
                arith,
                o.asym (f j) (f (j + 1)),
                after_irrefl after (f j) o,
                after_irrefl after (f (j + 1)) o,
              );
            })))
        (λ b. returns (record {
          child = ground arith;
          inside = ground arith;
          first = λ c u v. ground (arith, after_irrefl after (f j) o);
        }))

  fall-SinkInv :
      (s : Slice A) (n k j : ℕ)
      → 0 < k
      → SinkInv after s.cell n k
      → IsFirstChild after s.cell n k j
      → after (s.cell k) (s.cell j) ≡ true
      → SinkInv after (swapped s k j).cell n j
  fall-SinkInv s n k j p inv ch t =
      let f = s.cell in
      record {
        edges = λ c q u v. ground (
          arith,
          ch.child,
          ch.inside,
          o.asym (f k) (f j),
          ch.first c,
          inv.edges c,
          inv.bridged j,
        );
        bridged = λ c q u v. ground (arith, ch.child, inv.edges c);
      }

  pub sink_restores :
      (fuel n k : ℕ) (s : Slice A)
      → s.len ≡ suc n
      → 0 < k
      → k ≤ suc n
      → suc n < fuel + k
      → SinkInv after s.cell n k
      → Returns (Sifted after n s) (sink after fuel s n k)
  unfolding sink
  sink_restores zero n k s e p q u inv = absurd (omega arith)
  sink_restores (suc fuel) n k s e p q u inv =
      split-Returns (leb (2 * k) n)
        (λ b. bind-Returns (larger_child-IsFirstChild s n k e p (ground arith)) λ j ch.
          let kids = ch.child in
          let inside = ch.inside in
          rw (less-some after o s k j p (ground arith) (ground arith) (ground arith)) (
            split-Returns (after (s.cell k) (s.cell j))
              (λ t. rw (exch-some s k j p (ground arith) (ground arith) (ground arith)) (
                swapped-Sifted k j p (ground arith) (ground arith) inside (
                  sink_restores fuel n j _ e (ground arith) (ground arith) (ground arith)
                    (fall-SinkInv s n k j p inv ch t))))
              (λ t. returns (record {
                heap = λ c v w.
                    ground
                      (arith, inv.edges c, o.trans (s.cell k) (s.cell j) (s.cell c), ch.first c);
                same = Perm.rfl;
                size = refl;
              }))))
        (λ b.
          returns (record {
            heap = λ c v w. inv.edges c v w (ground arith);
            same = Perm.rfl;
            size = refl;
          }))
