-- ===== src/Heap/Swim.antt =====
-- `swim` restores the heap order when only the edge above `k` may be out of order.
use mathlib.Core.List.Perm
use dalal_street_server.Base.{
  ℕ, zero, suc, ◌/◌, ◌≤◌, ◌<◌, ◌≡◌, ◌≢◌, refl, Bool, true, false, some, arith, ltb, Returns,
  returns, split-Returns,
}
use dalal_street_server.Heap.{less, swim}
use dalal_street_server.Heap.Cells.{Slice, load-some, exch-some, swapped}
use dalal_street_server.Heap.Order.{IsOrder, Sifted, swapped-Sifted}

-- All edges but the one above `k` are in order, and so are those that skip `k`.
pub record SwimInv {A : Type 0} (after : A → A → Bool) (f : ℕ → A) (n k : ℕ) : Type 0 where
  pub edges : (c : ℕ) → 1 < c → c ≤ n → c ≢ k → after (f (c / 2)) (f c) ≡ false
  pub bridged : (c : ℕ) → 1 < k → c ≤ n → c / 2 ≡ k → after (f (k / 2)) (f c) ≡ false

module _ {A : Type 0} (after : A → A → Bool) (o : IsOrder after) where
  pub less-some :
      (s : Slice A) (i j : ℕ)
      → 0 < i
      → i < s.len
      → 0 < j
      → j < s.len
      → less after s i j ≡ some (after (s.cell i) (s.cell j))
  unfolding less
  less-some s i j p q u v = rw (load-some s i p q, load-some s j u v)

  rise-SwimInv :
      (s : Slice A) (n k : ℕ)
      → 1 < k
      → SwimInv after s.cell n k
      → after (s.cell (k / 2)) (s.cell k) ≡ true
      → SwimInv after (swapped s (k / 2) k).cell n (k / 2)
  rise-SwimInv s n k p inv t =
      let f = s.cell in
      record {
        edges = λ c q u v. ground (
          arith,
          o.asym (f (k / 2)) (f k),
          o.trans (f k) (f (k / 2)) (f c),
          inv.edges c,
          inv.bridged c,
        );
        bridged = λ c q u v.
            ground
              (arith, o.trans (f (k / 2 / 2)) (f (k / 2)) (f c), inv.edges c, inv.edges (k / 2));
      }

  pub swim_restores :
      (fuel n k : ℕ) (s : Slice A)
      → s.len ≡ suc n
      → 0 < k
      → k ≤ n
      → k ≤ fuel
      → SwimInv after s.cell n k
      → Returns (Sifted after n s) (swim after fuel s k)
  unfolding swim
  swim_restores zero n k s e p q u inv = absurd (omega arith)
  swim_restores (suc fuel) n k s e p q u inv =
      split-Returns (ltb 1 k)
        (λ b.
          rw (less-some s (k / 2) k (ground arith) (ground arith) (ground arith) (ground arith)) (
            split-Returns (after (s.cell (k / 2)) (s.cell k))
              (λ t.
                rw
                  (exch-some s (k / 2) k (ground arith) (ground arith) (ground arith)
                    (ground arith))
                  (swapped-Sifted (k / 2) k (ground arith) (ground arith) p q (
                    swim_restores fuel n (k / 2) _ e (ground arith) (ground arith) (ground arith)
                      (rise-SwimInv s n k (ground arith) inv t))))
              (λ t. returns (record {
                heap = λ c v w. ground (arith, inv.edges c);
                same = Perm.rfl;
                size = refl;
              }))))
        (λ b.
          returns (record {
            heap = λ c v w. inv.edges c v w (ground arith);
            same = Perm.rfl;
            size = refl;
          }))
