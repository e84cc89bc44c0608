-- ===== src/Heap/Order.antt =====
-- The heap order of the cells 1 to n, and what a sift must return.
use mathlib.Core.List.Perm
use dalal_street_server.Base.{
  ℕ, zero, suc, ◌/◌, ◌≤◌, ◌<◌, ◌≡◌, Bool, true, false, Option, Perm, arith, Returns, weaken-Returns,
}
use dalal_street_server.Heap.Cells.{Slice, contents, swapped, swapped-perm}

-- `after` orders items: it never holds both ways, and "not after" is transitive.
pub record IsOrder {A : Type 0} (after : A → A → Bool) : Type 0 where
  pub asym : (a b : A) → after a b ≡ true → after b a ≡ false
  pub trans : (a b c : A) → after a b ≡ false → after b c ≡ false → after a c ≡ false

pub after_irrefl : {A : Type 0} (after : A → A → Bool) (a : A) → IsOrder after → after a a ≡ false
after_irrefl after a o = ground (arith, o.asym a a)

-- No item comes after its child.
abbrev pub IsHeap : {A : Type 0} → (A → A → Bool) → (ℕ → A) → ℕ → Type 0
IsHeap after f n = (c : ℕ) → 1 < c → c ≤ n → after (f (c / 2)) (f c) ≡ false

-- `t` is a heap of the items of `s`.
pub record Sifted {A : Type 0} (after : A → A → Bool) (n : ℕ) (s t : Slice A) : Type 0 where
  pub heap : IsHeap after t.cell n
  pub same : Perm (contents t.cell n) (contents s.cell n)
  pub size : t.len ≡ s.len

pub swapped-Sifted :
    {A : Type 0} {after : A → A → Bool} {n : ℕ} {s : Slice A} {r : Option (Slice A)} (i j : ℕ)
    → 0 < i
    → i ≤ n
    → 0 < j
    → j ≤ n
    → Returns (Sifted after n (swapped s i j)) r
    → Returns (Sifted after n s) r
swapped-Sifted {n = n} {s = s} i j p q u v = weaken-Returns λ t h. record {
  heap = h.heap;
  same = Perm.trans h.same (swapped-perm s i j n p q u v);
  size = h.size;
}

root_first_below :
    {A : Type 0} (after : A → A → Bool) (f : ℕ → A) (n k c : ℕ)
    → IsOrder after
    → IsHeap after f n
    → c < k
    → 0 < c
    → c ≤ n
    → after (f 1) (f c) ≡ false
root_first_below after f n zero c o h p q r = absurd (omega arith)
root_first_below after f n (suc k) (suc zero) o h p q r = after_irrefl after (f 1) o
root_first_below after f n (suc k) (suc (suc c)) o h p q r =
    let d = suc (suc c) in
    o.trans (f 1) (f (d / 2)) (f d)
      (root_first_below after f n k (d / 2) o h (omega arith) (omega arith) (omega arith))
      (h d (omega arith) r)
root_first_below after f n (suc k) zero o h p q r = absurd (omega arith)

-- The root of a heap comes after none of the items.
pub root_first :
    {A : Type 0} (after : A → A → Bool) (f : ℕ → A) (n c : ℕ)
    → IsOrder after
    → IsHeap after f n
    → 0 < c
    → c ≤ n
    → after (f 1) (f c) ≡ false
root_first after f n c o h p q = root_first_below after f n (suc c) c o h (omega arith) p q
