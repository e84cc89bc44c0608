-- ===== src/Base/Bytes.antt =====
-- Go's `<` on strings: the lexicographic order of the bytes. The program compares the time stamps
-- of orders by it (RFC 3339 texts).
use Prim.Native.Nat.{ℕ, compare, Ordering}
use mathlib.Core.Path.{◌≡◌, refl}
use mathlib.Core.Bool.{Bool, true, false}
use mathlib.Core.List.{List, [], ◌∷◌}
use native.Mathlib.Omega.{arith}

unfoldable pub bytes_lt : List ℕ → List ℕ → Bool
bytes_lt xs [] = false
bytes_lt [] (y ∷ ys) = true
bytes_lt (x ∷ xs) (y ∷ ys) = elim (compare x y) [
  | Ordering.lt ↦ true
  | Ordering.eq ↦ bytes_lt xs ys
  | Ordering.gt ↦ false
]

pub bytes_lt_irrefl : (xs : List ℕ) → bytes_lt xs xs ≡ false
unfolding bytes_lt
bytes_lt_irrefl [] = refl
bytes_lt_irrefl (x ∷ xs) = ground (arith, bytes_lt_irrefl xs)

-- "Not before" is transitive.
pub bytes_ge_trans :
    (xs ys zs : List ℕ) → bytes_lt xs ys ≡ false → bytes_lt ys zs ≡ false → bytes_lt xs zs ≡ false
unfolding bytes_lt
bytes_ge_trans xs ys [] p q = ground arith
bytes_ge_trans xs [] (z ∷ zs) p q = ground arith
bytes_ge_trans [] (y ∷ ys) (z ∷ zs) p q = ground arith
bytes_ge_trans (x ∷ xs) (y ∷ ys) (z ∷ zs) p q = ground (arith, bytes_ge_trans xs ys zs)

pub bytes_lt_asym : (xs ys : List ℕ) → bytes_lt xs ys ≡ true → bytes_lt ys xs ≡ false
unfolding bytes_lt
bytes_lt_asym xs [] p = ground arith
bytes_lt_asym [] (y ∷ ys) p = refl
bytes_lt_asym (x ∷ xs) (y ∷ ys) p = ground (arith, bytes_lt_asym xs ys)
