-- ===== src/Base/Counts.antt =====
-- How often a number stands in a list.
use mathlib.Core.List.{Perm, Permᴰ}
use mathlib.Core.Logic.{∥∥₁_elim}
use native.Mathlib.Nat.{ℕ_set}
use dalal_street_server.Base.{
  ℕ, ◌+◌, ◌≡◌, refl, ◌∙◌, List, [], ◌∷◌, ◌++◌, ◌==◌, if◌then◌else◌, arith,
}

abbrev pub occurrences : ℕ → List ℕ → ℕ
occurrences j [] = 0
occurrences j (i ∷ is) = (if i == j then 1 else 0) + occurrences j is

pub occurrences-append :
    (j : ℕ) (xs ys : List ℕ) → occurrences j (xs ++ ys) ≡ occurrences j xs + occurrences j ys
occurrences-append j [] ys = omega arith
occurrences-append j (i ∷ xs) ys = ground (arith, occurrences-append j xs ys)

occurrences-same : (j : ℕ) (xs ys : List ℕ) → Permᴰ xs ys → occurrences j xs ≡ occurrences j ys
occurrences-same j _ _ Permᴰ.nil = refl
occurrences-same j _ _ (Permᴰ.cons {a} {b} {l₁} {l₂} e p) =
    let rest = occurrences-same j l₁ l₂ p in ground (arith, rest)
occurrences-same j _ _ (Permᴰ.swap e f) = ground arith
occurrences-same j _ _ (Permᴰ.trans {l₁} {l₂} {l₃} p q) =
    occurrences-same j l₁ l₂ p ∙ occurrences-same j l₂ l₃ q

pub occurrences-Perm : (j : ℕ) (xs ys : List ℕ) → Perm xs ys → occurrences j xs ≡ occurrences j ys
occurrences-Perm j xs ys p = ∥∥₁_elim p (ℕ_set _ _) (occurrences-same j xs ys)
