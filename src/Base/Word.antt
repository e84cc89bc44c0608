-- ===== src/Base/Word.antt =====
-- Go's uint64 and int64. Both are kept as the bit pattern, a number below 2 ^ 64, so that a
-- conversion between them is the identity and addition and subtraction are the same function.
use Prim.Native.Nat.{ℕ, ◌+◌, ◌-◌, ◌*◌, ◌%◌, ◌^◌, ◌≤◌, ◌<◌, compare, Ordering}
use mathlib.Core.Bool.{Bool, true, false}
use mathlib.Core.Path.{◌≡◌}
use native.Mathlib.Omega.{arith}

abbrev pub word_mod : ℕ
word_mod = 2 ^ 64

unfoldable pub add64 : ℕ → ℕ → ℕ
add64 a b = (a + b) % word_mod

unfoldable pub sub64 : ℕ → ℕ → ℕ
sub64 a b = (a + word_mod - b) % word_mod

unfoldable pub mul64 : ℕ → ℕ → ℕ
mul64 a b = (a * b) % word_mod

unfoldable pub neg64 : ℕ → ℕ
neg64 a = (word_mod - a) % word_mod

pub sub64_exact : (a b : ℕ) → a < word_mod → b ≤ a → sub64 a b ≡ a - b
unfolding sub64
sub64_exact a b h k = omega arith

pub add64_exact : (a b : ℕ) → a + b < word_mod → add64 a b ≡ a + b
unfolding add64
add64_exact a b h = omega arith

pub neg64-neg64 : (a : ℕ) → a < word_mod → neg64 (neg64 a) ≡ a
unfolding neg64
neg64-neg64 a h = omega arith

-- The sign of an int64, and a number below 2 ^ 64 that is ordered as the int64 is.
abbrev pub half_word : ℕ
half_word = 2 ^ 63

unfoldable pub is_negative : ℕ → Bool
is_negative a = elim (compare a half_word) [ Ordering.lt ↦ false | _ ↦ true ]

unfoldable pub int_rank : ℕ → ℕ
int_rank a = add64 a half_word
