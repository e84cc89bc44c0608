-- ===== src/Heap/Cells.antt =====
-- A Go slice of items: its length and its cells, with the slots past the end never read.
-- `contents n` lists the cells 1 to n, the last one first.
use mathlib.Core.List.Perm
use native.Mathlib.Decide.{ℕ_discrete}
use dalal_street_server.Base.{
  ℕ, zero, suc, ◌+◌, ◌≤◌, ◌<◌, ◌≡◌, refl, sym, ap, ap₂, ◌∙◌, List, [], ◌∷◌, Perm, Option, none,
  some, arith, ltb, ◌==◌, ◌&&◌, if◌then◌else◌, ◌>>=◌,
}

pub record Slice (A : Type 0) : Type 0 where
  pub len : ℕ
  pub cell : ℕ → A

module _ {A : Type 0} where
  abbrev pub update : (ℕ → A) → ℕ → A → ℕ → A
  update f i x c = if c == i then x else f c

  -- `items[i]`, with the dereference that follows it.
  unfoldable pub load : Slice A → ℕ → Option A
  load s i = if ltb 0 i && ltb i s.len then some (s.cell i) else none

  abbrev pub swapped : Slice A → ℕ → ℕ → Slice A
  swapped s i j = record s { cell = update (update s.cell i (s.cell j)) j (s.cell i) }

  unfoldable pub exch : Slice A → ℕ → ℕ → Option (Slice A)
  unfolding load
  exch s i j = do
    x ← load s i
    y ← load s j
    some (record s { cell = update (update s.cell i y) j x })

  -- `append(items, item)`.
  abbrev pub append : Slice A → A → Slice A
  append s x = record s { len = s.len + 1; cell = update s.cell s.len x }

  -- `items[0:n]`.
  abbrev pub truncate : Slice A → ℕ → Slice A
  truncate s n = record s { len = n }

  pub load-some : (s : Slice A) (i : ℕ) → 0 < i → i < s.len → load s i ≡ some (s.cell i)
  unfolding load
  load-some s i p q = ground arith

  pub exch-some :
      (s : Slice A) (i j : ℕ)
      → 0 < i
      → i < s.len
      → 0 < j
      → j < s.len
      → exch s i j ≡ some (swapped s i j)
  unfolding exch
  exch-some s i j p q r t = ground arith

  abbrev pub contents : (ℕ → A) → ℕ → List A
  contents f zero = []
  contents f (suc n) = f (suc n) ∷ contents f n

  pub contents-update_above :
      (f : ℕ → A) (i n : ℕ) (x : A) → n < i → contents (update f i x) n ≡ contents f n
  contents-update_above f i zero x h = refl
  contents-update_above f i (suc n) x h = ground (arith, contents-update_above f i n x)

  pub contents-append :
      (f : ℕ → A) (len n : ℕ) (x : A)
      → len ≡ suc n
      → contents (update f len x) (n + 1) ≡ x ∷ contents f n
  contents-append f len n x e =
      let next : n + 1 ≡ suc n = omega arith in
      ap (contents (update f len x)) next
      ∙ ap₂ ◌∷◌ (ground arith) (contents-update_above f len n x (omega arith))

  exchange_heads :
      {a b x y : A} {l m : List A} → a ≡ b → y ≡ x → l ≡ m → Perm (a ∷ y ∷ l) (x ∷ b ∷ m)
  exchange_heads {b = b} {x = x} {m = m} p q r = rw (p, q, r) (Perm.swap x b m)

  exchange_below :
      {a b x y : A} {l m : List A} → y ≡ b → Perm (a ∷ l) (x ∷ m) → Perm (a ∷ y ∷ l) (x ∷ b ∷ m)
  exchange_below {a = a} {b = b} {x = x} {l = l} {m = m} p r =
      rw p (Perm.trans (Perm.swap b a l) (Perm.trans (Perm.cons b r) (Perm.swap x b m)))

  -- Writing one cell trades the old item for the new one.
  contents-update-perm :
      (f : ℕ → A) (i n : ℕ) (x : A)
      → 0 < i
      → i ≤ n
      → Perm (f i ∷ contents (update f i x) n) (x ∷ contents f n)
  contents-update-perm f i zero x p q = absurd (omega arith)
  contents-update-perm f i (suc n) x p q = elim (ℕ_discrete (suc n) i) [
    | yes e ↦
        exchange_heads (ap f (sym e)) (ground arith) (contents-update_above f i n x (omega arith))
    | no ne ↦ exchange_below (ground arith) (contents-update-perm f i n x p (omega arith))
  ]

  pub swapped-perm :
      (s : Slice A) (i j n : ℕ)
      → 0 < i
      → i ≤ n
      → 0 < j
      → j ≤ n
      → Perm (contents (swapped s i j).cell n) (contents s.cell n)
  swapped-perm s i j n p q r t =
      let f = s.cell in
      let g = update f i (f j) in
      let kept : g j ≡ f j = ground arith in
      let second = rw kept at (contents-update-perm g j n (f i) r t) in
      Perm.cons_inv (Perm.trans second (contents-update-perm f i n (f j) p q))
