-- ===== src/Depth/Table.antt =====
-- A Go map from uint64 to uint64 or int64, as an association list. A missing key reads as 0.
use dalal_street_server.Base.{
  ℕ, ◌==◌, ◌≡◌, refl, Bool, true, false, List, [], ◌∷◌, arith, if◌then◌else◌,
}

abbrev pub DepthTable : Type 0
DepthTable = List (ℕ × ℕ)

unfoldable pub get : DepthTable → ℕ → ℕ
get [] k = 0
get ((j, v) ∷ t) k = if j == k then v else get t k

unfoldable pub put : DepthTable → ℕ → ℕ → DepthTable
put [] k v = (k, v) ∷ []
put ((j, w) ∷ t) k v = if j == k then (k, v) ∷ t else (j, w) ∷ put t k v

unfoldable pub delete : DepthTable → ℕ → DepthTable
delete [] k = []
delete ((j, w) ∷ t) k = if j == k then delete t k else (j, w) ∷ delete t k

unfoldable pub is_empty : DepthTable → Bool
is_empty [] = true
is_empty (e ∷ t) = false

pub get-put : (t : DepthTable) (k v j : ℕ) → get (put t k v) j ≡ (if k == j then v else get t j)
unfolding get put
get-put [] k v j = refl
get-put ((i, w) ∷ t) k v j = ground (arith, get-put t k v j)

pub get-delete : (t : DepthTable) (k j : ℕ) → get (delete t k) j ≡ (if k == j then 0 else get t j)
unfolding get delete
get-delete [] k j = ground arith
get-delete ((i, w) ∷ t) k j = ground (arith, get-delete t k j)

pub get-empty : (t : DepthTable) (k : ℕ) → is_empty t ≡ true → get t k ≡ 0
unfolding get is_empty
get-empty [] k e = refl
get-empty (x ∷ t) k e = cc
