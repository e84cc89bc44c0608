-- ===== src/Inspect/Degree.antt =====
-- buildGraph of models/InspectUserDegree.go: what users trade with users of one partner only.
use dalal_street_server.Base.{
  ℕ, suc, ◌+◌, Bool, ◌&&◌, Option, none, some, List, [], ◌∷◌, ltb, ◌==◌, if◌then◌else◌, ◌>>=◌,
}
use dalal_street_server.Base.Word.{add64}
use dalal_street_server.Account.Placing.Checks.{is_positive}
use dalal_street_server.Inspect.Graph.{TransactionGraph, Weights, weights_of, nodes_from}
use dalal_street_server.Inspect.Components.{user_at, last_node}

-- The volume is an int64 pattern.
pub record VolumeSort : Type 0 where
  pub volume : ℕ
  pub id : ℕ

pub record InspectDegreeDetails : Type 0 where
  pub volume : ℕ → Option ℕ
  pub position : ℕ → Option ℕ

abbrev pub set_weight : ℕ → ℕ → ℕ → Weights → Weights
set_weight i j weight weights k l = if (i == k) && (j == l) then weight else weights k l

-- The weights between two nodes are added up, once for each pair.
unfoldable pub add_reverse : ℕ → ℕ → Weights → Weights
add_reverse i j weights =
    let sum = add64 (weights i j) (weights j i) in
    if ltb j i then set_weight j i sum (set_weight i j sum weights) else weights

unfoldable pub add_row : ℕ → List ℕ → Weights → Weights
add_row i [] weights = weights
add_row i (j ∷ js) weights = add_row i js (add_reverse i j weights)

unfoldable pub add_rows : List ℕ → List ℕ → Weights → Weights
add_rows nodes [] weights = weights
add_rows nodes (i ∷ is) weights = add_rows nodes is (add_row i nodes weights)

unfoldable pub degree : Weights → ℕ → List ℕ → ℕ
degree weights i [] = 0
degree weights i (j ∷ js) = (if is_positive (weights i j) then 1 else 0) + degree weights i js

abbrev pub is_degree_one : Weights → List ℕ → ℕ → Bool
is_degree_one weights nodes i = degree weights i nodes == 1

-- The volume of a node's trades with the nodes of degree one.
unfoldable pub volume_with : Weights → List ℕ → ℕ → List ℕ → ℕ → ℕ
volume_with weights nodes i [] sum = sum
volume_with weights nodes i (j ∷ js) sum =
    volume_with weights nodes i js
      (if is_degree_one weights nodes j then add64 sum (weights i j) else sum)

-- `users[i - 1].Id`, where an index out of range is a panic.
unfoldable pub volumes_of : List ℕ → Weights → List ℕ → List ℕ → Option (List VolumeSort)
volumes_of users weights nodes [] = some []
volumes_of users weights nodes (i ∷ is) = do
  id ← user_at users i
  rest ← volumes_of users weights nodes is
  some (record { volume = volume_with weights nodes i nodes 0; id = id } ∷ rest)

-- The loop over the sorted volumes, from index `i` on; a later entry of an id replaces an earlier one.
unfoldable pub set_positions : ℕ → List VolumeSort → InspectDegreeDetails → InspectDegreeDetails
set_positions i [] res = res
set_positions i (v ∷ vs) res = set_positions (suc i) vs (record {
  volume = λ id. if v.id == id then some v.volume else res.volume id;
  position = λ id. if v.id == id then some (i + 1) else res.position id;
})

abbrev pub no_details : InspectDegreeDetails
no_details = record { volume = λ id. none; position = λ id. none }

-- `sort` is sort.Slice by volume in descending order. Above the greatest index of the table of
-- weights the code reads beyond it, which is a panic.
unfoldable pub build_graph :
    (List VolumeSort → List VolumeSort)
    → ℕ
    → List ℕ
    → List TransactionGraph
    → Option InspectDegreeDetails
build_graph sort n users details =
    let nodes = nodes_from 1 n in
    let weights = add_rows nodes nodes (weights_of users details) in
    let res =
      volumes_of users weights nodes nodes >>= λ vs. some (set_positions 0 (sort vs) no_details) in
    if ltb last_node n then none else res
