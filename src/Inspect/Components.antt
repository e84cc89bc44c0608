-- ===== src/Inspect/Components.antt =====
-- getComponents of models/InspectComponents.go. A stack has its top at the head; `none` is the end
-- of the fuel.
use dalal_street_server.Base.{
  ℕ, zero, suc, ◌+◌, Bool, true, false, Option, none, some, List, [], ◌∷◌, ◌++◌, length, ltb, ◌==◌,
  if◌then◌else◌, ◌>>=◌,
}
use dalal_street_server.Base.Word.{add64}
use dalal_street_server.Inspect.Graph.{
  TransactionGraph, Weights, user_number, weights_of, nodes_from, edges_of, reversed_edges_of,
}

abbrev pub Edges : Type 0
Edges = ℕ → List ℕ

abbrev pub Visited : Type 0
Visited = ℕ → Bool

abbrev pub mark : ℕ → Visited → Visited
mark i visited j = if i == j then true else visited j

-- The loop that pushes the neighbours that are not visited.
unfoldable pub push_new : Visited → List ℕ → List ℕ → List ℕ
push_new visited [] stack = stack
push_new visited (j ∷ js) stack = push_new visited js (if visited j then stack else j ∷ stack)

-- The stack after its top is popped and visited.
unfoldable pub expand : Edges → Visited → ℕ → List ℕ → List ℕ
expand edges visited top stack =
    if visited top then stack else push_new (mark top visited) (edges top) stack

-- The loop of the first pass: a node is appended to the order whenever it is popped.
unfoldable pub search_order : ℕ → Edges → Visited → List ℕ → List ℕ → Option (Visited × List ℕ)
search_order zero edges visited stack order = none
search_order (suc fuel) edges visited [] order = some (visited, order)
search_order (suc fuel) edges visited (top ∷ stack) order =
    search_order fuel edges (mark top visited) (expand edges visited top stack) (order ++ top ∷ [])

-- The loop of the second pass: a node is collected when it is first popped.
unfoldable pub search_component : ℕ → Edges → Visited → List ℕ → List ℕ → Option (Visited × List ℕ)
search_component zero edges visited stack cur = none
search_component (suc fuel) edges visited [] cur = some (visited, cur)
search_component (suc fuel) edges visited (top ∷ stack) cur =
    search_component fuel edges (mark top visited) (expand edges visited top stack)
      (if visited top then cur else cur ++ top ∷ [])

-- The neighbours of the nodes that are not visited: what a search may still push.
abbrev pub todo : Edges → Visited → List ℕ → ℕ
todo edges visited [] = 0
todo edges visited (i ∷ nodes) =
    (if visited i then 0 else length (edges i)) + todo edges visited nodes

abbrev pub search_fuel : Edges → Visited → List ℕ → ℕ
search_fuel edges visited nodes = todo edges visited nodes + 2

-- The first pass, from the nodes `roots`.
unfoldable pub first_pass : List ℕ → Edges → List ℕ → Visited → List ℕ → Option (Visited × List ℕ)
first_pass nodes edges [] visited order = some (visited, order)
first_pass nodes edges (i ∷ roots) visited order =
    let next =
      search_order (search_fuel edges visited nodes) edges visited (i ∷ []) order
      >>= λ (visited', order'). first_pass nodes edges roots visited' order' in
    if visited i then first_pass nodes edges roots visited order else next

-- The second pass over the roots `order`; the components are in the order in which they are found.
unfoldable pub second_pass :
    List ℕ → Edges → List ℕ → Visited → List (List ℕ) → Option (List (List ℕ))
second_pass nodes edges [] visited res = some res
second_pass nodes edges (i ∷ order) visited res =
    let next =
      search_component (search_fuel edges visited nodes) edges visited (i ∷ []) []
      >>= λ (visited', cur). second_pass nodes edges order visited' (res ++ cur ∷ []) in
    if visited i then second_pass nodes edges order visited res else next

abbrev pub reverse_onto : List ℕ → List ℕ → List ℕ
reverse_onto [] out = out
reverse_onto (x ∷ xs) out = reverse_onto xs (x ∷ out)

-- The first n entries; fewer are a panic.
abbrev pub take_all : ℕ → List ℕ → Option (List ℕ)
take_all zero xs = some []
take_all (suc n) [] = none
take_all (suc n) (x ∷ xs) = take_all n xs >>= λ ys. some (x ∷ ys)

-- `users[node - 1].Id`; an index out of range is a panic.
abbrev pub user_at : List ℕ → ℕ → Option ℕ
user_at [] node = none
user_at (u ∷ users) zero = none
user_at (u ∷ users) (suc zero) = some u
user_at (u ∷ users) (suc node) = user_at users node

abbrev pub users_at : List ℕ → List ℕ → Option (List ℕ)
users_at users [] = some []
users_at users (i ∷ nodes) = do u ← user_at users i; us ← users_at users nodes; some (u ∷ us)

abbrev pub members_of : List ℕ → List (List ℕ) → Option (List (List ℕ))
members_of users [] = some []
members_of users (nodes ∷ cs) = do
  members ← users_at users nodes
  rest ← members_of users cs
  some (members ∷ rest)

-- The greatest index of the table of weights, which has 2001 rows and columns.
abbrev pub last_node : ℕ
last_node = 2000

-- The nodes that the two passes collect.
unfoldable pub found_components : ℕ → Weights → Option (List (List ℕ))
found_components n weights = do
  let nodes = nodes_from 1 n
  (visited, order) ← first_pass nodes (edges_of n weights) nodes (λ j. false) []
  roots ← take_all n (reverse_onto order [])
  second_pass nodes (reversed_edges_of n weights) roots (λ j. false) []

-- The components as lists of users. Above the greatest index the code reads beyond its table of
-- weights, which is a panic. The user of a node is read when the second pass collects the node; here
-- all are read after it, since a read changes nothing.
unfoldable pub node_components : ℕ → List ℕ → Weights → Option (List (List ℕ))
node_components n users weights =
    let components = found_components n weights >>= members_of users in
    if ltb last_node n then none else components

pub record InspectComponentResult : Type 0 where
  pub members : List ℕ
  pub volume : ℕ

abbrev pub row_volume : (ℕ → ℕ → ℕ) → ℕ → List ℕ → ℕ → ℕ
row_volume weight i [] sum = sum
row_volume weight i (j ∷ js) sum = row_volume weight i js (add64 sum (weight i j))

-- The two loops over the members.
unfoldable pub volume_of : (ℕ → ℕ → ℕ) → List ℕ → List ℕ → ℕ → ℕ
volume_of weight [] all sum = sum
volume_of weight (i ∷ is) all sum = volume_of weight is all (row_volume weight i all sum)

abbrev pub user_weight : List ℕ → Weights → ℕ → ℕ → ℕ
user_weight users weights a b = weights (user_number 1 users a) (user_number 1 users b)

unfoldable pub results_of : List ℕ → Weights → List (List ℕ) → List InspectComponentResult
results_of users weights [] = []
results_of users weights (members ∷ cs) =
    let volume = volume_of (user_weight users weights) members members 0 in
    record { members = members; volume = volume } ∷ results_of users weights cs

-- `n` is the number of users.
unfoldable pub get_components :
    ℕ → List ℕ → List TransactionGraph → Option (List InspectComponentResult)
get_components n users details =
    let weights = weights_of users details in
    node_components n users weights >>= λ cs. some (results_of users weights cs)
