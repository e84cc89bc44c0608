-- ===== src/Inspect/Graph.antt =====
-- The graph of trades between users, which both files build in the same way. Nodes are the numbers
-- of users from 1; int64 weights are patterns.
use dalal_street_server.Base.{ℕ, zero, suc, Bool, List, [], ◌∷◌, ◌==◌, ◌&&◌, if◌then◌else◌}
use dalal_street_server.Base.Word.{add64}
use dalal_street_server.Account.Placing.Checks.{is_positive}

-- A row of the query: cash that went from a bidding to an asking user.
pub record TransactionGraph : Type 0 where
  pub from_id : ℕ
  pub to_id : ℕ
  pub volume : ℕ

-- userMap, from the users' ids, of which the first has the number `n`; an unknown id gives 0.
unfoldable pub user_number : ℕ → List ℕ → ℕ → ℕ
user_number n [] id = 0
user_number n (u ∷ users) id =
    let later = user_number (suc n) users id in if later == 0 && u == id then n else later

abbrev pub Weights : Type 0
Weights = ℕ → ℕ → ℕ

abbrev pub add_weight : ℕ → ℕ → ℕ → Weights → Weights
add_weight i j volume weights k l =
    if i == k && j == l then add64 (weights k l) volume else weights k l

-- The loop over the transactions.
unfoldable pub add_transactions : List ℕ → List TransactionGraph → Weights → Weights
add_transactions users [] weights = weights
add_transactions users (t ∷ details) weights =
    add_transactions users details
      (add_weight (user_number 1 users t.from_id) (user_number 1 users t.to_id) t.volume weights)

unfoldable pub weights_of : List ℕ → List TransactionGraph → Weights
weights_of users details = add_transactions users details (λ i j. 0)

-- The nodes from `first` on, `n` of them.
abbrev pub nodes_from : ℕ → ℕ → List ℕ
nodes_from first zero = []
nodes_from first (suc n) = first ∷ nodes_from (suc first) n

abbrev pub select : (ℕ → Bool) → List ℕ → List ℕ
select p [] = []
select p (x ∷ xs) = if p x then x ∷ select p xs else select p xs

-- The adjacency lists of the graph and of the reversed graph.
unfoldable pub edges_of : ℕ → Weights → ℕ → List ℕ
edges_of n weights i = select (λ j. is_positive (weights i j)) (nodes_from 1 n)

unfoldable pub reversed_edges_of : ℕ → Weights → ℕ → List ℕ
reversed_edges_of n weights j = select (λ i. is_positive (weights i j)) (nodes_from 1 n)
