-- ===== src/Inspect/Report.antt =====
-- What getComponents reports.
use dalal_street_server.Base.{
  ℕ, ◌≢◌, ap, sym, ◌∙◌, Option, none, some, ltb, Option-cases, inl, inr, zero, suc, ◌+◌, ◌≤◌, ◌<◌,
  ◌≡◌, refl, Bool, true, false, List, [], ◌∷◌, length, All, Returns, returns, weaken-Returns,
  bind-Returns, split_if, arith,
}
use dalal_street_server.Inspect.Graph.{
  TransactionGraph, weights_of, Weights, nodes_from, select, edges_of, reversed_edges_of,
}
use dalal_street_server.Inspect.Components.{
  Edges, Visited, reverse_onto, take_all, found_components, node_components, members_of, users_at,
  user_at, last_node, results_of, get_components, InspectComponentResult,
}
use dalal_street_server.Base.Counts.{occurrences}
use dalal_street_server.Inspect.Search.{unseen, IsNode}
use dalal_street_server.Inspect.Passes.{joined, first_pass-Ordered, second_pass-Counted}

All-weaken : {P Q : ℕ → Type 0} (xs : List ℕ) → ((j : ℕ) → P j → Q j) → All P xs → All Q xs
All-weaken [] k all = tt
All-weaken (x ∷ xs) k (p, all) = (k x p, All-weaken xs k all)

All-select : (P : ℕ → Type 0) (p : ℕ → Bool) (xs : List ℕ) → All P xs → All P (select p xs)
All-select P p [] all = tt
All-select P p (x ∷ xs) (q, all) =
    split_if (All P) (p x) (λ _. (q, All-select P p xs all)) (λ _. All-select P p xs all)

occurs : (xs : List ℕ) → All (λ j. 1 ≤ occurrences j xs) xs
occurs [] = tt
occurs (x ∷ xs) = (ground arith, All-weaken xs (λ j h. omega arith) (occurs xs))

before_nodes : (j first n : ℕ) → j < first → occurrences j (nodes_from first n) ≡ 0
before_nodes j first zero h = refl
before_nodes j first (suc n) h = ground (arith, before_nodes j (suc first) n)

nodes_once : (j first n : ℕ) → occurrences j (nodes_from first n) ≤ 1
nodes_once j first zero = omega arith
nodes_once j first (suc n) =
    ground (arith, before_nodes j (suc first) n, nodes_once j (suc first) n)

unseen_at_first : (first n : ℕ) → unseen (λ j. false) (nodes_from first n) ≡ n
unseen_at_first first zero = refl
unseen_at_first first (suc n) = omega (arith, unseen_at_first (suc first) n)

unseen_at_last :
    (visited : Visited) (nodes : List ℕ)
    → All (λ j. visited j ≡ true) nodes
    → unseen visited nodes ≡ 0
unseen_at_last visited [] all = refl
unseen_at_last visited (i ∷ nodes) (e, all) = ground (arith, unseen_at_last visited nodes all)

reverse_onto-length : (xs out : List ℕ) → length (reverse_onto xs out) ≡ length xs + length out
reverse_onto-length [] out = omega arith
reverse_onto-length (x ∷ xs) out = omega (arith, reverse_onto-length xs (x ∷ out))

reverse_onto-All :
    (P : ℕ → Type 0) (xs out : List ℕ) → All P xs → All P out → All P (reverse_onto xs out)
reverse_onto-All P [] out all rest = rest
reverse_onto-All P (x ∷ xs) out (p, all) rest = reverse_onto-All P xs (x ∷ out) all (p, rest)

take_all-Returns :
    {P : ℕ → Type 0} (n : ℕ) (xs : List ℕ)
    → n ≤ length xs
    → All P xs
    → Returns (All P) (take_all n xs)
take_all-Returns zero xs h all = returns tt
take_all-Returns (suc n) [] h all = absurd (omega arith)
take_all-Returns (suc n) (x ∷ xs) h (p, all) =
    bind-Returns (take_all-Returns n xs (omega arith) all) (λ ys ps. returns (p, ps))

with_equation :
    {A : Type 0} (o : Option A) → Returns (λ a. Unit {0}) o → Returns (λ a. o ≡ some a) o
with_equation _ (returns _) = returns refl

module _ (n : ℕ) (weights : Weights) where
  abbrev numbers : List ℕ
  numbers = nodes_from 1 n

  module _ (edges : Edges) where
    roots-Returns :
        (order : List ℕ)
        → n ≤ length order
        → All (IsNode numbers edges) order
        → Returns (All (IsNode numbers edges)) (take_all n (reverse_onto order []))
    roots-Returns order h all =
        take_all-Returns n (reverse_onto order []) (omega (arith, reverse_onto-length order []))
          (reverse_onto-All _ order [] all tt)

  -- No node is in two components or twice in one, and every one has a number of a user.
  IsSimple : List (List ℕ) → Type 0
  IsSimple cs =
      ((j : ℕ) → occurrences j (joined cs) ≤ 1)
      × All (All (IsNode numbers (reversed_edges_of n weights))) cs

  found_components-Returns : Returns IsSimple (found_components n weights)
  unfolding found_components edges_of reversed_edges_of IsSimple
  found_components-Returns =
      bind-Returns
        (first_pass-Ordered numbers (edges_of n weights)
          (λ i. All-select _ _ numbers (occurs numbers)) (λ j. nodes_once j 1 n) numbers
          (λ j. false) [] (occurs numbers))
        (λ r o.
          bind-Returns
            (roots-Returns (edges_of n weights) r.1
              (omega
                (arith, o.grown, unseen_at_first 1 n, unseen_at_last r.0 numbers o.visits.found))
              (o.in_graph tt))
            (λ roots all.
              weaken-Returns
                (λ cs (after, _, counted, there). ((λ j. ground (arith, counted j)), there))
                (second_pass-Counted numbers (reversed_edges_of n weights)
                  (λ i. All-select _ _ numbers (occurs numbers)) roots (λ j. false) [] all
                  (λ j. refl) tt)))

user_at-found : (users : List ℕ) (i : ℕ) → 1 ≤ i → i ≤ length users → user_at users i ≢ none
user_at-found [] i h k = absurd (omega arith)
user_at-found (u ∷ users) zero h k = absurd (omega arith)
user_at-found (u ∷ users) (suc zero) h k = λ e. cc
user_at-found (u ∷ users) (suc (suc i)) h k =
    user_at-found users (suc i) (omega arith) (omega arith)

nodes_found :
    (users : List ℕ) (first n : ℕ)
    → 1 ≤ first
    → first + n ≤ length users + 1
    → All (λ i. user_at users i ≢ none) (nodes_from first n)
nodes_found users first zero h k = tt
nodes_found users first (suc n) h k = (
  user_at-found users first h (omega arith),
  nodes_found users (suc first) n (omega arith) (omega arith),
)

after_nodes : (j first n : ℕ) → first + n ≤ j → occurrences j (nodes_from first n) ≡ 0
after_nodes j first zero h = refl
after_nodes j first (suc n) h = ground (arith, after_nodes j (suc first) n)

module _ (users : List ℕ) (edges : Edges) where
  abbrev IsUser : ℕ → Type 0
  IsUser = IsNode (nodes_from 1 (length users)) edges

  IsUser-found : (j : ℕ) → IsUser j → user_at users j ≢ none
  IsUser-found j node =
      user_at-found users j (ground (arith, before_nodes j 1 (length users)))
        (ground (arith, after_nodes j 1 (length users)))

  users_at-Returns :
      (nodes : List ℕ) → All IsUser nodes → Returns (λ members. Unit {0}) (users_at users nodes)
  users_at-Returns [] all = returns tt
  users_at-Returns (j ∷ nodes) (node, all) = elim (Option-cases (user_at users j)) [
    | inl missing ↦ absurd (IsUser-found j node missing)
    | inr (id, e) ↦
        rw (users_at, e) (bind-Returns (users_at-Returns nodes all) (λ ids _. returns tt))
  ]

  members_of-Returns :
      (cs : List (List ℕ))
      → All (All IsUser) cs
      → Returns (λ ms. members_of users cs ≡ some ms) (members_of users cs)
  members_of-Returns [] all = returns refl
  members_of-Returns (nodes ∷ cs) (node, all) = with_equation _ (
      bind-Returns (users_at-Returns nodes node)
        (λ ids _. bind-Returns (members_of-Returns cs all) (λ ms _. returns tt)))

-- The users who are reported, component by component.
abbrev pub reported : List InspectComponentResult → List (List ℕ)
reported [] = []
reported (r ∷ results) = r.members ∷ reported results

reported-results_of :
    (users : List ℕ) (weights : Weights) (cs : List (List ℕ))
    → reported (results_of users weights cs) ≡ cs
unfolding results_of
reported-results_of users weights [] = refl
reported-results_of users weights (members ∷ cs) =
    ap (λ ms. members ∷ ms) (reported-results_of users weights cs)

-- The results report the users of nodes, of which none is in two components or twice in one.
pub record IsReported (users : List ℕ) (results : List InspectComponentResult) : Type 0 where
  pub components : List (List ℕ)
  pub members : members_of users components ≡ some (reported results)
  pub once : (j : ℕ) → occurrences j (joined components) ≤ 1

-- Where the number of users is that of their ids and at most 2000, whatever the trades are,
-- getComponents returns: both passes end, and the order of the first pass and the users are long
-- enough for the reads of the second. It reports the users of components in which no node of the
-- graph is twice, nor in two of them.
pub get_components-Returns :
    (users : List ℕ) (details : List TransactionGraph)
    → length users ≤ last_node
    → Returns (IsReported users) (get_components (length users) users details)
unfolding get_components node_components IsSimple
get_components-Returns users details small =
    let weights = weights_of users details in
    let fits : ltb last_node (length users) ≡ false = ground arith in
    rw fits (
      bind-Returns
        (bind-Returns (found_components-Returns (length users) weights) (λ cs (once, there).
          weaken-Returns
            {Q = λ ms.
              (cs : List (List ℕ)) × (members_of users cs ≡ some ms)
              × ((j : ℕ) → occurrences j (joined cs) ≤ 1)}
            (λ ms e. (cs, e, once))
            (members_of-Returns users (reversed_edges_of (length users) weights) cs there)))
        (λ ms (cs, e, once). returns (record {
          components = cs;
          members = e ∙ ap some (sym (reported-results_of users weights ms));
          once = once;
        })))
