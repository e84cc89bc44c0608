-- ===== src/Inspect/Search.antt =====
-- The searches of both passes end, and what they have visited.
use dalal_street_server.Base.{
  ℕ, zero, suc, ◌+◌, ◌≤◌, ◌<◌, ◌≡◌, refl, Bool, true, false, not, List, [], ◌∷◌, ◌++◌, length,
  if◌then◌else◌, All, Returns, returns, weaken-Returns, split_if, Bool-cases, inl, inr, arith,
}
use dalal_street_server.Inspect.Components.{
  Edges, Visited, mark, push_new, expand, search_order, search_component, todo,
}
use dalal_street_server.Base.Counts.{occurrences, occurrences-append}

length-snoc : (xs : List ℕ) (x : ℕ) → length (xs ++ x ∷ []) ≡ length xs + 1
length-snoc [] x = refl
length-snoc (y ∷ xs) x = omega (arith, length-snoc xs x)

All-snoc : (P : ℕ → Type 0) (xs : List ℕ) (x : ℕ) → All P xs → P x → All P (xs ++ x ∷ [])
All-snoc P [] x _ p = (p, tt)
All-snoc P (y ∷ xs) x (q, qs) p = (q, All-snoc P xs x qs p)

abbrev pub flag : Bool → ℕ
flag true = 1
flag false = 0

abbrev pub unseen : Visited → List ℕ → ℕ
unseen visited [] = 0
unseen visited (i ∷ nodes) = flag (not (visited i)) + unseen visited nodes

unseen-mark :
    (i : ℕ) (visited : Visited) (nodes : List ℕ)
    → unseen visited nodes ≤ unseen (mark i visited) nodes + occurrences i nodes
unseen-mark i visited [] = omega arith
unseen-mark i visited (k ∷ nodes) = ground (arith, unseen-mark i visited nodes)

todo-mark :
    (edges : Edges) (i : ℕ) (visited : Visited) (nodes : List ℕ)
    → todo edges (mark i visited) nodes ≤ todo edges visited nodes
todo-mark edges i visited [] = omega arith
todo-mark edges i visited (k ∷ nodes) = ground (arith, todo-mark edges i visited nodes)

new_todo :
    (edges : Edges) (i : ℕ) (visited : Visited) (nodes : List ℕ)
    → visited i ≡ false
    → 1 ≤ occurrences i nodes
    → todo edges (mark i visited) nodes + length (edges i) ≤ todo edges visited nodes
new_todo edges i visited [] fresh node = omega arith
new_todo edges i visited (k ∷ nodes) fresh node =
    ground (arith, todo-mark edges i visited nodes, new_todo edges i visited nodes)

push_new-length :
    (visited : Visited) (js stack : List ℕ)
    → length (push_new visited js stack) ≤ length js + length stack
unfolding push_new
push_new-length visited [] stack = omega arith
push_new-length visited (j ∷ js) stack =
    split_if (λ st. length (push_new visited js st) ≤ suc (length js) + length stack) (visited j)
      (λ _. omega (arith, push_new-length visited js stack))
      (λ _. omega (arith, push_new-length visited js (j ∷ stack)))

push_new-All :
    (P : ℕ → Type 0) (visited : Visited) (js stack : List ℕ)
    → All P js
    → All P stack
    → All P (push_new visited js stack)
unfolding push_new
push_new-All P visited [] stack _ all = all
push_new-All P visited (j ∷ js) stack (p, ps) all =
    split_if (λ st. All P (push_new visited js st)) (visited j)
      (λ _. push_new-All P visited js stack ps all)
      (λ _. push_new-All P visited js (j ∷ stack) ps (p, all))

-- The stack has all that it had, and the rest of it is visited whenever all of it is.
push_new-rest :
    (P : ℕ → Type 0) (visited : Visited) (js stack : List ℕ)
    → All P (push_new visited js stack)
    → All P stack
unfolding push_new
push_new-rest P visited [] stack all = all
push_new-rest P visited (j ∷ js) stack all = elim (Bool-cases (visited j)) [
  | inl e ↦ push_new-rest P visited js stack (rw e at all)
  | inr e ↦ (push_new-rest P visited js (j ∷ stack) (rw e at all)).1
]

module _ (nodes : List ℕ) (edges : Edges) where
  abbrev pub IsNode : ℕ → Type 0
  IsNode j = 1 ≤ occurrences j nodes

  abbrev pub work : Visited → List ℕ → ℕ
  work visited stack = length stack + todo edges visited nodes

  expand-work :
      (visited : Visited) (top : ℕ) (stack : List ℕ)
      → IsNode top
      → work (mark top visited) (expand edges visited top stack) ≤ work visited stack
  unfolding expand
  expand-work visited top stack node = elim (Bool-cases (visited top)) [
    | inl e ↦ rw e (omega (arith, todo-mark edges top visited nodes))
    | inr e ↦ rw e (
        omega (
          arith,
          new_todo edges top visited nodes e node,
          push_new-length (mark top visited) (edges top) stack,
        ))
  ]

  expand-All :
      (P : ℕ → Type 0) (visited : Visited) (top : ℕ) (stack : List ℕ)
      → All P (edges top)
      → All P stack
      → All P (expand edges visited top stack)
  unfolding expand
  expand-All P visited top stack new old =
      split_if (All P) (visited top) (λ _. old)
        (λ _. push_new-All P (mark top visited) (edges top) stack new old)

  expand-rest :
      (P : ℕ → Type 0) (visited : Visited) (top : ℕ) (stack : List ℕ)
      → All P (expand edges visited top stack)
      → All P stack
  unfolding expand
  expand-rest P visited top stack all = elim (Bool-cases (visited top)) [
    | inl e ↦ rw e at all
    | inr e ↦ push_new-rest P (mark top visited) (edges top) stack (rw e at all)
  ]

  -- What a search from `visited` and `stack` has visited at its end.
  pub record Visits (visited : Visited) (stack : List ℕ) (after : Visited) : Type 0 where
    pub kept : (j : ℕ) → visited j ≡ true → after j ≡ true
    pub found : All (λ j. after j ≡ true) stack

  Visits-step :
      (visited after : Visited) (top : ℕ) (stack : List ℕ)
      → Visits (mark top visited) (expand edges visited top stack) after
      → Visits visited (top ∷ stack) after
  Visits-step visited after top stack v = record {
    kept = λ j e. v.kept j (ground arith);
    found =
        (v.kept top (ground arith), expand-rest (λ j. after j ≡ true) visited top stack v.found);
  }

  module _ (targets : (i : ℕ) → All IsNode (edges i)) where
    -- The first pass appends a node for each that it visits.
    pub record Ordered (visited : Visited) (stack order : List ℕ) (r : Visited × List ℕ)
        : Type 0 where
      pub visits : Visits visited stack r.0
      pub grown : unseen visited nodes + length order ≤ unseen r.0 nodes + length r.1
      pub in_graph : All IsNode order → All IsNode r.1

    pub search_order-Ordered :
        ((j : ℕ) → occurrences j nodes ≤ 1)
        → (fuel : ℕ) (visited : Visited) (stack order : List ℕ) → All IsNode stack
        → work visited stack < fuel
        → Returns (Ordered visited stack order) (search_order fuel edges visited stack order)
    unfolding search_order
    search_order-Ordered once zero visited stack order all h = absurd (omega arith)
    search_order-Ordered once (suc fuel) visited [] order all h = returns (record {
      visits = record { kept = λ j e. e; found = tt };
      grown = omega arith;
      in_graph = λ p. p;
    })
    search_order-Ordered once (suc fuel) visited (top ∷ stack) order (node, all) h =
        weaken-Returns
          (λ r o. record {
            visits = Visits-step visited r.0 top stack o.visits;
            grown =
                omega
                  (arith, o.grown, unseen-mark top visited nodes, once top, length-snoc order top);
            in_graph = λ p. o.in_graph (All-snoc IsNode order top p node);
          })
          (search_order-Ordered once fuel (mark top visited) (expand edges visited top stack)
            (order ++ top ∷ []) (expand-All IsNode visited top stack (targets top) all)
            (omega (arith, expand-work visited top stack node)))

    -- The second pass collects a node exactly when it becomes visited.
    pub record Collected (visited : Visited) (stack cur : List ℕ) (r : Visited × List ℕ)
        : Type 0 where
      pub visits : Visits visited stack r.0
      pub exact : (j : ℕ) → occurrences j r.1 + flag (visited j) ≡ occurrences j cur + flag (r.0 j)
      pub in_graph : All IsNode cur → All IsNode r.1

    collect-exact :
        (visited : Visited) (top : ℕ) (cur : List ℕ) (j : ℕ)
        → occurrences j (if visited top then cur else cur ++ top ∷ []) + flag (visited j)
          ≡ occurrences j cur + flag (mark top visited j)
    collect-exact visited top cur j = ground (arith, occurrences-append j cur (top ∷ []))

    pub search_component-Collected :
        (fuel : ℕ) (visited : Visited) (stack cur : List ℕ)
        → All IsNode stack
        → work visited stack < fuel
        → Returns (Collected visited stack cur) (search_component fuel edges visited stack cur)
    unfolding search_component
    search_component-Collected zero visited stack cur all h = absurd (omega arith)
    search_component-Collected (suc fuel) visited [] cur all h = returns (record {
      visits = record { kept = λ j e. e; found = tt };
      exact = λ j. refl;
      in_graph = λ p. p;
    })
    search_component-Collected (suc fuel) visited (top ∷ stack) cur (node, all) h =
        weaken-Returns
          (λ r o. record {
            visits = Visits-step visited r.0 top stack o.visits;
            exact = λ j. omega (arith, o.exact j, collect-exact visited top cur j);
            in_graph = λ p. o.in_graph (
                split_if (All IsNode) (visited top) (λ _. p) (λ _. All-snoc IsNode cur top p node));
          })
          (search_component-Collected fuel (mark top visited) (expand edges visited top stack) _
            (expand-All IsNode visited top stack (targets top) all)
            (omega (arith, expand-work visited top stack node)))
