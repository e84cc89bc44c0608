-- ===== src/Inspect/Passes.antt =====
-- Both passes over the graph of trades, and the components that they give.
use dalal_street_server.Base.{
  ℕ, ◌+◌, ◌≤◌, ◌≡◌, List, [], ◌∷◌, ◌++◌, All, Returns, returns, weaken-Returns, bind-Returns,
  split_if, arith,
}
use dalal_street_server.Inspect.Components.{Edges, Visited, search_fuel, first_pass, second_pass}
use dalal_street_server.Base.Counts.{occurrences, occurrences-append}
use dalal_street_server.Inspect.Search.{
  flag, IsNode, Visits, Ordered, search_order-Ordered, search_component-Collected,
}

abbrev pub joined : List (List ℕ) → List ℕ
joined [] = []
joined (c ∷ cs) = c ++ joined cs

joined-snoc :
    (j : ℕ) (cs : List (List ℕ)) (c : List ℕ)
    → occurrences j (joined (cs ++ c ∷ [])) ≡ occurrences j (joined cs) + occurrences j c
joined-snoc j [] c = omega (arith, occurrences-append j c [])
joined-snoc j (d ∷ cs) c = omega (
  arith,
  joined-snoc j cs c,
  occurrences-append j d (joined cs),
  occurrences-append j d (joined (cs ++ c ∷ [])),
)

module _ (nodes : List ℕ) (edges : Edges)
    (targets : (i : ℕ) → All (IsNode nodes edges) (edges i)) where
  pub first_pass-Ordered :
      ((j : ℕ) → occurrences j nodes ≤ 1)
      → (roots : List ℕ) (visited : Visited) (order : List ℕ) → All (IsNode nodes edges) roots
      → Returns
          (Ordered nodes edges targets visited roots order)
          (first_pass nodes edges roots visited order)
  unfolding first_pass
  first_pass-Ordered once [] visited order all = returns (record {
    visits = record { kept = λ j e. e; found = tt };
    grown = omega arith;
    in_graph = λ p. p;
  })
  first_pass-Ordered once (i ∷ roots) visited order (node, all) =
      split_if (Returns _) (visited i)
        (λ e.
          weaken-Returns
            (λ r o. record {
              visits = record { kept = o.visits.kept; found = (o.visits.kept i e, o.visits.found) };
              grown = o.grown;
              in_graph = o.in_graph;
            })
            (first_pass-Ordered once roots visited order all))
        (λ _.
          bind-Returns
            (search_order-Ordered nodes edges targets once (search_fuel edges visited nodes) visited
              (i ∷ []) order (node, tt) (omega arith))
            (λ r o.
              weaken-Returns
                (λ r' o'. record {
                  visits = record {
                    kept = λ j e. o'.visits.kept j (o.visits.kept j e);
                    found = (o'.visits.kept i o.visits.found.0, o'.visits.found);
                  };
                  grown = omega (arith, o.grown, o'.grown);
                  in_graph = λ p. o'.in_graph (o.in_graph p);
                })
                (first_pass-Ordered once roots r.0 r.1 all)))

  -- The components have every visited node once and no other.
  abbrev pub Counted : Visited → List (List ℕ) → Type 0
  Counted visited cs = (j : ℕ) → occurrences j (joined cs) ≡ flag (visited j)

  All_nodes-snoc :
      (cs : List (List ℕ)) (c : List ℕ)
      → All (All (IsNode nodes edges)) cs
      → All (IsNode nodes edges) c
      → All (All (IsNode nodes edges)) (cs ++ c ∷ [])
  All_nodes-snoc [] c all h = (h, tt)
  All_nodes-snoc (d ∷ cs) c (p, all) h = (p, All_nodes-snoc cs c all h)

  pub second_pass-Counted :
      (roots : List ℕ) (visited : Visited) (res : List (List ℕ))
      → All (IsNode nodes edges) roots
      → Counted visited res
      → All (All (IsNode nodes edges)) res
      → Returns
          (λ cs.
            (after : Visited) × Visits nodes edges visited roots after
            × Counted after cs
            × All (All (IsNode nodes edges)) cs)
          (second_pass nodes edges roots visited res)
  unfolding second_pass
  second_pass-Counted [] visited res all counted there =
      returns (visited, record { kept = λ j e. e; found = tt }, counted, there)
  second_pass-Counted (i ∷ roots) visited res (node, all) counted there =
      split_if (Returns _) (visited i)
        (λ e.
          weaken-Returns
            (λ cs (after, v, c, g).
              (after, record { kept = v.kept; found = (v.kept i e, v.found) }, c, g))
            (second_pass-Counted roots visited res all counted there))
        (λ _.
          bind-Returns
            (search_component-Collected nodes edges targets (search_fuel edges visited nodes)
              visited (i ∷ []) [] (node, tt) (omega arith))
            (λ r o.
              weaken-Returns
                (λ cs (after, v, c, g). (
                  after,
                  record {
                    kept = λ j e. v.kept j (o.visits.kept j e);
                    found = (v.kept i o.visits.found.0, v.found);
                  },
                  c,
                  g,
                ))
                (second_pass-Counted roots r.0 (res ++ r.1 ∷ []) all
                  (λ j. omega (arith, joined-snoc j res r.1, o.exact j, counted j))
                  (All_nodes-snoc res r.1 there (o.in_graph tt)))))
