-- ===== src/Tests/Inspection.antt =====
-- Components of small graphs of trades.
use dalal_street_server.Base.{
  ℕ, ◌≡◌, refl, some, [], ◌∷◌, ◌==◌, ◌&&◌, if◌then◌else◌, Returns, arith,
}
use dalal_street_server.Base.Word.{is_negative}
use dalal_street_server.Account.Placing.Checks.{is_positive}
use dalal_street_server.Inspect.Graph.{Weights, edges_of, reversed_edges_of}
use dalal_street_server.Inspect.Components.{
  get_components, node_components, found_components, first_pass, second_pass, search_order,
  search_component, push_new, expand,
}
use dalal_street_server.Inspect.Report.{IsReported, get_components-Returns}

abbrev edge : ℕ → ℕ → Weights → Weights
edge i j weights k l = if (i == k) && (j == l) then 10 else weights k l

abbrev no_edges : Weights
no_edges i j = 0

-- A user who only pays another is reported in one component with that user.
one_way : node_components 2 (5 ∷ 7 ∷ []) (edge 1 2 no_edges) ≡ some ((7 ∷ 5 ∷ []) ∷ [])
unfolding node_components found_components first_pass second_pass search_order search_component
    push_new expand edges_of reversed_edges_of is_positive is_negative
one_way = refl

-- The first node is in no component: the order has a node twice.
lost_node :
    node_components 4 (5 ∷ 6 ∷ 7 ∷ 8 ∷ []) (edge 2 3 (edge 2 4 (edge 4 3 no_edges)))
    ≡ some ((7 ∷ 8 ∷ 6 ∷ []) ∷ [])
unfolding node_components found_components first_pass second_pass search_order search_component
    push_new expand edges_of reversed_edges_of is_positive is_negative
lost_node = refl

get_components-Returns_example :
    Returns
      (IsReported (5 ∷ 7 ∷ 9 ∷ []))
      (get_components 3 (5 ∷ 7 ∷ 9 ∷ []) (record { from_id = 5; to_id = 9; volume = 40 } ∷ []))
get_components-Returns_example =
    get_components-Returns (5 ∷ 7 ∷ 9 ∷ []) (record { from_id = 5; to_id = 9; volume = 40 } ∷ [])
      (omega arith)
