-- ===== src/Coordination/Graph/Tests.antt =====
-- Runs of the coordination graph at fixed plans, and the theorems applied there.
use mininet_ai.Prelude.{
  ℕ, ◌≡◌, ◌↔◌, refl, String, true, Option, none, some, List, [], ◌∷◌, contains, inr, ◌==◌, ◌&&◌,
  not,
}
use mininet_ai.Prelude.Dict.{lookup, insert}
use mininet_ai.Prelude.Sorting.{sort, place}
use mininet_ai.Coordination.Graph.{
  CoordinationMode, centralized, hierarchical, distributed, Relationship, coordinates, parent, peer,
  CoordinationEdge, Plan, CoordinationGraph, has_edge, validate_edge, add_edges, targets_of,
  validate_shape, validate_centralized, validate_peers, validate_hierarchy, count_incoming, release,
  visit, new_graph, entry_agent,
}
use mininet_ai.Coordination.Graph.Hierarchy.{IsRanked, hierarchy_accepts_acyclic}
use mininet_ai.Coordination.Graph.Delivery.{allows, allows_plan_edges}
use mininet_ai.Coordination.Graph.Modes.{Delivers, hierarchy_no_cycle, centralized_star}

abbrev edge : Relationship → String → String → CoordinationEdge
edge r s t = record { source = s; target = t; relationship = r }

abbrev agents : List String
agents = "a" ∷ "b" ∷ "c" ∷ []

abbrev tree : List CoordinationEdge
tree = edge parent "a" "b" ∷ edge parent "b" "c" ∷ edge parent "a" "c" ∷ []

abbrev made : CoordinationMode → List CoordinationEdge → Option String → CoordinationGraph
made mode edges c = record { mode = mode; agents = agents; edges = edges; coordinator = c }

abbrev plan : CoordinationMode → List CoordinationEdge → Plan
plan mode edges = record { mode = mode; agents = agents; edges = edges }

tree_accepted : new_graph (plan hierarchical tree) ≡ some (made hierarchical tree none)
unfolding new_graph add_edges validate_edge validate_shape validate_hierarchy visit release
    targets_of count_incoming sort place lookup insert
tree_accepted = refl

cycle_refused :
    new_graph
      (plan hierarchical (edge parent "a" "b" ∷ edge parent "b" "c" ∷ edge parent "c" "b" ∷ []))
    ≡ none
unfolding new_graph add_edges validate_edge validate_shape validate_hierarchy visit release
    targets_of count_incoming sort place lookup insert
cycle_refused = refl

abbrev star : List CoordinationEdge
star = edge coordinates "b" "a" ∷ edge coordinates "b" "c" ∷ []

star_accepted : new_graph (plan centralized star) ≡ some (made centralized star (some "b"))
unfolding new_graph add_edges validate_edge validate_shape validate_centralized
star_accepted = refl

abbrev pair : List CoordinationEdge
pair = edge peer "a" "c" ∷ edge peer "c" "a" ∷ []

pair_accepted : new_graph (plan distributed pair) ≡ some (made distributed pair none)
unfolding new_graph add_edges validate_edge validate_shape validate_peers
pair_accepted = refl

hierarchy_accepts_acyclic_example :
    (validate_hierarchy agents tree ≡ true) ↔ ((rank : String → ℕ) × IsRanked tree rank)
hierarchy_accepts_acyclic_example =
    hierarchy_accepts_acyclic agents tree refl ((refl, refl), ((refl, refl), ((refl, refl), tt)))

hierarchy_no_cycle_example : ¬ Delivers (made hierarchical tree none) "a" "a"
hierarchy_no_cycle_example =
    hierarchy_no_cycle (plan hierarchical tree) (made hierarchical tree none) "a" tree_accepted refl

centralized_star_example :
    (c : String) × (contains agents c ≡ true)
    × ((a : String)
        → contains agents a ≡ true
        → entry_agent (made centralized star (some "b")) a ≡ inr c)
    × ((s t : String)
        → allows (made centralized star (some "b")) s t
          ≡ (s == c && contains agents t && not (t == c)))
centralized_star_example =
    centralized_star (plan centralized star) (made centralized star (some "b")) star_accepted refl

allows_plan_edges_example : allows (made hierarchical tree none) "b" "c" ≡ has_edge tree "b" "c"
allows_plan_edges_example =
    allows_plan_edges (plan hierarchical tree) (made hierarchical tree none) "b" "c" tree_accepted

-- two agents that are each other's parent, and a third
abbrev cycle : List CoordinationEdge
cycle = edge parent "a" "b" ∷ edge parent "b" "a" ∷ []
