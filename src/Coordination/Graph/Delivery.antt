-- ===== src/Coordination/Graph/Delivery.antt =====
-- coordination/graph.py: the deliveries that a validated graph allows.
use mininet_ai.Prelude.{
  ◌≡◌, refl, sym, ◌∙◌, String, Bool, true, false, not, ◌&&◌, none, some, List, [], ◌∷◌, ◌++◌, ◌==◌,
  nat_beq, any, find, append-nil, append_assoc, contains, count, subst, ap, inl, inr, arith, eq_iff,
  All, All-append,
}
use mininet_ai.Coordination.Graph.{
  CoordinationMode, CoordinationEdge, Plan, CoordinationGraph, no_duplicates, has_edge,
  validate_edge, add_edges, targets_of, validate_shape, new_graph, destinations, authorize,
}
use mininet_ai.Coordination.Graph.Counts.{between, count-targets_of}
use mininet_ai.Coordination.Graph.Start.{contains-count}
use mininet_ai.Coordination.Graph.Hierarchy.{IsAmong}

-- does `authorize` return an edge?
abbrev pub allows : CoordinationGraph → String → String → Bool
allows g s t = elim (authorize g s t) [ inl e ↦ false | inr edge ↦ true ]

find-any :
    (test : CoordinationEdge → Bool) (es : List CoordinationEdge)
    → any test es ≡ elim (find test es) [ none ↦ false | some e ↦ true ]
find-any test [] = refl
find-any test (e ∷ es) = ground (arith, find-any test es)

pub allows-has_edge :
    (g : CoordinationGraph) (s t : String)
    → allows g s t ≡ (contains g.agents s && contains g.agents t && has_edge g.edges s t)
unfolding authorize
allows-has_edge g s t = ground (arith, find-any (λ e. e.source == s && e.target == t) g.edges)

-- The plan's edges are taken as they are, and each is valid.
add_edges_valid :
    (mode : CoordinationMode) (agents : List String) (done es all_edges : List CoordinationEdge)
    → add_edges mode agents done es ≡ some all_edges
    → All (λ e. validate_edge mode agents e ≡ true) done
    → All (λ e. validate_edge mode agents e ≡ true) all_edges
unfolding add_edges
add_edges_valid mode agents done [] all_edges h v =
    subst (All (λ e. validate_edge mode agents e ≡ true)) (ground (arith, h)) v
add_edges_valid mode agents done (e ∷ es) all_edges h v =
    add_edges_valid mode agents (done ++ e ∷ []) es all_edges (ground (arith, h))
      (All-append _ done (e ∷ []) v (ground (arith, h), tt))

validate_edge-IsAmong :
    (mode : CoordinationMode) (agents : List String) (es : List CoordinationEdge)
    → All (λ e. validate_edge mode agents e ≡ true) es
    → IsAmong agents es
unfolding validate_edge
validate_edge-IsAmong mode agents [] v = tt
validate_edge-IsAmong mode agents (e ∷ es) v =
    ((ground (arith, v.0), ground (arith, v.0)), validate_edge-IsAmong mode agents es v.1)

-- what is known of a graph that was made
pub record IsMade (plan : Plan) (g : CoordinationGraph) : Type 0 where
  pub distinct : no_duplicates plan.agents ≡ true
  pub agents_eq : g.agents ≡ plan.agents
  pub mode_eq : g.mode ≡ plan.mode
  pub edges_added : add_edges plan.mode plan.agents [] plan.edges ≡ some g.edges
  pub shape : validate_shape plan.mode plan.agents g.edges ≡ some g.coordinator

pub new_graph-IsMade :
    (plan : Plan) (g : CoordinationGraph) → new_graph plan ≡ some g → IsMade plan g
unfolding new_graph
new_graph-IsMade plan g h = record {
  distinct = ground (arith, h);
  agents_eq = ground (arith, h);
  mode_eq = ground (arith, h);
  edges_added = ground (arith, h);
  shape = ground (arith, h);
}

pub made-IsAmong :
    (plan : Plan) (g : CoordinationGraph) → IsMade plan g → IsAmong plan.agents g.edges
made-IsAmong plan g m =
    validate_edge-IsAmong plan.mode plan.agents g.edges
      (add_edges_valid plan.mode plan.agents [] plan.edges g.edges m.edges_added tt)

has_edge_known :
    (agents : List String) (es : List CoordinationEdge) (s t : String)
    → IsAmong agents es
    → has_edge es s t ≡ true
    → (contains agents s ≡ true) × (contains agents t ≡ true)
has_edge_known agents [] s t g h = ground (arith, h)
has_edge_known agents (e ∷ es) s t g h =
    ground (arith, g.0, h, has_edge_known agents es s t g.1, eq_iff e.source s, eq_iff e.target t)

pub allows-made :
    (plan : Plan) (g : CoordinationGraph) (s t : String)
    → IsMade plan g
    → allows g s t ≡ has_edge g.edges s t
allows-made plan g s t m =
    let among =
      subst (λ agents. IsAmong agents g.edges) (sym m.agents_eq) (made-IsAmong plan g m) in
    ground (arith, allows-has_edge g s t, has_edge_known g.agents g.edges s t among)

add_edges-append :
    (mode : CoordinationMode) (agents : List String) (done es all_edges : List CoordinationEdge)
    → add_edges mode agents done es ≡ some all_edges
    → all_edges ≡ done ++ es
unfolding add_edges
add_edges-append mode agents done [] all_edges h = ground (arith, h, append-nil done)
add_edges-append mode agents done (e ∷ es) all_edges h =
    add_edges-append mode agents (done ++ e ∷ []) es all_edges (ground (arith, h))
    ∙ append_assoc done (e ∷ []) es

-- A graph that is accepted allows a delivery exactly if the plan has an edge for it.
pub allows_plan_edges :
    (plan : Plan) (g : CoordinationGraph) (s t : String)
    → new_graph plan ≡ some g
    → allows g s t ≡ has_edge plan.edges s t
allows_plan_edges plan g s t h =
    let made = new_graph-IsMade plan g h in
    allows-made plan g s t made
    ∙ ap (λ es. has_edge es s t)
        (add_edges-append plan.mode plan.agents [] plan.edges g.edges made.edges_added)

has_edge-count :
    (es : List CoordinationEdge) (s t : String)
    → has_edge es s t ≡ not (nat_beq (count (between s t) es) 0)
has_edge-count [] s t = refl
has_edge-count (e ∷ es) s t = ground (arith, has_edge-count es s t)

-- In a graph that is accepted, an agent of the plan has as destinations exactly the agents to which it
-- may deliver.
pub destinations_allowed :
    (plan : Plan) (g : CoordinationGraph) (s t : String)
    → new_graph plan ≡ some g
    → contains plan.agents s ≡ true
    → (ds : List String) × (destinations g s ≡ inr ds) × (contains ds t ≡ allows g s t)
unfolding destinations
destinations_allowed plan g s t h k =
    let made = new_graph-IsMade plan g h in
    let known = subst (λ agents. contains agents s ≡ true) (sym made.agents_eq) k in
    let among =
      subst (λ agents. IsAmong agents g.edges) (sym made.agents_eq) (made-IsAmong plan g made) in
    (
      targets_of g.edges s,
      ground (arith, known),
      ground (
        arith,
        known,
        contains-count (targets_of g.edges s) t,
        count-targets_of g.edges s t,
        has_edge-count g.edges s t,
        allows-has_edge g s t,
        has_edge_known g.agents g.edges s t among,
      ),
    )
