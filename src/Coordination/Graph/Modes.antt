-- ===== src/Coordination/Graph/Modes.antt =====
-- coordination/graph.py: the deliveries that a validated graph allows, by the mode.
use mininet_ai.Prelude.{
  ℕ, ◌<◌, ◌≡◌, sym, ◌∙◌, String, Bool, true, not, ◌&&◌, ◌||◌, some, List, [], ◌∷◌, ◌==◌, all,
  contains, Bool-cases, Option-cases, subst, inl, inr, arith, eq_iff, eq_refl,
}
use mininet_ai.Coordination.Graph.{
  centralized, hierarchical, distributed, CoordinationEdge, Plan, CoordinationGraph, has_edge,
  validate_shape, validate_centralized, validate_peers, validate_hierarchy, new_graph, entry_agent,
}
use mininet_ai.Coordination.Graph.Hierarchy.{IsAmong, IsRanked, hierarchy_accepts_acyclic}
use mininet_ai.Coordination.Graph.Delivery.{
  allows, allows-has_edge, new_graph-IsMade, made-IsAmong, allows-made,
}

-- a chain of deliveries that are allowed
pub data Delivers (g : CoordinationGraph) : String → String → Type 0 where
  directly : (a b : String) → allows g a b ≡ true → Delivers g a b
  onward : (a b c : String) → Delivers g a b → allows g b c ≡ true → Delivers g a c

has_edge-rank :
    (rank : String → ℕ) (es : List CoordinationEdge) (s t : String)
    → IsRanked es rank
    → has_edge es s t ≡ true
    → rank s < rank t
has_edge-rank rank [] s t r h = ground (arith, h)
has_edge-rank rank (e ∷ es) s t r h = elim (Bool-cases (e.source == s && e.target == t)) [
  | inl q ↦
      subst (λ x. rank x < rank t) ((eq_iff e.source s).0 (ground (arith, q)))
        (subst (λ y. rank e.source < rank y) ((eq_iff e.target t).0 (ground (arith, q))) r.0)
  | inr q ↦ has_edge-rank rank es s t r.1 (ground (arith, h, q))
]

Delivers-rank :
    (rank : String → ℕ) (g : CoordinationGraph) {a b : String}
    → IsRanked g.edges rank
    → Delivers g a b
    → rank a < rank b
Delivers-rank rank g r (directly a b h) =
    has_edge-rank rank g.edges a b r (ground (arith, h, allows-has_edge g a b))
Delivers-rank rank g r (onward a b c d h) =
    let first = Delivers-rank rank g r d in
    let last = has_edge-rank rank g.edges b c r (ground (arith, h, allows-has_edge g b c)) in
    omega arith

-- In a hierarchical graph that is accepted, no chain of allowed deliveries leads back to where it
-- starts.
pub hierarchy_no_cycle :
    (plan : Plan) (g : CoordinationGraph) (a : String)
    → new_graph plan ≡ some g
    → plan.mode ≡ hierarchical
    → ¬ Delivers g a a
unfolding validate_shape
hierarchy_no_cycle plan g a h m d =
    let made = new_graph-IsMade plan g h in
    let accepted : validate_hierarchy plan.agents g.edges ≡ true = ground (arith, made.shape, m) in
    let (rank, ranked) =
      (hierarchy_accepts_acyclic plan.agents g.edges made.distinct (made-IsAmong plan g made)).0
        accepted in
    let up = Delivers-rank rank g ranked d in absurd (omega arith)

all-has_edge :
    (test : String → String → Bool) (es : List CoordinationEdge) (s t : String)
    → all (λ e. test e.source e.target) es ≡ true
    → has_edge es s t ≡ true
    → test s t ≡ true
all-has_edge test [] s t p h = ground (arith, h)
all-has_edge test (e ∷ es) s t p h = elim (Bool-cases (e.source == s && e.target == t)) [
  | inl q ↦
      subst (λ x. test x t ≡ true) ((eq_iff e.source s).0 (ground (arith, q)))
        (subst (λ y. test e.source y ≡ true) ((eq_iff e.target t).0 (ground (arith, q)))
          (ground (arith, p)))
  | inr q ↦ all-has_edge test es s t (ground (arith, p)) (ground (arith, h, q))
]

-- In a distributed graph that is accepted, an agent may deliver to another exactly if the other may
-- deliver to it.
pub peers_symmetric :
    (plan : Plan) (g : CoordinationGraph) (s t : String)
    → new_graph plan ≡ some g
    → plan.mode ≡ distributed
    → allows g s t ≡ allows g t s
unfolding validate_shape validate_peers
peers_symmetric plan g s t h m =
    let made = new_graph-IsMade plan g h in
    let peers : validate_peers g.edges ≡ true = ground (arith, made.shape, m) in
    ground (
      arith,
      allows-has_edge g s t,
      allows-has_edge g t s,
      all-has_edge (λ x y. has_edge g.edges y x) g.edges s t peers,
      all-has_edge (λ x y. has_edge g.edges y x) g.edges t s peers,
    )

all-contains :
    (test : String → Bool) (xs : List String) (a : String)
    → all test xs ≡ true
    → contains xs a ≡ true
    → test a ≡ true
all-contains test [] a p h = ground (arith, h)
all-contains test (x ∷ xs) a p h = elim (Bool-cases (x == a)) [
  | inl q ↦ subst (λ y. test y ≡ true) ((eq_iff x a).0 q) (ground (arith, p))
  | inr q ↦ all-contains test xs a (ground (arith, p)) (ground (arith, h, q))
]

-- what the set equality of `_validate_centralized` says of a pair
star_edges :
    (agents : List String) (es : List CoordinationEdge) (c s t : String)
    → all (λ x. x.source == c) es ≡ true
    → all (λ x. contains agents x.target && not (x.target == c)) es ≡ true
    → all (λ y. y == c || has_edge es c y) agents ≡ true
    → has_edge es s t ≡ (s == c && contains agents t && not (t == c))
star_edges agents es c s t f g h = elim (Bool-cases (s == c)) [
  | inl q ↦
      subst (λ x. has_edge es x t ≡ (x == c && contains agents t && not (t == c)))
        (sym ((eq_iff s c).0 q))
        (ground (
          arith,
          eq_refl c,
          all-has_edge (λ _ y. contains agents y && not (y == c)) es c t g,
          all-contains (λ y. y == c || has_edge es c y) agents t h,
        ))
  | inr q ↦ ground (arith, q, all-has_edge (λ x _. x == c) es s t f)
]

centralized_edges :
    (agents : List String) (es : List CoordinationEdge) (c s t : String)
    → validate_centralized agents es ≡ some c
    → has_edge es s t ≡ (s == c && contains agents t && not (t == c))
unfolding validate_centralized
centralized_edges [] es c s t h = ground (arith, h)
centralized_edges (a ∷ []) [] c s t h = ground (arith, h, eq_iff a t, eq_iff t a)
centralized_edges (a ∷ []) (e ∷ es) c s t h = ground (arith, h)
centralized_edges (a ∷ b ∷ agents) [] c s t h = ground (arith, h)
centralized_edges (a ∷ b ∷ agents) (e ∷ es) c s t h =
    subst (λ x. has_edge (e ∷ es) s t ≡ (s == x && contains (a ∷ b ∷ agents) t && not (t == x)))
      (ground (arith, h))
      (star_edges (a ∷ b ∷ agents) (e ∷ es) e.source s t (ground (arith, h, eq_refl e.source))
        (ground (arith, h)) (ground (arith, h)))

centralized_known :
    (agents : List String) (es : List CoordinationEdge) (c : String)
    → IsAmong agents es
    → validate_centralized agents es ≡ some c
    → contains agents c ≡ true
unfolding validate_centralized
centralized_known [] es c g h = ground (arith, h)
centralized_known (a ∷ []) [] c g h = ground (arith, h, eq_refl a)
centralized_known (a ∷ []) (e ∷ es) c g h = ground (arith, h)
centralized_known (a ∷ b ∷ agents) [] c g h = ground (arith, h)
centralized_known (a ∷ b ∷ agents) (e ∷ es) c g h =
    subst (λ x. contains (a ∷ b ∷ agents) x ≡ true) (ground (arith, h)) g.0.0

-- In a centralized graph that is accepted, one agent of the plan is the coordinator: every request enters
-- there, and it may deliver to each other agent, while no other delivery is allowed.
pub centralized_star :
    (plan : Plan) (g : CoordinationGraph)
    → new_graph plan ≡ some g
    → plan.mode ≡ centralized
    → (c : String) × (contains plan.agents c ≡ true)
      × ((a : String) → contains plan.agents a ≡ true → entry_agent g a ≡ inr c)
      × ((s t : String) → allows g s t ≡ (s == c && contains plan.agents t && not (t == c)))
unfolding validate_shape entry_agent
centralized_star plan g h m =
    let made = new_graph-IsMade plan g h in
    let among = made-IsAmong plan g made in
    elim (Option-cases (validate_centralized plan.agents g.edges)) [
      | inl e ↦ absurd (ground (arith, made.shape, m, e))
      | inr (c, e) ↦ (
        c,
        centralized_known plan.agents g.edges c among e,
        λ a k. ground (arith, made.shape, made.mode_eq, made.agents_eq, m, e, k),
        λ s t. allows-made plan g s t made ∙ centralized_edges plan.agents g.edges c s t e,
      )
    ]
