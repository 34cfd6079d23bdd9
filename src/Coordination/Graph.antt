-- ===== src/Coordination/Graph.antt =====
-- mininet_ai/coordination/graph.py: `CoordinationGraph`, the validated graph of a plan's coordination
-- edges.
-- The texts of a `CoordinationGraphError` are left out, its codes are kept. The constructor raises
-- only the code `coordination.graph.invalid-plan`: it returns `none` then. `_agents` is a set of texts
-- without order: here it is the list of the plan's agents, which has no duplicates.
pub mod Counts
pub mod Runs
pub mod Start
pub mod Hierarchy
pub mod Delivery
pub mod Modes
mod Tests
use mininet_ai.Prelude.{
  ℕ, zero, suc, ◌+◌, ◌-◌, ◌*◌, String, Bool, true, false, not, ◌&&◌, ◌||◌, Option, none, some, List,
  [], ◌∷◌, ◌++◌, map, ◌==◌, leb, nat_beq, find, any, all, keep, contains, length, if◌then◌else◌,
  ◌⊎◌, inl, inr,
}
use mininet_ai.Prelude.Dict.{lookup, insert}
use mininet_ai.Prelude.Sorting.{str_leb, sort}

pub data CoordinationMode : Type 0 where
  independent centralized hierarchical distributed : CoordinationMode

pub data Relationship : Type 0 where
  coordinates parent peer : Relationship

pub record CoordinationEdge : Type 0 where
  pub source : String
  pub target : String
  pub relationship : Relationship

-- what the constructor reads of a `DeploymentPlan`
pub record Plan : Type 0 where
  pub mode : CoordinationMode
  pub agents : List String
  pub edges : List CoordinationEdge

pub record CoordinationGraph : Type 0 where
  pub mode : CoordinationMode
  pub agents : List String
  pub edges : List CoordinationEdge
  pub coordinator : Option String

pub data GraphError : Type 0 where
  agent_unknown delivery_denied assertion_error : GraphError

-- `len(set(ids)) == len(ids)`
abbrev pub no_duplicates : List String → Bool
no_duplicates [] = true
no_duplicates (x ∷ xs) = not (contains xs x) && no_duplicates xs

-- `(source, target) in self._edges`
abbrev pub has_edge : List CoordinationEdge → String → String → Bool
has_edge edges source target = any (λ e. e.source == source && e.target == target) edges

-- the relationship that a mode expects
abbrev pub fits : CoordinationMode → Relationship → Bool
fits centralized coordinates = true
fits hierarchical parent = true
fits distributed peer = true
fits _ _ = false

-- `_validate_edge`; with the mode `independent` no edge is valid
unfoldable pub validate_edge : CoordinationMode → List String → CoordinationEdge → Bool
validate_edge mode agents e =
    fits mode e.relationship
    && contains agents e.source
    && contains agents e.target
    && not (e.source == e.target)

-- the loop over the plan's edges, after those of `done`
unfoldable pub add_edges :
    CoordinationMode
    → List String
    → List CoordinationEdge
    → List CoordinationEdge
    → Option (List CoordinationEdge)
unfolding validate_edge
add_edges mode agents done [] = some done
add_edges mode agents done (e ∷ es) =
    let rest = add_edges mode agents (done ++ e ∷ []) es in
    if validate_edge mode agents e && not (has_edge done e.source e.target) then rest else none

-- `self._destinations.get(source, ())`
unfoldable pub targets_of : List CoordinationEdge → String → List String
targets_of edges source = sort str_leb (map (λ e. e.target) (keep (λ e. e.source == source) edges))

-- `incoming[agent]`, of an agent
abbrev pub incoming_of : List (String × ℕ) → String → ℕ
incoming_of incoming a = elim (lookup a incoming) [ none ↦ 0 | some n ↦ n ]

-- `incoming` after the loop over the edges
unfoldable pub count_incoming : List CoordinationEdge → List (String × ℕ) → List (String × ℕ)
count_incoming [] incoming = incoming
count_incoming (e ∷ es) incoming =
    count_incoming es (insert e.target (suc (incoming_of incoming e.target)) incoming)

-- the loop over the targets of an agent that is visited: one edge less into each, and those that have
-- none left are ready. `incoming` is at least one there, as each edge is counted and released once.
unfoldable pub release :
    List String → List (String × ℕ) → List String → List (String × ℕ) × List String
release [] incoming ready = (incoming, ready)
release (t ∷ ts) incoming ready =
    let left = incoming_of incoming t - 1 in
    release ts (insert t left incoming) (if nat_beq left 0 then ready ++ t ∷ [] else ready)

abbrev pub before : String → Option (List String) → Option (List String)
before a none = none
before a (some later) = some (a ∷ later)

-- `while ready`: the agents in the order in which they are visited. A round takes one unit of fuel;
-- `none` is a loop that is out of fuel.
unfoldable pub visit :
    List CoordinationEdge → ℕ → List (String × ℕ) → List String → Option (List String)
unfolding release targets_of
visit edges fuel incoming [] = some []
visit edges zero incoming (source ∷ ready) = none
visit edges (suc fuel) incoming (source ∷ ready) =
    let (incoming', ready') = release (targets_of edges source) incoming ready in
    before source (visit edges fuel incoming' ready')

-- `_validate_hierarchy`: one round for each agent is enough fuel
unfoldable pub validate_hierarchy : List String → List CoordinationEdge → Bool
unfolding visit count_incoming
validate_hierarchy agents edges =
    let incoming = count_incoming edges (map (λ a. (a, 0)) agents) in
    let ready = sort str_leb (keep (λ a. nat_beq (incoming_of incoming a) 0) agents) in
    elim (visit edges (length agents) incoming ready) [
      | none ↦ false
      | some visited ↦ nat_beq (length visited) (length agents)
    ]

-- `_validate_centralized`: the coordinator
unfoldable pub validate_centralized : List String → List CoordinationEdge → Option String
validate_centralized [] edges = none
validate_centralized (a ∷ []) [] = some a
validate_centralized (a ∷ []) (e ∷ edges) = none
validate_centralized (a ∷ b ∷ agents) [] = none
validate_centralized (a ∷ b ∷ agents) (e ∷ edges) =
    if all (λ x. x.source == e.source) edges
      && all (λ x. contains (a ∷ b ∷ agents) x.target && not (x.target == e.source)) (e ∷ edges)
      && all (λ t. t == e.source || has_edge (e ∷ edges) e.source t) (a ∷ b ∷ agents)
    then some e.source
    else none

-- `_validate_peers`
unfoldable pub validate_peers : List CoordinationEdge → Bool
validate_peers edges = all (λ e. has_edge edges e.target e.source) edges

-- `_validate_shape`, with the coordinator that it leaves
unfoldable pub validate_shape :
    CoordinationMode → List String → List CoordinationEdge → Option (Option String)
unfolding validate_centralized validate_hierarchy validate_peers
validate_shape independent agents edges = some none
validate_shape centralized agents edges = elim (validate_centralized agents edges) [
  | none ↦ none
  | some c ↦ some (some c)
]
validate_shape hierarchical agents edges =
    if validate_hierarchy agents edges then some none else none
validate_shape distributed agents edges = if validate_peers edges then some none else none

-- `CoordinationGraph(plan)`
unfoldable pub new_graph : Plan → Option CoordinationGraph
unfolding add_edges validate_shape
new_graph plan =
    if no_duplicates plan.agents
    then elim (add_edges plan.mode plan.agents [] plan.edges) [
      | none ↦ none
      | some edges ↦ elim (validate_shape plan.mode plan.agents edges) [
        | none ↦ none
        | some coordinator ↦ some record {
          mode = plan.mode;
          agents = plan.agents;
          edges = edges;
          coordinator = coordinator;
        }
      ]
    ]
    else none

abbrev pub hop_limit : CoordinationGraph → ℕ
hop_limit g = let limit = length g.agents * 2 in if leb 1 limit then limit else 1

unfoldable pub entry_agent : CoordinationGraph → String → GraphError ⊎ String
entry_agent g requested =
    if contains g.agents requested
    then elim g.mode [
      | centralized ↦ elim g.coordinator [ none ↦ inl assertion_error | some c ↦ inr c ]
      | _ ↦ inr requested
    ]
    else inl agent_unknown

unfoldable pub destinations : CoordinationGraph → String → GraphError ⊎ List String
unfolding targets_of
destinations g source =
    if contains g.agents source then inr (targets_of g.edges source) else inl agent_unknown

unfoldable pub authorize : CoordinationGraph → String → String → GraphError ⊎ CoordinationEdge
authorize g source target =
    if contains g.agents source && contains g.agents target
    then elim (find (λ e. e.source == source && e.target == target) g.edges) [
      | none ↦ inl delivery_denied
      | some e ↦ inr e
    ]
    else inl agent_unknown
