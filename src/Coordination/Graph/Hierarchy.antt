-- ===== src/Coordination/Graph/Hierarchy.antt =====
-- coordination/graph.py: `_validate_hierarchy` accepts the graphs without a cycle.
use mininet_ai.Prelude.{
  ℕ, zero, suc, ◌+◌, ◌<◌, ◌≡◌, ◌↔◌, refl, String, Bool, true, false, some, List, [], ◌∷◌, ◌++◌,
  ◌==◌, nat_beq, append_assoc, contains, length, count, Bool-cases, subst, if◌then◌else◌, inl, inr,
  arith, eq_iff, All, get_elem?, All-get_elem?,
}
use mininet_ai.Coordination.Graph.{
  CoordinationEdge, targets_of, no_duplicates, validate_hierarchy, visit,
}
use mininet_ai.Coordination.Graph.Counts.{
  open_edge, between, contains-append, count-targets_of, count-contains, count-all, count_of_all,
}
use mininet_ai.Coordination.Graph.Runs.{IsTopological, IsRun, visit_ends}
use mininet_ai.Coordination.Graph.Start.{
  contains-count, All-contains, first_incoming, first_ready, first-IsRun,
}

-- both ends of each edge are agents of the plan
abbrev pub IsAmong : List String → List CoordinationEdge → Type 0
IsAmong agents edges =
    All (λ e. (contains agents e.source ≡ true) × (contains agents e.target ≡ true)) edges

-- a level for each agent, higher at the target of an edge than at its source: there is no cycle
abbrev pub IsRanked : List CoordinationEdge → (String → ℕ) → Type 0
IsRanked edges rank = All (λ e. rank e.source < rank e.target) edges

count_zero :
    (test : CoordinationEdge → Bool) (es : List CoordinationEdge)
    → count test es ≡ 0
    → All (λ e. test e ≡ false) es
count_zero test [] h = tt
count_zero test (e ∷ es) h = (ground (arith, h), count_zero test es (ground (arith, h)))

count_of_none :
    (test : CoordinationEdge → Bool) (es : List CoordinationEdge)
    → All (λ e. test e ≡ false) es
    → count test es ≡ 0
count_of_none test [] h = refl
count_of_none test (e ∷ es) h = ground (arith, h.0, count_of_none test es h.1)

-- where an agent stands in the order of the visits
abbrev pub position : List String → String → ℕ
position [] a = 0
position (x ∷ xs) a = let later = suc (position xs a) in if x == a then 0 else later

position-append :
    (xs ys : List String) (a : String)
    → position (xs ++ ys) a ≡ (if contains xs a then position xs a else length xs + position ys a)
position-append [] ys a = omega arith
position-append (x ∷ xs) ys a = ground (arith, position-append xs ys a)

position_lt : (xs : List String) (a : String) → contains xs a ≡ true → position xs a < length xs
position_lt [] a h = ground (arith, h)
position_lt (x ∷ xs) a h = ground (arith, h, position_lt xs a)

module _ (agents : List String) (edges : List CoordinationEdge) where
  -- In a topological order the source of an edge stands before its target.
  position_source :
      (earlier later : List String) (e : CoordinationEdge) (k : ℕ)
      → get_elem? edges k ≡ some e
      → IsTopological agents edges earlier later
      → contains earlier e.target ≡ false
      → contains later e.target ≡ true
      → position (earlier ++ later) e.source < position (earlier ++ later) e.target
  position_source earlier [] e k at h n m = ground (arith, m)
  position_source earlier (a ∷ later) e k at h n m = elim (Bool-cases (a == e.target)) [
    | inl q ↦ ground (
      arith,
      q,
      n,
      position-append earlier (a ∷ later) e.source,
      position-append earlier (a ∷ later) e.target,
      position_lt earlier e.source,
      All-get_elem? (λ x. open_edge earlier a x ≡ false) edges k e
          (count_zero (open_edge earlier a) edges h.0) at,
      eq_iff a e.target,
      eq_iff e.target a,
    )
    | inr q ↦
        subst (λ l. position l e.source < position l e.target) (append_assoc earlier (a ∷ []) later)
          (position_source (earlier ++ a ∷ []) later e k at h.1
            (ground (arith, contains-append earlier (a ∷ []) e.target, n, q))
            (ground (arith, m, q)))
  ]

  -- An agent has no open edge if all agents with a lower rank are visited.
  ranked_closed :
      (rank : String → ℕ) (visited : List String) (a : String)
      → ((s : String) → contains agents s ≡ true → rank s < rank a → contains visited s ≡ true)
      → (es : List CoordinationEdge) → IsAmong agents es
      → IsRanked es rank
      → All (λ e. open_edge visited a e ≡ false) es
  ranked_closed rank visited a lower [] g r = tt
  ranked_closed rank visited a lower (e ∷ es) (g, gs) (r, rs) =
      (ground (arith, source_visited), ranked_closed rank visited a lower es gs rs)
    where
      source_visited : (e.target == a) ≡ true → contains visited e.source ≡ true
      source_visited q =
          lower e.source g.0 (subst (λ t. rank e.source < rank t) ((eq_iff e.target a).0 q) r)

  -- Agents whose rank is below `n` are visited when none is left that is ready.
  ranked_visited :
      (rank : String → ℕ) (visited : List String) (after : List (String × ℕ))
      → IsAmong agents edges
      → IsRanked edges rank
      → IsRun agents edges visited visited [] after
      → (n : ℕ) (a : String) → contains agents a ≡ true
      → rank a < n
      → contains visited a ≡ true
  ranked_visited rank visited after g r u zero a m l = ground (arith, l)
  ranked_visited rank visited after g r u (suc n) a m l =
      let lower : (s : String)
          → contains agents s ≡ true
          → rank s < rank a
          → contains visited s ≡ true =
        λ s k b. ranked_visited rank visited after g r u n s k (omega arith) in
      ground (
        arith,
        u.queued a m,
        count_of_none (open_edge visited a) edges (ranked_closed rank visited a lower edges g r),
      )

  count-between :
      (s a : String) (es : List CoordinationEdge)
      → IsAmong agents es
      → contains agents a ≡ false
      → count (between s a) es ≡ 0
  count-between s a [] g m = refl
  count-between s a (e ∷ es) g m =
      ground (arith, g.0.1, m, count-between s a es g.1 m, eq_iff e.target a)

  targets_known :
      IsAmong agents edges → (s : String) → All (λ t. contains agents t ≡ true) (targets_of edges s)
  targets_known g s = All-contains _ (targets_of edges s) (λ a m. ground (
    arith,
    m,
    contains-count (targets_of edges s) a,
    count-targets_of edges s a,
    count-between s a edges g,
  ))

  -- How the loop of `_validate_hierarchy` ends.
  hierarchy-IsRun :
      no_duplicates agents ≡ true
      → IsAmong agents edges
      → (visited : List String) × (after : List (String × ℕ)) × (validate_hierarchy agents edges
          ≡ nat_beq (length visited) (length agents))
        × IsRun agents edges visited visited [] after
  unfolding validate_hierarchy
  hierarchy-IsRun d g =
      let (visited, after, e, u) =
        visit_ends agents edges d (targets_known g) (length agents) (first_incoming agents edges d)
          [] (first_ready agents edges d) (first-IsRun agents edges d) (omega arith) in
      (visited, after, rw (e, validate_hierarchy) refl, u)

  all_visited-IsRanked :
      (visited : List String)
      → IsAmong agents edges
      → IsTopological agents edges [] visited
      → ((a : String) → contains agents a ≡ true → contains visited a ≡ true)
      → (es : List CoordinationEdge) → IsAmong agents es
      → ((k : ℕ) (e : CoordinationEdge)
          → get_elem? es k ≡ some e
          → (j : ℕ) × (get_elem? edges j ≡ some e))
      → IsRanked es (position visited)
  all_visited-IsRanked visited g t v [] gs h = tt
  all_visited-IsRanked visited g t v (e ∷ es) gs h =
      let (j, at) = h 0 e refl in
      (
        position_source [] visited e j at t refl (v e.target gs.0.1),
        all_visited-IsRanked visited g t v es gs.1 (λ k x q. h (suc k) x q),
      )

  -- With agents that are distinct, and edges among them: the loop of `_validate_hierarchy`, from the
  -- state in which it starts, ends within one round for each agent, also if there is a cycle.
  pub hierarchy_loop_ends :
      (distinct : no_duplicates agents ≡ true)
      → IsAmong agents edges
      → (visited : List String) × (visit edges
            (length agents)
            (first_incoming agents edges distinct)
            (first_ready agents edges distinct)
          ≡ some visited)
  hierarchy_loop_ends d g =
      let (visited, _, e, _) =
        visit_ends agents edges d (targets_known g) (length agents) (first_incoming agents edges d)
          [] (first_ready agents edges d) (first-IsRun agents edges d) (omega arith) in
      (visited, e)

  -- With agents that are distinct, and edges among them: `_validate_hierarchy` accepts the graph exactly
  -- if there are levels for the agents such that each edge leads from a lower to a higher one, that is, if
  -- the graph has no cycle.
  pub hierarchy_accepts_acyclic :
      no_duplicates agents ≡ true
      → IsAmong agents edges
      → (validate_hierarchy agents edges ≡ true) ↔ ((rank : String → ℕ) × IsRanked edges rank)
  hierarchy_accepts_acyclic d g =
      let (visited, after, e, u) = hierarchy-IsRun d g in
      let counted = count-contains agents visited d u.once u.known in
      (
        λ accepted. (
          position visited,
          all_visited-IsRanked visited g u.ordered
              (count-all (contains visited) agents (ground (arith, counted, e, accepted))) edges g
              (λ k x q. (k, q)),
        ),
        λ ranked.
            let all_visited = count_of_all (contains visited) agents (λ a m.
              ranked_visited ranked.0 visited after g ranked.1 u (suc (ranked.0 a)) a m
                (omega arith)) in
            ground (arith, counted, e, all_visited),
      )
