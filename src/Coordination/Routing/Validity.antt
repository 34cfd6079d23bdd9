-- ===== src/Coordination/Routing/Validity.antt =====
-- coordination/routing.py: the messages of a request are valid and go along the graph.
use mininet_ai.Prelude.{
  ℕ, ◌+◌, String, ◌≡◌, refl, subst, true, Option, none, some, List, arith, ◌⊎◌, inl, inr, contains,
  leb, All, Bool-cases,
}
use mininet_ai.Coordination.Graph.{
  CoordinationGraph, CoordinationEdge, authorize, entry_agent, hop_limit,
}
use mininet_ai.Coordination.Channel.{Channel, Sink}
use mininet_ai.Coordination.Messages.{CoordinationMessage, valid_message, filled}
use mininet_ai.Coordination.Routing.{
  CoordinationRequest, DelegationProposal, Coordination, Op, checked, delegated, root,
  start_request, run,
}
use mininet_ai.Coordination.Routing.Sound.{
  IsInvocation, Keeps, IsRouted, start_request-IsRouted, run-IsRouted,
}

-- A message of the request: pydantic accepts it, it has the identities of the request, it is within
-- the limit of hops, and it enters at the entry agent or goes along an edge of the graph.
abbrev pub IsAllowed :
    {J T : Type 0} → CoordinationGraph → CoordinationRequest J → CoordinationMessage J T → Type 0
IsAllowed graph request m =
    (valid_message m ≡ true)
    × (m.run_id ≡ request.run_id)
    × (m.correlation_id ≡ request.correlation_id)
    × (leb m.hop_count (hop_limit graph) ≡ true)
    × (((m.source_agent_id ≡ none)
          × (entry_agent graph request.requested_agent_id ≡ inr m.target_agent_id))
        ⊎ ((source : String) × (edge : CoordinationEdge) × (m.source_agent_id ≡ some source)
            × (authorize graph source m.target_agent_id ≡ inr edge)))

checked-inr :
    {J T : Type 0} (m x : CoordinationMessage J T)
    → checked m ≡ inr x
    → (valid_message m ≡ true) × (m ≡ x)
checked-inr m x h = elim (Bool-cases (filled m.message_id)) [
  | inr e ↦ absurd (ground (arith, e, h))
  | inl e ↦ elim (Bool-cases (valid_message m)) [
    | inr f ↦ absurd (ground (arith, e, f, h))
    | inl f ↦ (f, ground (arith, e, f, h))
  ]
]

module _ {J T : Type 0} (ids : ℕ → String) (clock : ℕ → T) (graph : CoordinationGraph)
    (request : CoordinationRequest J) where
  child-IsAllowed :
      (parent m : CoordinationMessage J T) (invocation_id : String) (d : DelegationProposal J)
      (n : ℕ) (e : CoordinationEdge)
      → IsAllowed graph request parent
      → authorize graph parent.target_agent_id d.target_agent_id ≡ inr e
      → leb (parent.hop_count + 1) (hop_limit graph) ≡ true
      → checked (delegated ids clock parent invocation_id d n) ≡ inr m
      → IsAllowed graph request m
  child-IsAllowed parent m invocation_id d n e p a l h =
      let (valid, same_message) = checked-inr (delegated ids clock parent invocation_id d n) m h in
      subst (IsAllowed graph request) same_message
        (valid, p.1, p.2, l, inr (parent.target_agent_id, e, refl, a))

  root-IsAllowed :
      (m : CoordinationMessage J T) (entry : String)
      → entry_agent graph request.requested_agent_id ≡ inr entry
      → checked (root ids clock request entry) ≡ inr m
      → IsAllowed graph request m
  root-IsAllowed m entry e h =
      let (valid, same_message) = checked-inr (root ids clock request entry) m h in
      subst (IsAllowed graph request) same_message (valid, refl, refl, ground arith, inl (refl, e))

module _ {J T D W : Type 0} (same : Discrete (CoordinationMessage J T))
    (sink : Sink (CoordinationMessage J T) W) (ids : ℕ → String) (clock : ℕ → T)
    (graph : CoordinationGraph) (request : CoordinationRequest J) where
  -- Whatever the order in which messages are taken and futures end, and whatever other requests do to
  -- the channel: each message of a request is valid, has its run and correlation, has made at most as
  -- many hops as the graph allows, and came in at the entry agent or along an edge of the graph; and
  -- each invocation is of such a message, by its target and in its run.
  pub messages-IsAllowed :
      (lease : Option String) (channel : Channel (CoordinationMessage J T) W)
      (ops : List (Op J T D)) (c c' : Coordination J T D W)
      → All (λ m. contains channel.accepted_ids m.message_id ≡ true) channel.messages
      → start_request same sink ids clock graph request lease channel ≡ inr c
      → run same sink ids clock graph ops c ≡ inr c'
      → All (IsAllowed graph request) c'.messages
        × All (IsInvocation (IsAllowed graph request)) c'.invocations
  messages-IsAllowed lease channel ops c c' a s r =
      let first : IsRouted D same sink ids clock graph (IsAllowed graph request)
          (child-IsAllowed ids clock graph request) c =
        subst
          (Keeps (
            IsRouted D same sink ids clock graph (IsAllowed graph request)
              (child-IsAllowed ids clock graph request)))
          s
          (start_request-IsRouted D same sink ids clock graph (IsAllowed graph request)
            (child-IsAllowed ids clock graph request) request lease channel a
            (root-IsAllowed ids clock graph request)) in
      let last : IsRouted D same sink ids clock graph (IsAllowed graph request)
          (child-IsAllowed ids clock graph request) c' =
        subst
          (Keeps (
            IsRouted D same sink ids clock graph (IsAllowed graph request)
              (child-IsAllowed ids clock graph request)))
          r
          (run-IsRouted D same sink ids clock graph (IsAllowed graph request)
            (child-IsAllowed ids clock graph request) ops c first) in
      (last.messages_hold, last.invocations_hold)
