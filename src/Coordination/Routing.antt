-- ===== src/Coordination/Routing.antt =====
-- mininet_ai/coordination/routing.py: the routing of `CoordinationRuntime`: the root message of a
-- request, `_delegate`, and the loop of `_coordinate`.
-- The message identifiers and the clock are callbacks: their n-th answers are `ids n` and `clock n`.
-- `_take_invocation` and the end of a future are one step each, in any order; `available` says which
-- agents have a slot at that step.
mod Records
pub mod Queue
pub mod Sound
pub mod Validity
mod Tests
pub use Records.{
  CoordinationRequest, DelegationProposal, CoordinationIssue, AgentInvocationResult, FutureOutcome,
  CoordinationError, Coordination, graph_code, channel_code, hop_limit_exceeded, invalid_identity,
  id_of, message_issue, checked, delegated, root, refusal_issue, drop_at, no_messages, Op,
  add_issue, after_send, pending_messages, eligible_ids, submit, add_report, with_root, is_finished,
  raised, returned, graph_error, channel_error, invalid_id, invalid_message, invalid_lease, take_op,
  finish_op, other_op,
}
use mininet_ai.Prelude.{
  ℕ, zero, suc, ◌+◌, String, Bool, true, false, not, ◌&&◌, ◌||◌, Option, none, some, List, [], ◌∷◌,
  ◌++◌, map, ◌==◌, ltb, leb, keep, contains, get_elem?, if◌then◌else◌, ◌⊎◌, inl, inr,
}
use mininet_ai.Coordination.Graph.{
  CoordinationGraph, GraphError, agent_unknown, delivery_denied, assertion_error, CoordinationEdge,
  authorize, entry_agent, hop_limit,
}
use mininet_ai.Coordination.Channel.{
  Channel, SendError, closed_error, duplicate, full, sink_raised, Sink, send, Poll, got, exhausted,
  blocked, poll, Op as ChannelOp, step as channel_step,
}
use mininet_ai.Coordination.Messages.{
  CoordinationMessage, CoordinationIntentPayload, intent_kind, delegation_kind, valid_message,
  filled,
}

module _ {J T D W : Type 0} (same : Discrete (CoordinationMessage J T))
    (sink : Sink (CoordinationMessage J T) W) (ids : ℕ → String) (clock : ℕ → T)
    (graph : CoordinationGraph) where
  abbrev pub send_checked :
      Coordination J T D W
      → CoordinationError ⊎ CoordinationMessage J T
      → CoordinationError ⊎ Coordination J T D W
  send_checked c (inl e) = inl e
  send_checked c (inr m) =
      after_send m (record c { created = c.created + 1 }) (send id_of same sink m c.channel)

  -- `_delegate`
  unfoldable pub delegate :
      CoordinationMessage J T
      → String
      → DelegationProposal J
      → Coordination J T D W
      → CoordinationError ⊎ Coordination J T D W
  delegate parent invocation_id d c =
      elim (authorize graph parent.target_agent_id d.target_agent_id) [
        | inl e ↦ inr (add_issue (refusal_issue (graph_code e) parent d) c)
        | inr _ ↦
            if leb (parent.hop_count + 1) (hop_limit graph)
            then send_checked c (checked (delegated ids clock parent invocation_id d c.created))
            else inr (add_issue (refusal_issue hop_limit_exceeded parent d) c)
      ]

  -- `for delegation in response.delegations`
  unfoldable pub delegate_all :
      CoordinationMessage J T
      → String
      → List (DelegationProposal J)
      → Coordination J T D W
      → CoordinationError ⊎ Coordination J T D W
  unfolding delegate
  delegate_all parent invocation_id [] c = inr c
  delegate_all parent invocation_id (d ∷ ds) c = elim (delegate parent invocation_id d c) [
    | inl e ↦ inl e
    | inr c' ↦ delegate_all parent invocation_id ds c'
  ]

  -- `_take_invocation` and `_submit_invocation`; with no eligible message the channel is not asked
  unfoldable pub take_message : (String → Bool) → Coordination J T D W → Coordination J T D W
  take_message available c = elim (eligible_ids available c) [
    | [] ↦ c
    | i ∷ is ↦ submit c (poll id_of same sink (some (i ∷ is)) c.channel)
  ]

  abbrev pub delegate_response :
      CoordinationMessage J T
      → String
      → Option (List (DelegationProposal J))
      → Coordination J T D W
      → CoordinationError ⊎ Coordination J T D W
  delegate_response m invocation_id none c = inr c
  delegate_response m invocation_id (some ds) c = delegate_all m invocation_id ds c

  -- the loop's body for a future that is done
  abbrev pub settle_future :
      CoordinationMessage J T
      → FutureOutcome J D
      → Coordination J T D W
      → CoordinationError ⊎ Coordination J T D W
  settle_future m (raised code) c = inr (add_issue (message_issue code m) c)
  settle_future m (returned result response report) c =
      if not (result.run_id == m.run_id) || not (result.agent_id == m.target_agent_id)
      then inr (add_issue (message_issue invalid_identity m) c)
      else delegate_response m result.invocation_id response
          (add_report report (record c { invocations = c.invocations ++ (m, result) ∷ [] }))

  unfoldable pub finish :
      ℕ → FutureOutcome J D → Coordination J T D W → CoordinationError ⊎ Coordination J T D W
  unfolding delegate_all
  finish n outcome c = elim (get_elem? c.futures n) [
    | none ↦ inr c
    | some m ↦ settle_future m outcome (record c { futures = drop_at n c.futures })
  ]

  -- from `channel.send(root)` to the loop, with the agent of the lease if there is one
  abbrev pub after_root :
      CoordinationMessage J T
      → Option String
      → Option SendError × Channel (CoordinationMessage J T) W
      → CoordinationError ⊎ Coordination J T D W
  after_root m lease (some e, channel) = inl (channel_error e)
  after_root m none (none, channel) = inr (with_root m channel)
  after_root m (some agent_id) (none, channel) =
      if agent_id == m.target_agent_id
      then inr
          (submit (with_root m channel) (poll id_of same sink (some (m.message_id ∷ [])) channel))
      else inl invalid_lease

  abbrev pub send_root :
      Option String
      → Channel (CoordinationMessage J T) W
      → CoordinationError ⊎ CoordinationMessage J T
      → CoordinationError ⊎ Coordination J T D W
  send_root lease channel (inl e) = inl e
  send_root lease channel (inr m) = after_root m lease (send id_of same sink m channel)

  -- `_coordinate` up to its loop
  unfoldable pub start_request :
      CoordinationRequest J
      → Option String
      → Channel (CoordinationMessage J T) W
      → CoordinationError ⊎ Coordination J T D W
  start_request request lease channel = elim (entry_agent graph request.requested_agent_id) [
    | inl e ↦ inl (graph_error e)
    | inr entry ↦ send_root lease channel (checked (root ids clock request entry))
  ]

  -- what a round of the loop does, and what other requests do to the channel meanwhile
  abbrev pub step : Op J T D → Coordination J T D W → CoordinationError ⊎ Coordination J T D W
  step (take_op available) c = inr (take_message available c)
  step (finish_op n outcome) c = finish n outcome c
  step (other_op op) c = inr (record c { channel = (channel_step id_of same sink op c.channel).1 })

  unfoldable pub run :
      List (Op J T D) → Coordination J T D W → CoordinationError ⊎ Coordination J T D W
  unfolding take_message finish
  run [] c = inr c
  run (op ∷ ops) c = elim (step op c) [ inl e ↦ inl e | inr c' ↦ run ops c' ]
