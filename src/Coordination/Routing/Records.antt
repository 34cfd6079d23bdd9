-- ===== src/Coordination/Routing/Records.antt =====
-- mininet_ai/coordination/routing.py: the requests, issues and messages of the routing, and the
-- variables of `_coordinate`. The texts of issues are left out, their codes are kept.
use mininet_ai.Prelude.{
  ℕ, zero, suc, ◌+◌, String, Bool, true, false, not, ◌&&◌, Option, none, some, List, [], ◌∷◌, ◌++◌,
  map, keep, contains, if◌then◌else◌, ◌⊎◌, inl, inr,
}
use mininet_ai.Coordination.Graph.{GraphError, agent_unknown, delivery_denied, assertion_error}
use mininet_ai.Coordination.Channel.{
  Channel, SendError, closed_error, duplicate, full, sink_raised, Poll, got, Op as ChannelOp,
}
use mininet_ai.Coordination.Messages.{
  CoordinationMessage, intent_kind, delegation_kind, valid_message, filled,
}

-- `metadata` is what `_coordinate` makes of the two fields of the deadline.
pub record CoordinationRequest (J : Type 0) : Type 0 where
  pub run_id : String
  pub requested_agent_id : String
  pub intent : String
  pub correlation_id : String
  pub triggering_event_id : Option String
  pub metadata : J

pub record DelegationProposal (J : Type 0) : Type 0 where
  pub id : String
  pub target_agent_id : String
  pub intent : String
  pub metadata : J

pub record CoordinationIssue : Type 0 where
  pub code : String
  pub message_id : String
  pub source_agent_id : Option String
  pub target_agent_id : String

-- the fields of `AgentInvocationResult` that the loop reads
pub record AgentInvocationResult : Type 0 where
  pub invocation_id : String
  pub run_id : String
  pub agent_id : String

-- How a future ends: it raises an error with a code, or it gives the result, the delegations of the
-- response if that comes with it, and the decisions of the report `D` if there is one.
pub data FutureOutcome (J D : Type 0) : Type 0 where
  raised : String → FutureOutcome J D
  returned :
      AgentInvocationResult → Option (List (DelegationProposal J)) → Option D → FutureOutcome J D

-- What leaves `coordinate`: the errors of the graph, the factory, pydantic and the channel.
pub data CoordinationError : Type 0 where
  graph_error : GraphError → CoordinationError
  channel_error : SendError → CoordinationError
  invalid_id invalid_message invalid_lease : CoordinationError

-- the variables of `_coordinate`; `W` is the state of the channel's sink
pub record Coordination (J T D W : Type 0) : Type 0 where
  pub messages : List (CoordinationMessage J T)
  pub submitted : List String
  pub futures : List (CoordinationMessage J T)
  pub invocations : List (CoordinationMessage J T × AgentInvocationResult)
  pub reports : List D
  pub issues : List CoordinationIssue
  pub channel : Channel (CoordinationMessage J T) W
  pub created : ℕ

abbrev pub graph_code : GraphError → String
graph_code agent_unknown = "coordination.graph.agent-unknown"
graph_code delivery_denied = "coordination.graph.delivery-denied"
graph_code assertion_error = "coordination.invocation.failed"

abbrev pub channel_code : SendError → String
channel_code (closed_error id) = "coordination.message-channel.closed"
channel_code (duplicate id) = "coordination.message-channel.duplicate"
channel_code (full id) = "coordination.message-channel.full"
channel_code sink_raised = "coordination.invocation.failed"

abbrev pub hop_limit_exceeded : String
hop_limit_exceeded = "coordination.message.hop-limit-exceeded"

abbrev pub invalid_identity : String
invalid_identity = "coordination.invocation.invalid-identity"

module _ {J T : Type 0} where
  abbrev pub id_of : CoordinationMessage J T → String
  id_of m = m.message_id

  -- `_issue`
  abbrev pub message_issue : String → CoordinationMessage J T → CoordinationIssue
  message_issue code m = record {
    code = code;
    message_id = m.message_id;
    source_agent_id = m.source_agent_id;
    target_agent_id = m.target_agent_id;
  }

  -- `_next_message_id`, and pydantic's validation of the message that is made with it
  abbrev pub checked : CoordinationMessage J T → CoordinationError ⊎ CoordinationMessage J T
  checked m =
      if filled m.message_id
      then (if valid_message m then inr m else inl invalid_message)
      else inl invalid_id

  -- the message of `_delegate`
  abbrev pub delegated :
      (ℕ → String)
      → (ℕ → T)
      → CoordinationMessage J T
      → String
      → DelegationProposal J
      → ℕ
      → CoordinationMessage J T
  delegated ids clock parent invocation_id d n = record {
    message_id = ids n;
    run_id = parent.run_id;
    kind = delegation_kind;
    source_agent_id = some parent.target_agent_id;
    target_agent_id = d.target_agent_id;
    correlation_id = parent.correlation_id;
    causation_id = some parent.message_id;
    parent_invocation_id = some invocation_id;
    triggering_event_id = parent.triggering_event_id;
    created_at = clock n;
    hop_count = parent.hop_count + 1;
    traversed_message_ids = parent.traversed_message_ids ++ parent.message_id ∷ [];
    payload = record {
      intent = d.intent;
      requested_agent_id = parent.payload.requested_agent_id;
      delegation_id = some d.id;
      metadata = d.metadata;
    };
  }

  -- the root message of `_coordinate`
  abbrev pub root :
      (ℕ → String) → (ℕ → T) → CoordinationRequest J → String → CoordinationMessage J T
  root ids clock request entry = record {
    message_id = ids 0;
    run_id = request.run_id;
    kind = intent_kind;
    source_agent_id = none;
    target_agent_id = entry;
    correlation_id = request.correlation_id;
    causation_id = none;
    parent_invocation_id = none;
    triggering_event_id = request.triggering_event_id;
    created_at = clock 0;
    hop_count = 0;
    traversed_message_ids = [];
    payload = record {
      intent = request.intent;
      requested_agent_id = request.requested_agent_id;
      delegation_id = none;
      metadata = request.metadata;
    };
  }

  -- the issue of a delegation that is refused before its message is made
  abbrev pub refusal_issue :
      String → CoordinationMessage J T → DelegationProposal J → CoordinationIssue
  refusal_issue code parent d = record {
    code = code;
    message_id = parent.message_id;
    source_agent_id = some parent.target_agent_id;
    target_agent_id = d.target_agent_id;
  }

  -- `futures.pop(future)`
  abbrev pub drop_at : ℕ → List (CoordinationMessage J T) → List (CoordinationMessage J T)
  drop_at n [] = []
  drop_at zero (m ∷ ms) = ms
  drop_at (suc n) (m ∷ ms) = m ∷ drop_at n ms

abbrev pub no_messages : {M : Type 0} → List M → Bool
no_messages [] = true
no_messages (_ ∷ _) = false

-- A step of the loop: to take a message, to settle the n-th future, or what another request does to
-- the channel.
pub data Op (J T D : Type 0) : Type 0 where
  take_op : (String → Bool) → Op J T D
  finish_op : ℕ → FutureOutcome J D → Op J T D
  other_op : ChannelOp (CoordinationMessage J T) → Op J T D

module _ {J T D W : Type 0} where
  abbrev pub add_issue : CoordinationIssue → Coordination J T D W → Coordination J T D W
  add_issue i c = record c { issues = c.issues ++ i ∷ [] }

  -- `try: channel.send(delegated)` and what follows; what the sink raises is not caught
  abbrev pub after_send :
      CoordinationMessage J T
      → Coordination J T D W
      → Option SendError × Channel (CoordinationMessage J T) W
      → CoordinationError ⊎ Coordination J T D W
  after_send m c (none, channel) =
      inr (record c { channel = channel; messages = c.messages ++ m ∷ [] })
  after_send m c (some sink_raised, channel) = inl (channel_error sink_raised)
  after_send m c (some e, channel) =
      inr (add_issue (message_issue (channel_code e) m) (record c { channel = channel }))

  -- `pending`
  abbrev pub pending_messages : Coordination J T D W → List (CoordinationMessage J T)
  pending_messages c = keep (λ m. not (contains c.submitted m.message_id)) c.messages

  -- `eligible`, for the agents that have a slot
  abbrev pub eligible_ids : (String → Bool) → Coordination J T D W → List String
  eligible_ids available c =
      map id_of (keep (λ m. available m.target_agent_id) (pending_messages c))

  abbrev pub submit :
      Coordination J T D W
      → Poll (CoordinationMessage J T) × Channel (CoordinationMessage J T) W
      → Coordination J T D W
  submit c (got m, channel) = record c {
    channel = channel;
    futures = c.futures ++ m ∷ [];
    submitted = c.submitted ++ m.message_id ∷ [];
  }
  submit c (_, channel) = record c { channel = channel }

  abbrev pub add_report : Option D → Coordination J T D W → Coordination J T D W
  add_report none c = c
  add_report (some d) c = record c { reports = c.reports ++ d ∷ [] }

  abbrev pub with_root :
      CoordinationMessage J T → Channel (CoordinationMessage J T) W → Coordination J T D W
  with_root m channel = record {
    messages = m ∷ [];
    submitted = [];
    futures = [];
    invocations = [];
    reports = [];
    issues = [];
    channel = channel;
    created = 1;
  }

  -- the test that ends the loop
  abbrev pub is_finished : Coordination J T D W → Bool
  is_finished c = no_messages c.futures && no_messages (pending_messages c)
