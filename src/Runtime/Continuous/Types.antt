-- ===== src/Runtime/Continuous/Types.antt =====
-- runtime/continuous.py: the state of `ContinuousAgentRuntime` and what it reads of the plan and of
-- events. `pending` is the local `matches` of `_dispatch`, `dispatching` tells that its loop goes on.
use mininet_ai.Prelude.{
  ℕ, String, Bool, true, false, Option, none, some, List, [], map, ◌==◌, find, ◌⊎◌, inr,
}
use mininet_ai.Coordination.Graph.{CoordinationGraph, GraphError, entry_agent}

pub data ContinuousRuntimeState : Type 0 where
  created running stopping stopped : ContinuousRuntimeState

pub data Overflow : Type 0 where
  reject drop_oldest coalesce : Overflow

pub record EventTrigger : Type 0 where
  pub name : String
  pub event : String
  pub source : Option String
  pub subject : Option String
  pub cooldown : ℕ

pub data Trigger : Type 0 where
  manual_trigger interval_trigger : String → Trigger
  event_trigger : EventTrigger → Trigger

-- what the runtime reads of an `AgentInstance`; `scenario` tells that it has a `decision_scenario`
pub record AgentInstance : Type 0 where
  pub id : String
  pub deployment : String
  pub targets : List String
  pub triggers : List Trigger
  pub scenario : Bool
  pub queue_capacity : ℕ
  pub overflow : Overflow

pub record RuntimeEvent (J : Type 0) : Type 0 where
  pub event_id : String
  pub type_name : String
  pub source : String
  pub subject : Option String
  pub observed_at : ℕ
  pub sequence : ℕ
  pub payload : J

-- pydantic's `payload_as` (`none` is the `ValueError`), and the texts that JSON and dates print as
pub record Payloads (J : Type 0) : Type 0 where
  pub as_manual : J → Option (String × String)
  pub as_interval : J → Option (String × String)
  pub interval_intent : String → J → String
  pub event_intent : RuntimeEvent J → String

pub record WorkItem (J : Type 0) : Type 0 where
  pub event : RuntimeEvent J
  pub agent : AgentInstance
  pub trigger : String
  pub intent : String
  pub coalesce_key : String × Option String
  pub scheduled_tick : Bool

pub data RuntimeIssueCode : Type 0 where
  out_of_order payload_invalid cooling_down tick_coalesced oldest_dropped queue_full :
      RuntimeIssueCode
  dropped_on_stop invocation_failed : RuntimeIssueCode

pub record ContinuousRuntimeIssue : Type 0 where
  pub code : RuntimeIssueCode
  pub event_id : String
  pub agent_id : Option String
  pub trigger : Option String

pub record Counts : Type 0 where
  pub received : ℕ
  pub matched : ℕ
  pub enqueued : ℕ
  pub coalesced : ℕ
  pub dropped : ℕ
  pub rejected : ℕ
  pub completed : ℕ
  pub failed : ℕ

-- an entry of `_last_triggered`
pub record Triggered : Type 0 where
  pub agent_id : String
  pub trigger : String
  pub at : ℕ

-- `_last_triggered` has its newest entry first; `scheduled_ticks` are the keys of `_scheduled_ticks`.
pub record ContinuousRuntime (J : Type 0) : Type 0 where
  pub lifecycle : ContinuousRuntimeState
  pub drain : Bool
  pub queues : List (String × List (WorkItem J))
  pub queued : ℕ
  pub bounded_active : List String
  pub workers_closed : Bool
  pub last_sequences : List (String × ℕ)
  pub last_triggered : List Triggered
  pub scheduled_ticks : List String
  pub counts : Counts
  pub issues : List ContinuousRuntimeIssue
  pub pending : List (WorkItem J)
  pub dispatching : Bool

-- what `__init__` reads of the `DeploymentPlan`, and the graph of a coordinator
pub record DeploymentPlan : Type 0 where
  pub agents : List AgentInstance
  pub max_queued_events : ℕ
  pub graph : Option CoordinationGraph

abbrev pub no_counts : Counts
no_counts = record {
  received = 0;
  matched = 0;
  enqueued = 0;
  coalesced = 0;
  dropped = 0;
  rejected = 0;
  completed = 0;
  failed = 0;
}

-- `ContinuousAgentRuntime.__init__`
abbrev pub new_runtime : (J : Type 0) → DeploymentPlan → ContinuousRuntime J
new_runtime J plan = record {
  lifecycle = created;
  drain = true;
  queues = map (λ a. (a.id, [])) plan.agents;
  queued = 0;
  bounded_active = [];
  workers_closed = false;
  last_sequences = [];
  last_triggered = [];
  scheduled_ticks = [];
  counts = no_counts;
  issues = [];
  pending = [];
  dispatching = true;
}

-- `self._agents.get(agent_id)`
abbrev pub find_agent : DeploymentPlan → String → Option AgentInstance
find_agent plan agent_id = find (λ a. a.id == agent_id) plan.agents

-- `_execution_agent_id`
unfoldable pub execution_agent_id : DeploymentPlan → String → GraphError ⊎ String
unfolding entry_agent
execution_agent_id plan requested = elim plan.graph [
  | none ↦ inr requested
  | some graph ↦ entry_agent graph requested
]

-- `==` of texts that may be missing
abbrev pub same_optional : Option String → Option String → Bool
same_optional none none = true
same_optional (some a) (some b) = a == b
same_optional _ _ = false

abbrev pub is_manual : Trigger → Bool
is_manual (manual_trigger _) = true
is_manual _ = false

abbrev pub is_interval : String → Trigger → Bool
is_interval name (interval_trigger n) = n == name
is_interval name _ = false

abbrev pub trigger_name : Trigger → String
trigger_name (manual_trigger n) = n
trigger_name (interval_trigger n) = n
trigger_name (event_trigger t) = t.name
