-- ===== src/Coordination/Routing/Tests.antt =====
-- Runs of the routing at fixed inputs, and the theorems applied there. Metadata and times are numbers.
use native.Mathlib.Decide.{ℕ_discrete}
use mininet_ai.Prelude.{
  ℕ, zero, suc, String, ◌≡◌, refl, Bool, true, false, ◌==◌, eq_iff, inl, inr, ◌⊎◌, none, some, List,
  [], ◌∷◌, All, arith, map, length,
}
use mininet_ai.Coordination.Messages.{
  CoordinationMessage, CoordinationMessageKind, CoordinationIntentPayload, valid_message,
}
use mininet_ai.Coordination.Graph.{CoordinationGraph, distributed, peer, authorize, entry_agent}
use mininet_ai.Coordination.Channel.{Channel, send, poll, remove}
use mininet_ai.Coordination.Routing.{
  CoordinationRequest, DelegationProposal, AgentInvocationResult, returned, Coordination,
  CoordinationError, invalid_lease, Op, take_op, finish_op, start_request, run, take_message,
  finish, delegate, delegate_all,
}
use mininet_ai.Coordination.Routing.Sound.{IsInvocation}
use mininet_ai.Coordination.Routing.Validity.{IsAllowed, messages-IsAllowed}

kind_discrete : Discrete CoordinationMessageKind
kind_discrete = hlevel

decided : (a b : String) (t : Bool) → (a == b) ≡ t → Dec (a ≡ b)
decided a b true e = yes ((eq_iff a b).0 e)
decided a b false e = no (λ p. ground (arith, e, (eq_iff a b).1 p))

text_discrete : Discrete String
text_discrete a b = decided a b (a == b) refl

payload_discrete : Discrete (CoordinationIntentPayload ℕ)
payload_discrete = hlevel (text_discrete, ℕ_discrete)

same : Discrete (CoordinationMessage ℕ ℕ)
same = hlevel (text_discrete, ℕ_discrete, kind_discrete, payload_discrete)

abbrev Message : Type 0
Message = CoordinationMessage ℕ ℕ

abbrev ids : ℕ → String
ids zero = "m0"
ids (suc zero) = "m1"
ids (suc (suc n)) = "m2"

abbrev clock : ℕ → ℕ
clock n = n

-- two peers
abbrev graph : CoordinationGraph
graph = record {
  mode = distributed;
  agents = "a" ∷ "b" ∷ [];
  edges =
      record { source = "a"; target = "b"; relationship = peer }
      ∷ record { source = "b"; target = "a"; relationship = peer }
      ∷ [];
  coordinator = none;
}

abbrev channel : Channel Message ℕ
channel = record { capacity = 4; messages = []; accepted_ids = []; closed = false; sink_state = 0 }

abbrev request : CoordinationRequest ℕ
request = record {
  run_id = "r1";
  requested_agent_id = "a";
  intent = "watch";
  correlation_id = "c1";
  triggering_event_id = none;
  metadata = 0;
}

abbrev State : Type 0
State = Coordination ℕ ℕ ℕ ℕ

-- A request whose lease is another agent's is refused after its message was sent.
wrong_lease :
    start_request {D = ℕ} same none ids clock graph request (some "b") channel ≡ inl invalid_lease
unfolding start_request entry_agent send valid_message
wrong_lease = refl

abbrev to_b : DelegationProposal ℕ
to_b = record { id = "d1"; target_agent_id = "b"; intent = "help"; metadata = 0 }

abbrev answer : AgentInvocationResult
answer = record { invocation_id = "i1"; run_id = "r1"; agent_id = "a" }

abbrev ops : List (Op ℕ ℕ ℕ)
ops = take_op (λ a. true) ∷ finish_op 0 (returned answer (some (to_b ∷ [])) none) ∷ []

abbrev empty_state : State
empty_state = record {
  messages = [];
  submitted = [];
  futures = [];
  invocations = [];
  reports = [];
  issues = [];
  channel = channel;
  created = 0;
}

abbrev state_of : CoordinationError ⊎ State → State
state_of (inl e) = empty_state
state_of (inr c) = c

abbrev started : State
started = state_of (start_request same none ids clock graph request none channel)

abbrev settled : State
settled = state_of (run same none ids clock graph ops started)

started-eq : start_request same none ids clock graph request none channel ≡ inr started
unfolding start_request entry_agent send valid_message
started-eq = refl

settled-eq : run same none ids clock graph ops started ≡ inr settled
unfolding start_request entry_agent send valid_message run take_message finish delegate_all delegate
    poll remove same authorize decided text_discrete kind_discrete payload_discrete ℕ_discrete
settled-eq = refl

two_messages :
    (map (λ m. m.target_agent_id) settled.messages ≡ "a" ∷ "b" ∷ [])
    × (length settled.invocations ≡ 1)
unfolding start_request entry_agent send valid_message run take_message finish delegate_all delegate
    poll remove same authorize decided text_discrete kind_discrete payload_discrete ℕ_discrete
two_messages = (refl, refl)

messages-IsAllowed_example :
    All (IsAllowed graph request) settled.messages
    × All (IsInvocation (IsAllowed graph request)) settled.invocations
messages-IsAllowed_example =
    messages-IsAllowed same none ids clock graph request none channel ops started settled tt
      started-eq settled-eq
