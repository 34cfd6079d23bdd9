-- ===== src/Coordination/Slots.antt =====
-- mininet_ai/coordination/routing.py: the slots for concurrent invocations of `CoordinationRuntime`,
-- the leases on them (`InvocationLease`), and the requests in progress.
-- Each section with `_slots` held is one step. A lease is its place in the list of all that were
-- handed out. `_take_invocation` is here from the point where the channel has given it a message.
pub mod Bounds
pub mod Closing
mod Tests
use mininet_ai.Prelude.{
  ℕ, zero, suc, ◌+◌, ◌-◌, String, Bool, true, false, not, ◌&&◌, Option, none, some, List, [], ◌∷◌,
  ◌++◌, map, ◌==◌, ltb, nat_beq, get_elem?, if◌then◌else◌,
}
use mininet_ai.Prelude.Dict.{lookup, insert}

pub record Slots : Type 0 where
  pub max_concurrent_invocations : ℕ
  pub agent_limits : List (String × ℕ)
  pub active : ℕ
  pub requests : ℕ
  pub closing : Bool
  pub active_agents : List (String × ℕ)

pub record InvocationLease : Type 0 where
  pub agent_id : String
  pub released : Bool

-- the coordinator's slots with the leases that it handed out
pub record CoordinatorState : Type 0 where
  pub slots : Slots
  pub leases : List InvocationLease

-- What a call answers: `waiting` is one that has not returned.
pub data Answer : Type 0 where
  leased closed_error key_error waiting done : Answer

-- the slots that `__init__` makes, for agents with their `max_concurrency`
abbrev pub new_slots : ℕ → List (String × ℕ) → Slots
new_slots max_concurrent agents = record {
  max_concurrent_invocations = max_concurrent;
  agent_limits = agents;
  active = 0;
  requests = 0;
  closing = false;
  active_agents = map (λ a. (a.0, 0)) agents;
}

abbrev pub new_coordinator : ℕ → List (String × ℕ) → CoordinatorState
new_coordinator max_concurrent agents = record {
  slots = new_slots max_concurrent agents;
  leases = [];
}

-- `_available`; `none` is the `KeyError` for an agent that the plan has not
unfoldable pub available : Slots → String → Option Bool
available s agent_id =
    if ltb s.active s.max_concurrent_invocations
    then elim (lookup agent_id s.active_agents) [
      | none ↦ none
      | some n ↦ elim (lookup agent_id s.agent_limits) [
        | none ↦ none
        | some limit ↦ some (ltb n limit)
      ]
    ]
    else some false

-- `self._active_agents[agent_id]`
abbrev pub in_use : String → List (String × ℕ) → ℕ
in_use agent_id agents = elim (lookup agent_id agents) [ none ↦ 0 | some n ↦ n ]

-- `_allocate_invocation`
unfoldable pub allocate_invocation : String → CoordinatorState → CoordinatorState
allocate_invocation agent_id c = record {
  slots = record c.slots {
    active = c.slots.active + 1;
    active_agents =
        insert agent_id (in_use agent_id c.slots.active_agents + 1) c.slots.active_agents;
  };
  leases = c.leases ++ record { agent_id = agent_id; released = false } ∷ [];
}

-- the function `release` of a lease
abbrev pub release_slot : String → Slots → Slots
release_slot agent_id s = record s {
  active = s.active - 1;
  active_agents = insert agent_id (in_use agent_id s.active_agents - 1) s.active_agents;
}

-- `_released = True`
abbrev pub mark : ℕ → List InvocationLease → List InvocationLease
mark n [] = []
mark zero (l ∷ ls) = record l { released = true } ∷ ls
mark (suc n) (l ∷ ls) = l ∷ mark n ls

-- `InvocationLease.close`, of the lease at a place
unfoldable pub close_lease : ℕ → CoordinatorState → CoordinatorState
close_lease n c = elim (get_elem? c.leases n) [
  | none ↦ c
  | some l ↦
      if l.released
      then c
      else record { slots = release_slot l.agent_id c.slots; leases = mark n c.leases }
]

abbrev pub when_available : String → CoordinatorState → Option Bool → Answer × CoordinatorState
when_available agent_id c none = (key_error, c)
when_available agent_id c (some false) = (waiting, c)
when_available agent_id c (some true) = (leased, allocate_invocation agent_id c)

-- `reserve_invocation`, at a moment at which its `wait_for` tests
unfoldable pub reserve_invocation : String → CoordinatorState → Answer × CoordinatorState
unfolding available allocate_invocation
reserve_invocation agent_id c =
    if c.slots.closing
    then (closed_error, c)
    else when_available agent_id c (available c.slots agent_id)

-- `_take_invocation`, for a message to this agent: it is eligible only if the agent is available
unfoldable pub take_invocation : String → CoordinatorState → Answer × CoordinatorState
unfolding available allocate_invocation
take_invocation agent_id c = when_available agent_id c (available c.slots agent_id)

-- `_request_session`, its head and its `finally`
unfoldable pub enter_session : CoordinatorState → Answer × CoordinatorState
enter_session c =
    if c.slots.closing
    then (closed_error, c)
    else (done, record c { slots = record c.slots { requests = c.slots.requests + 1 } })

unfoldable pub leave_session : CoordinatorState → CoordinatorState
leave_session c = record c { slots = record c.slots { requests = c.slots.requests - 1 } }

-- `close`, up to its `wait_for`, and whether that has ended
unfoldable pub close : CoordinatorState → CoordinatorState
close c = record c { slots = record c.slots { closing = true } }

abbrev pub close_returns : CoordinatorState → Bool
close_returns c = nat_beq c.slots.requests 0

-- What the threads do, one section after the other.
pub data Op : Type 0 where
  reserve_op take_op : String → Op
  lease_op : ℕ → Op
  enter_op leave_op close_op : Op

unfoldable pub step : Op → CoordinatorState → Answer × CoordinatorState
unfolding reserve_invocation take_invocation close_lease enter_session leave_session close
step (reserve_op a) c = reserve_invocation a c
step (take_op a) c = take_invocation a c
step (lease_op n) c = (done, close_lease n c)
step enter_op c = enter_session c
step leave_op c = (done, leave_session c)
step close_op c = (done, close c)

unfoldable pub run : List Op → CoordinatorState → CoordinatorState
unfolding step
run [] c = c
run (op ∷ ops) c = run ops (step op c).1
