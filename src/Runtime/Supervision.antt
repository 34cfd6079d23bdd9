-- ===== src/Runtime/Supervision.antt =====
-- mininet_ai/runtime/supervision.py: `AgentSupervisor`, the life of each agent and the retries of
-- its invocations.
-- A method changes the state with the lock held: each locked section is one step. `log` holds the
-- transitions in the order in which they are made; the listener is given each after the lock is
-- released. The clock, the sleeper and the listener are callbacks without effect on the state.
pub mod Execution
pub mod Log
pub mod Views
pub mod Retries
mod Tests
use mininet_ai.Prelude.{
  ℕ, suc, String, Bool, true, false, not, Option, none, some, List, [], ◌∷◌, ◌++◌, map, leb,
  if◌then◌else◌, ◌⊎◌, inl, inr,
}
use mininet_ai.Prelude.Dict.{lookup, insert, keys}

pub data LifecycleState : Type 0 where
  starting running paused stopping stopped restarting failed : LifecycleState

pub data RestartPolicy : Type 0 where
  never on_failure : RestartPolicy

-- `backoff` goes to the sleeper only
pub record RestartConfiguration : Type 0 where
  pub policy : RestartPolicy
  pub max_attempts : ℕ

pub record LifecycleTransition : Type 0 where
  pub agent_id : String
  pub state : LifecycleState
  pub previous_state : Option LifecycleState
  pub attempt : ℕ

-- The codes of `AgentSupervisionError`; `key_error` is a `KeyError` of a dictionary.
pub data SupervisionError : Type 0 where
  agent_unknown agent_not_started agent_not_running lifecycle_invalid key_error : SupervisionError

pub record Supervisor : Type 0 where
  pub policies : List (String × RestartConfiguration)
  pub states : List (String × Option LifecycleState)
  pub attempts : List (String × ℕ)
  pub log : List LifecycleTransition

-- `AgentSupervisor(policies)`
unfoldable pub new_supervisor : List (String × RestartConfiguration) → Supervisor
new_supervisor policies = record {
  policies = policies;
  states = map (λ p. (p.0, none)) policies;
  attempts = map (λ p. (p.0, 0)) policies;
  log = [];
}

abbrev pub same_state : LifecycleState → LifecycleState → Bool
same_state starting starting = true
same_state running running = true
same_state paused paused = true
same_state stopping stopping = true
same_state stopped stopped = true
same_state restarting restarting = true
same_state failed failed = true
same_state _ _ = false

-- `current == required`, of a state that may be `None`
abbrev pub is_in : LifecycleState → Option LifecycleState → Bool
is_in s none = false
is_in s (some t) = same_state t s

-- `_set_state_locked` and the transition that it makes; `none` is the error of `_known_state`
unfoldable pub set_state : String → LifecycleState → ℕ → Supervisor → Option Supervisor
set_state agent state attempt s = elim (lookup agent s.states) [
  | none ↦ none
  | some previous ↦ some (record s {
    states = insert agent (some state) s.states;
    log =
        s.log
        ++ record { agent_id = agent; state = state; previous_state = previous; attempt = attempt }
          ∷ [];
  })
]

-- a method without a result: the error that it raises, and the state after it
abbrev pub Outcome : Type 0
Outcome = Option SupervisionError × Supervisor

-- `_transition`
unfoldable pub transition : String → LifecycleState → ℕ → Supervisor → Outcome
transition agent state attempt s = elim (set_state agent state attempt s) [
  | none ↦ (some agent_unknown, s)
  | some t ↦ (none, t)
]

-- `_transition_from`
unfoldable pub transition_from : String → LifecycleState → LifecycleState → Supervisor → Outcome
transition_from agent required state s = elim (lookup agent s.states) [
  | none ↦ (some agent_unknown, s)
  | some current ↦
      if is_in required current
      then elim (set_state agent state 0 s) [ none ↦ (some agent_unknown, s) | some t ↦ (none, t) ]
      else (some lifecycle_invalid, s)
]

unfoldable pub pause : String → Supervisor → Outcome
unfolding transition_from
pause agent = transition_from agent running paused

unfoldable pub resume : String → Supervisor → Outcome
unfolding transition_from
resume agent = transition_from agent paused running

-- a loop of calls that stops at the first error
abbrev pub then_do : Outcome → (Supervisor → Outcome) → Outcome
then_do (some e, s) f = (some e, s)
then_do (none, s) f = f s

unfoldable pub for_each : (String → Supervisor → Outcome) → List String → Supervisor → Outcome
for_each f [] s = (none, s)
for_each f (a ∷ agents) s = then_do (f a s) (for_each f agents)

unfoldable pub start : Supervisor → Outcome
start s =
    for_each (λ a t. then_do (transition a starting 0 t) (transition a running 0)) (keys s.policies)
      s

-- the agents whose state passes the test, in the order of `_states`
abbrev pub agents_in :
    (Option LifecycleState → Bool) → List (String × Option LifecycleState) → List String
agents_in test [] = []
agents_in test ((a, state) ∷ rest) =
    let tail = agents_in test rest in if test state then a ∷ tail else tail

unfoldable pub resume_paused : Supervisor → Outcome
resume_paused s = for_each resume (agents_in (is_in paused) s.states) s

unfoldable pub stop : Supervisor → Outcome
stop s =
    for_each (λ a t. then_do (transition a stopping 0 t) (transition a stopped 0))
      (agents_in (λ state. not (is_in stopped state)) s.states) s

-- `state`
unfoldable pub state_of : String → Supervisor → SupervisionError ⊎ LifecycleState
state_of agent s = elim (lookup agent s.states) [
  | none ↦ inl agent_unknown
  | some none ↦ inl agent_not_started
  | some (some state) ↦ inr state
]

-- `policy.policy == "on-failure" and attempt <= policy.max_attempts`
abbrev pub should_restart : RestartConfiguration → ℕ → Bool
should_restart c attempt = elim c.policy [ never ↦ false | on_failure ↦ leb attempt c.max_attempts ]

abbrev pub is_running : String → Supervisor → Bool
is_running agent s =
    is_in running (elim (lookup agent s.states) [ none ↦ none | some state ↦ state ])

-- `self._attempts[agent_id] + 1`
abbrev pub next_attempt : String → Supervisor → ℕ
next_attempt agent s = suc (elim (lookup agent s.attempts) [ none ↦ 0 | some n ↦ n ])

abbrev pub restarts : String → Supervisor → Bool
restarts agent s = elim (lookup agent s.policies) [
  | none ↦ false
  | some c ↦ should_restart c (next_attempt agent s)
]

-- the attempt is counted, and the agent is `failed`
unfoldable pub broken : String → Supervisor → Supervisor
broken agent s =
    (transition agent failed (next_attempt agent s)
      (record s { attempts = insert agent (next_attempt agent s) s.attempts })).1

-- The locked section of `_recover`, on a state that is not `restarting`: `some` with the attempt if
-- the agent restarts, and `none` where `_recover` returns `False`.
unfoldable pub fail : String → Supervisor → Option ℕ × Supervisor
fail agent s =
    if is_running agent s
    then (if restarts agent s
        then (
          some (next_attempt agent s),
          (transition agent restarting (next_attempt agent s) (broken agent s)).1,
        )
        else (none, broken agent s))
    else (none, s)

-- The end of `_recover`, after the sleep.
unfoldable pub revive : String → ℕ → Supervisor → Supervisor
revive agent attempt s = (transition agent running attempt s).1

-- `execute`, after an invocation that did not fail
unfoldable pub succeed : String → Supervisor → Supervisor
succeed agent s =
    if is_running agent s then record s { attempts = insert agent 0 s.attempts } else s

-- What another thread may do in one locked section. `start`, `stop` and `resume_paused` are such
-- steps one after another.
pub data Op : Type 0 where
  set_op : String → LifecycleState → ℕ → Op
  pause_op resume_op fail_op succeed_op : String → Op
  revive_op : String → ℕ → Op

unfoldable pub run_op : Op → Supervisor → Supervisor
run_op (set_op a state attempt) s = (transition a state attempt s).1
run_op (pause_op a) s = (pause a s).1
run_op (resume_op a) s = (resume a s).1
run_op (fail_op a) s = (fail a s).1
run_op (succeed_op a) s = succeed a s
run_op (revive_op a n) s = revive a n s

unfoldable pub run_ops : List Op → Supervisor → Supervisor
run_ops [] s = s
run_ops (op ∷ ops) s = run_ops ops (run_op op s)
