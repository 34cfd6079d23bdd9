-- ===== src/Runtime/Supervision/Execution.antt =====
-- mininet_ai/runtime/supervision.py: `AgentSupervisor.execute`, which runs an invocation and retries it,
-- with `wait_until_running` and `_recover`.
-- The waits on the condition and the sleep are where other threads act: what they do in each is an
-- argument.
use mininet_ai.Prelude.{
  ℕ, String, Bool, true, false, not, Option, none, some, List, [], ◌∷◌, if◌then◌else◌,
}
use mininet_ai.Prelude.Dict.{lookup}
use mininet_ai.Runtime.Supervision.{
  LifecycleState, Op, SupervisionError, Supervisor, agent_not_running, agent_unknown, fail, is_in,
  paused, restarting, revive, run_ops, running, starting, succeed,
}

-- What the call of `invocation` does: it returns a result, or raises.
pub data Invocation (R : Type 0) : Type 0 where
  result : R → Invocation R
  exception : Invocation R

-- One round of `execute`, with what the other threads do in each wait of `wait_until_running`,
-- during the invocation, in each wait of `_recover`, and during its sleep.
pub record Round (R : Type 0) : Type 0 where
  pub waits : List (List Op)
  pub outcome : Invocation R
  pub during : List Op
  pub holds : List (List Op)
  pub sleep : List Op

-- How `execute` ends; `unfinished` is a call that waits, or has rounds to go.
pub data Execution (R : Type 0) : Type 0 where
  returned : R → Execution R
  raised unfinished : Execution R
  refused : SupervisionError → Execution R

pub data Wait : Type 0 where
  proceed held : Wait
  refuse : SupervisionError → Wait

-- the states in which `wait_until_running` waits
abbrev pub holds_back : Option LifecycleState → Bool
holds_back (some starting) = true
holds_back (some paused) = true
holds_back (some restarting) = true
holds_back _ = false

-- the test after the loop of `wait_until_running`, and a wait that was not granted
abbrev pub verdict : Option (Option LifecycleState) → Wait
verdict none = refuse agent_unknown
verdict (some state) =
    if holds_back state
    then held
    else if is_in running state
    then proceed
    else refuse agent_not_running

unfoldable pub wait_until_running : String → List (List Op) → Supervisor → Wait × Supervisor
wait_until_running agent [] s = (verdict (lookup agent s.states), s)
wait_until_running agent (others ∷ waits) s =
    let woken = wait_until_running agent waits (run_ops others s) in
    elim (verdict (lookup agent s.states)) [ held ↦ woken | w ↦ (w, s) ]

-- the loop at the head of `_recover`; `false` is a wait that was not granted
unfoldable pub wait_while_restarting : String → List (List Op) → Supervisor → Bool × Supervisor
wait_while_restarting agent [] s =
    (elim (lookup agent s.states) [ none ↦ true | some state ↦ not (is_in restarting state) ], s)
wait_while_restarting agent (others ∷ waits) s =
    let woken = wait_while_restarting agent waits (run_ops others s) in
    if elim (lookup agent s.states) [ none ↦ false | some state ↦ is_in restarting state ]
    then woken
    else (true, s)

-- `_recover` after its locked section, and after its wait: whether it returns `True` or `False`, or
-- `none` while it waits
abbrev pub after_failure : String → List Op → Option ℕ × Supervisor → Option Bool × Supervisor
after_failure agent sleep (none, s) = (some false, s)
after_failure agent sleep (some attempt, s) = (some true, revive agent attempt (run_ops sleep s))

abbrev pub after_wait : String → List Op → Bool × Supervisor → Option Bool × Supervisor
after_wait agent sleep (false, s) = (none, s)
after_wait agent sleep (true, s) = after_failure agent sleep (fail agent s)

-- `_recover`
unfoldable pub recover : String → List (List Op) → List Op → Supervisor → Option Bool × Supervisor
recover agent holds sleep s = after_wait agent sleep (wait_while_restarting agent holds s)

module _ {R : Type 0} (is_failed : R → Bool) (continue_after_failure : Bool) (agent : String) where
  -- how a call ends that gives up after the round
  abbrev pub given_up : Invocation R → Execution R
  given_up (result x) = returned x
  given_up exception = raised

  -- Does the invocation count as a failure from which `execute` may recover?
  abbrev pub to_recover : Invocation R → Bool
  to_recover (result x) = if is_failed x then not continue_after_failure else false
  to_recover exception = true

  -- the end of a round that does not recover
  abbrev pub settle : Invocation R → Supervisor → Execution R × Supervisor
  settle (result x) s = (returned x, if is_failed x then s else succeed agent s)
  settle exception s = (raised, s)

  unfoldable pub execute : List (Round R) → Supervisor → Execution R × Supervisor
  execute [] s = (unfinished, s)
  execute (r ∷ rounds) s =
      let (w, s1) = wait_until_running agent r.waits s in
      let s2 = run_ops r.during s1 in
      let (recovered, s3) = recover agent r.holds r.sleep s2 in
      let again = execute rounds s3 in
      elim w [
        | refuse e ↦ (refused e, s1)
        | held ↦ (unfinished, s1)
        | proceed ↦ elim (to_recover r.outcome) [
          | false ↦ settle r.outcome s2
          | true ↦ elim recovered [
            | none ↦ (unfinished, s3)
            | some true ↦ again
            | some false ↦ (given_up r.outcome, s3)
          ]
        ]
      ]
