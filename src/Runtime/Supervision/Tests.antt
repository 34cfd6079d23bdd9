-- ===== src/Runtime/Supervision/Tests.antt =====
-- Runs of the supervisor at fixed inputs, and the theorems applied there. An invocation's result is a
-- Boolean, `true` where its status is failed.
use mininet_ai.Prelude.{◌≡◌, ◌≢◌, refl, String, Bool, true, false, some, List, [], ◌∷◌, ◌++◌, arith}
use mininet_ai.Prelude.Dict.{lookup, insert}
use mininet_ai.Runtime.Supervision.{
  RestartConfiguration, Supervisor, new_supervisor, start, transition, set_state, for_each, fail,
  broken, revive, Op, set_op, pause_op, resume_op, fail_op, run_op, run_ops, running, stopped,
  stopping, failed, on_failure,
}
use mininet_ai.Runtime.Supervision.Execution.{
  recover, wait_while_restarting, Round, Invocation, result, exception, returned, raised,
  unfinished, execute,
}
use mininet_ai.Runtime.Supervision.Log.{IsLogged, log_tells_states}
use mininet_ai.Runtime.Supervision.Views.{IsAt}
use mininet_ai.Runtime.Supervision.Retries.{
  gives_up_after_budget, returns_within_budget, execute_ends,
}

abbrev two : RestartConfiguration
two = record { policy = on_failure; max_attempts = 2 }

abbrev policies : List (String × RestartConfiguration)
policies = ("edge", two) ∷ ("core", two) ∷ []

abbrev ready : Supervisor
ready = record {
  policies = policies;
  states = ("edge", some running) ∷ ("core", some running) ∷ [];
  attempts = ("edge", 0) ∷ ("core", 0) ∷ [];
  log = [];
}

-- `start` gives these states.
start_runs : (start (new_supervisor policies)).1.states ≡ ready.states
unfolding start new_supervisor for_each transition set_state lookup insert
start_runs = refl

-- what `stop` does to an agent
abbrev stop_edge : List Op
stop_edge = set_op "edge" stopping 0 ∷ set_op "edge" stopped 0 ∷ []

abbrev round : Invocation Bool → Round Bool
round o = record {
  waits = [];
  outcome = o;
  during = pause_op "core" ∷ [];
  holds = [];
  sleep = resume_op "core" ∷ [];
}

log_tells_states_example : IsLogged (run_ops (fail_op "edge" ∷ stop_edge) (new_supervisor policies))
log_tells_states_example = log_tells_states policies (fail_op "edge" ∷ stop_edge)

ready-IsAt : IsAt "edge" running 0 two ready
unfolding lookup
ready-IsAt = record { state_at = refl; attempts_at = refl; policy_at = refl }

abbrev failing : List (Round Bool)
failing = round exception ∷ round (result true) ∷ []

gives_up_after_budget_example :
    ((execute
        (λ x. x)
        false
        "edge"
        (failing ++ round exception ∷ round (result false) ∷ [])
        ready).0
      ≡ raised)
    × IsAt "edge" failed 3 two
        (execute
          (λ x. x)
          false
          "edge"
          (failing ++ round exception ∷ round (result false) ∷ [])
          ready).1
gives_up_after_budget_example =
    gives_up_after_budget (λ x. x) false "edge" failing (round exception)
      (round (result false) ∷ []) ready
      (((((refl, tt), (refl, tt)), refl), ((((refl, tt), (refl, tt)), refl), tt)))
      (((refl, tt), (refl, tt)), refl) ready-IsAt refl refl

returns_within_budget_example :
    ((execute (λ x. x) false "edge" (failing ++ round (result false) ∷ []) ready).0
      ≡ returned false)
    × IsAt "edge" running 0 two
        (execute (λ x. x) false "edge" (failing ++ round (result false) ∷ []) ready).1
returns_within_budget_example =
    returns_within_budget (λ x. x) false "edge" failing (round (result false)) [] false ready
      (((((refl, tt), (refl, tt)), refl), ((((refl, tt), (refl, tt)), refl), tt)))
      ((refl, tt), (refl, tt)) refl refl ready-IsAt refl (omega arith)

execute_ends_example :
    (execute (λ x. x) false "edge" (failing ++ round (result true) ∷ []) ready).0 ≢ unfinished
execute_ends_example =
    execute_ends (λ x. x) false "edge" (failing ++ round (result true) ∷ []) ready
      (((refl, tt), (refl, tt)), (((refl, tt), (refl, tt)), (((refl, tt), (refl, tt)), tt)))
      ready-IsAt (omega arith) (omega arith)

-- A stop during the backoff is undone.
stop_undone : lookup "edge" (recover "edge" [] stop_edge ready).1.states ≡ some (some running)
unfolding recover wait_while_restarting fail broken revive run_ops run_op transition set_state
    lookup insert
stop_undone = refl
