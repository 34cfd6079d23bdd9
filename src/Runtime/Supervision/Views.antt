-- ===== src/Runtime/Supervision/Views.antt =====
-- runtime/supervision.py: what each step makes of one agent.
use mininet_ai.Prelude.{
  ℕ, suc, String, ◌≡◌, refl, true, false, none, some, List, [], ◌∷◌, if_keeps, inl, inr, arith,
  ◌==◌, eq_refl, Bool-cases, ap, All,
}
use mininet_ai.Prelude.Dict.{lookup, insert, lookup-insert}
use mininet_ai.Runtime.Supervision.{
  LifecycleState, RestartConfiguration, Supervisor, set_state, transition, transition_from, pause,
  resume, fail, broken, is_running, next_attempt, restarts, revive, succeed, Op, set_op, pause_op,
  resume_op, fail_op, succeed_op, revive_op, run_op, run_ops, running, paused, failed, restarting,
  should_restart,
}
use mininet_ai.Runtime.Supervision.Execution.{
  recover, wait_while_restarting, wait_until_running, proceed, after_failure, after_wait,
}

-- the agent's state, the attempts that are counted, and its configuration
pub record IsAt (a : String) (state : LifecycleState) (n : ℕ) (c : RestartConfiguration)
    (s : Supervisor) : Type 0 where
  pub state_at : lookup a s.states ≡ some (some state)
  pub attempts_at : lookup a s.attempts ≡ some n
  pub policy_at : lookup a s.policies ≡ some c

-- a step that is about other agents
abbrev pub agent_of : Op → String
agent_of (set_op a _ _) = a
agent_of (pause_op a) = a
agent_of (resume_op a) = a
agent_of (fail_op a) = a
agent_of (succeed_op a) = a
agent_of (revive_op a _) = a

abbrev pub IsOther : String → List Op → Type 0
IsOther a = All (λ op. (agent_of op == a) ≡ false)

module _ {a : String} {state : LifecycleState} {n : ℕ} {c : RestartConfiguration} where
  transition-IsAt :
      (now : LifecycleState) (m : ℕ) (s : Supervisor)
      → IsAt a state n c s
      → IsAt a now n c (transition a now m s).1
  unfolding transition set_state
  transition-IsAt now m s h = record {
    state_at = ground (arith, h.state_at, lookup-insert a a (some now) s.states, eq_refl a);
    attempts_at = ground (arith, h.state_at, h.attempts_at);
    policy_at = ground (arith, h.state_at, h.policy_at);
  }

  transition-other :
      (b : String) (now : LifecycleState) (m : ℕ) (s : Supervisor)
      → (b == a) ≡ false
      → IsAt a state n c s
      → IsAt a state n c (transition b now m s).1
  unfolding transition set_state
  transition-other b now m s e h = record {
    state_at = ground (arith, h.state_at, e, lookup-insert b a (some now) s.states);
    attempts_at = ground (arith, h.attempts_at);
    policy_at = ground (arith, h.policy_at);
  }

  transition_from-other :
      (b : String) (required now : LifecycleState) (s : Supervisor)
      → (b == a) ≡ false
      → IsAt a state n c s
      → IsAt a state n c (transition_from b required now s).1
  unfolding transition_from set_state
  transition_from-other b required now s e h = record {
    state_at = ground (arith, h.state_at, e, lookup-insert b a (some now) s.states);
    attempts_at = ground (arith, h.attempts_at);
    policy_at = ground (arith, h.policy_at);
  }

  counted-other :
      (b : String) (m : ℕ) (s : Supervisor)
      → (b == a) ≡ false
      → IsAt a state n c s
      → IsAt a state n c (record s { attempts = insert b m s.attempts })
  counted-other b m s e h = record {
    state_at = h.state_at;
    attempts_at = ground (arith, h.attempts_at, e, lookup-insert b a m s.attempts);
    policy_at = h.policy_at;
  }

  fail-other :
      (b : String) (s : Supervisor)
      → (b == a) ≡ false
      → IsAt a state n c s
      → IsAt a state n c (fail b s).1
  unfolding fail broken
  fail-other b s e h = elim (Bool-cases (is_running b s)) [
    | inl r ↦ elim (Bool-cases (restarts b s)) [
      | inl q ↦ rw (r, q, fail) (transition-other b restarting _ (broken b s) e at_broken)
      | inr q ↦ rw (r, q, fail) at_broken
    ]
    | inr r ↦ rw (r, fail) h
  ]
    where
      at_broken : IsAt a state n c (broken b s)
      at_broken = transition-other b failed _ _ e (counted-other b _ s e h)

  succeed-other :
      (b : String) (s : Supervisor)
      → (b == a) ≡ false
      → IsAt a state n c s
      → IsAt a state n c (succeed b s)
  unfolding succeed
  succeed-other b s e h = if_keeps (IsAt a state n c) _ (counted-other b 0 s e h) h

  run_op-other :
      (op : Op) (s : Supervisor)
      → (agent_of op == a) ≡ false
      → IsAt a state n c s
      → IsAt a state n c (run_op op s)
  unfolding run_op pause resume revive
  run_op-other (set_op b now m) s = transition-other b now m s
  run_op-other (pause_op b) s = transition_from-other b running paused s
  run_op-other (resume_op b) s = transition_from-other b paused running s
  run_op-other (fail_op b) s = fail-other b s
  run_op-other (succeed_op b) s = succeed-other b s
  run_op-other (revive_op b m) s = transition-other b running m s

  pub run_ops-other :
      (ops : List Op) (s : Supervisor)
      → IsOther a ops
      → IsAt a state n c s
      → IsAt a state n c (run_ops ops s)
  unfolding run_ops
  run_ops-other [] s o h = h
  run_ops-other (op ∷ ops) s o h = run_ops-other ops (run_op op s) o.1 (run_op-other op s o.0 h)

  counted-IsAt :
      (m : ℕ) (s : Supervisor)
      → IsAt a state n c s
      → IsAt a state m c (record s { attempts = insert a m s.attempts })
  counted-IsAt m s h = record {
    state_at = h.state_at;
    attempts_at = ground (arith, eq_refl a, lookup-insert a a m s.attempts);
    policy_at = h.policy_at;
  }

module _ {a : String} {n : ℕ} {c : RestartConfiguration} (s : Supervisor)
    (h : IsAt a running n c s) where
  is_running_at : is_running a s ≡ true
  is_running_at = ground (arith, h.state_at)

  next_attempt_at : next_attempt a s ≡ suc n
  next_attempt_at = ground (arith, h.attempts_at)

  restarts_at : restarts a s ≡ should_restart c (suc n)
  restarts_at = ground (arith, h.attempts_at, h.policy_at)

  broken-IsAt : IsAt a failed (suc n) c (broken a s)
  unfolding broken
  broken-IsAt =
      rw (next_attempt_at, broken) (transition-IsAt failed (suc n) _ (counted-IsAt (suc n) s h))

  pub succeed-IsAt : IsAt a running 0 c (succeed a s)
  unfolding succeed
  succeed-IsAt = rw (is_running_at, succeed) (counted-IsAt 0 s h)

  wait_while_restarting_at : (holds : List (List Op)) → wait_while_restarting a holds s ≡ (true, s)
  unfolding wait_while_restarting
  wait_while_restarting_at [] = rw (h.state_at, wait_while_restarting) refl
  wait_while_restarting_at (others ∷ holds) = rw (h.state_at, wait_while_restarting) refl

  fail_restarts :
      should_restart c (suc n) ≡ true
      → fail a s ≡ (some (suc n), (transition a restarting (suc n) (broken a s)).1)
  unfolding fail
  fail_restarts r = rw (fail, is_running_at, restarts_at, r, next_attempt_at) refl

  fail_gives_up : should_restart c (suc n) ≡ false → fail a s ≡ (none, broken a s)
  unfolding fail
  fail_gives_up r = rw (fail, is_running_at, restarts_at, r) refl

  recover_at :
      (holds : List (List Op)) (sleep : List Op)
      → recover a holds sleep s ≡ after_failure a sleep (fail a s)
  unfolding recover
  recover_at holds sleep = ap (after_wait a sleep) (wait_while_restarting_at holds)

  -- the agent restarts
  pub recover-IsAt_restart :
      (holds : List (List Op)) (sleep : List Op)
      → IsOther a sleep
      → should_restart c (suc n) ≡ true
      → ((recover a holds sleep s).0 ≡ some true)
        × IsAt a running (suc n) c (recover a holds sleep s).1
  unfolding revive
  recover-IsAt_restart holds sleep o r =
      rw (recover_at holds sleep, fail_restarts r)
        (
          refl,
          transition-IsAt running (suc n) _
              (run_ops-other sleep _ o (transition-IsAt restarting (suc n) _ broken-IsAt)),
        )

  -- the agent is given up
  pub recover-IsAt_failed :
      (holds : List (List Op)) (sleep : List Op)
      → should_restart c (suc n) ≡ false
      → ((recover a holds sleep s).0 ≡ some false)
        × IsAt a failed (suc n) c (recover a holds sleep s).1
  recover-IsAt_failed holds sleep r =
      rw (recover_at holds sleep, fail_gives_up r) (refl, broken-IsAt)

  pub wait_until_running_at : (waits : List (List Op)) → wait_until_running a waits s ≡ (proceed, s)
  unfolding wait_until_running
  wait_until_running_at [] = rw (h.state_at, wait_until_running) refl
  wait_until_running_at (others ∷ waits) = rw (h.state_at, wait_until_running) refl
