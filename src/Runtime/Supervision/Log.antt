-- ===== src/Runtime/Supervision/Log.antt =====
-- runtime/supervision.py: the transitions tell the states, in the order in which the lock lets them be
-- made. The listener is called after the lock is released, and may see those of other threads between.
use mininet_ai.Prelude.{
  ℕ, String, ◌≡◌, refl, Option, none, some, List, [], ◌∷◌, ◌++◌, map, append-nil, append_assoc,
  if◌then◌else◌, inl, inr, arith, ◌==◌, Option-cases, if_keeps, Bool-cases,
}
use mininet_ai.Prelude.Dict.{lookup, insert, lookup-insert}
use mininet_ai.Runtime.Supervision.{
  LifecycleState, RestartConfiguration, LifecycleTransition, Supervisor, new_supervisor, set_state,
  transition, transition_from, Outcome, pause, broken, is_running, restarts, resume, fail, revive,
  succeed, Op, set_op, pause_op, resume_op, fail_op, succeed_op, revive_op, run_op, run_ops,
  running, paused, failed, restarting,
}

-- the state that the transitions leave an agent in
abbrev pub last_from :
    Option LifecycleState → String → List LifecycleTransition → Option LifecycleState
last_from now a [] = now
last_from now a (t ∷ ts) = last_from (if t.agent_id == a then some t.state else now) a ts

abbrev pub last_state : String → List LifecycleTransition → Option LifecycleState
last_state = last_from none

last_from-append :
    (now : Option LifecycleState) (a : String) (ts : List LifecycleTransition)
    (t : LifecycleTransition)
    → last_from now a (ts ++ t ∷ [])
      ≡ (if t.agent_id == a then some t.state else last_from now a ts)
last_from-append now a [] t = refl
last_from-append now a (x ∷ ts) t =
    last_from-append (if x.agent_id == a then some x.state else now) a ts t

-- each transition names as previous the state that those before it left its agent in
abbrev pub IsChain : List LifecycleTransition → List LifecycleTransition → Type 0
IsChain before [] = Unit
IsChain before (t ∷ ts) =
    (t.previous_state ≡ last_state t.agent_id before) × IsChain (before ++ t ∷ []) ts

IsChain-append :
    (before ts : List LifecycleTransition) (t : LifecycleTransition)
    → IsChain before ts
    → t.previous_state ≡ last_state t.agent_id (before ++ ts)
    → IsChain before (ts ++ t ∷ [])
IsChain-append before [] t h e = (rw (append-nil before) at e, tt)
IsChain-append before (x ∷ ts) t h e =
    (h.0, IsChain-append (before ++ x ∷ []) ts t h.1 (rw (append_assoc before (x ∷ []) ts) e))

-- The log is a chain, and each known agent is in the state that the log tells.
pub record IsLogged (s : Supervisor) : Type 0 where
  pub chain : IsChain [] s.log
  pub told :
      (a : String) (state : Option LifecycleState)
      → lookup a s.states ≡ some state
      → state ≡ last_state a s.log

-- the state after a transition from a known state
abbrev moved : String → LifecycleState → ℕ → Option LifecycleState → Supervisor → Supervisor
moved a state n previous s = record s {
  states = insert a (some state) s.states;
  log =
      s.log ++ record { agent_id = a; state = state; previous_state = previous; attempt = n } ∷ [];
}

moved-IsLogged :
    (a : String) (state : LifecycleState) (n : ℕ) (previous : Option LifecycleState)
    (s : Supervisor)
    → lookup a s.states ≡ some previous
    → IsLogged s
    → IsLogged (moved a state n previous s)
moved-IsLogged a state n previous s h l = record {
  chain = IsChain-append [] s.log _ l.chain (l.told a previous h);
  told = λ b now e. ground (
    arith,
    lookup-insert a b (some state) s.states,
    l.told b now,
    last_from-append none b s.log
        (record { agent_id = a; state = state; previous_state = previous; attempt = n }),
    e,
  );
}

transition-IsLogged :
    (a : String) (state : LifecycleState) (n : ℕ) (s : Supervisor)
    → IsLogged s
    → IsLogged (transition a state n s).1
unfolding transition set_state
transition-IsLogged a state n s l = elim (Option-cases (lookup a s.states)) [
  | inl h ↦ rw (h, transition, set_state) l
  | inr (previous, h) ↦ rw (h, transition, set_state) (moved-IsLogged a state n previous s h l)
]

-- `transition_from` changes the state as `transition` does, or not at all
transition_from-IsLogged :
    (a : String) (required state : LifecycleState) (s : Supervisor)
    → IsLogged s
    → IsLogged (transition_from a required state s).1
unfolding transition_from transition
transition_from-IsLogged a required state s l = elim (Option-cases (lookup a s.states)) [
  | inl h ↦ rw (h, transition_from) l
  | inr (_, h) ↦
      rw (h, transition_from)
        (if_keeps (λ (r : Outcome). IsLogged r.1) _ (transition-IsLogged a state 0 s l) l)
]

-- A state with other `attempts` has the same log and states.
counted-IsLogged :
    (attempts : List (String × ℕ)) (s : Supervisor)
    → IsLogged s
    → IsLogged (record s { attempts = attempts })
counted-IsLogged attempts s l = record { chain = l.chain; told = l.told }

broken-IsLogged : (a : String) (s : Supervisor) → IsLogged s → IsLogged (broken a s)
unfolding broken
broken-IsLogged a s l = transition-IsLogged a failed _ _ (counted-IsLogged _ s l)

fail-IsLogged : (a : String) (s : Supervisor) → IsLogged s → IsLogged (fail a s).1
unfolding fail
fail-IsLogged a s l = elim (Bool-cases (is_running a s)) [
  | inl e ↦ elim (Bool-cases (restarts a s)) [
    | inl r ↦ rw (e, r, fail) (transition-IsLogged a restarting _ _ (broken-IsLogged a s l))
    | inr r ↦ rw (e, r, fail) (broken-IsLogged a s l)
  ]
  | inr e ↦ rw (e, fail) l
]

succeed-IsLogged : (a : String) (s : Supervisor) → IsLogged s → IsLogged (succeed a s)
unfolding succeed
succeed-IsLogged a s l = ground (arith, l)

run_op-IsLogged : (op : Op) (s : Supervisor) → IsLogged s → IsLogged (run_op op s)
unfolding run_op pause resume revive
run_op-IsLogged (set_op a state n) s = transition-IsLogged a state n s
run_op-IsLogged (pause_op a) s = transition_from-IsLogged a running paused s
run_op-IsLogged (resume_op a) s = transition_from-IsLogged a paused running s
run_op-IsLogged (fail_op a) s = fail-IsLogged a s
run_op-IsLogged (succeed_op a) s = succeed-IsLogged a s
run_op-IsLogged (revive_op a n) s = transition-IsLogged a running n s

pub run_ops-IsLogged : (ops : List Op) (s : Supervisor) → IsLogged s → IsLogged (run_ops ops s)
unfolding run_ops
run_ops-IsLogged [] s l = l
run_ops-IsLogged (op ∷ ops) s l = run_ops-IsLogged ops (run_op op s) (run_op-IsLogged op s l)

lookup-map-none :
    (a : String) (policies : List (String × RestartConfiguration)) (state : Option LifecycleState)
    → lookup a (map (λ p. (p.0, none)) policies) ≡ some state
    → state ≡ none
unfolding lookup
lookup-map-none a [] state h = ground arith
lookup-map-none a ((b, c) ∷ policies) state h = ground (arith, lookup-map-none a policies state)

-- From a new supervisor, whatever the threads do: each transition that a locked section makes names as
-- previous state the state that the transitions made before it left its agent in, and each known agent
-- is in the state that the last transition made for it tells, or in none if it has no transition. The
-- order is that in which the transitions are made, not that in which the listener is called.
pub log_tells_states :
    (policies : List (String × RestartConfiguration)) (ops : List Op)
    → IsLogged (run_ops ops (new_supervisor policies))
unfolding new_supervisor
log_tells_states policies ops =
    run_ops-IsLogged ops _
      record { chain = tt; told = λ a state e. lookup-map-none a policies state e }
