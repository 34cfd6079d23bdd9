-- ===== src/Runtime/Supervision/Retries.antt =====
-- runtime/supervision.py: how often `execute` calls the invocation, and how it ends.
use mininet_ai.Prelude.{
  ℕ, suc, String, ◌≡◌, ◌≢◌, ◌+◌, ◌<◌, ◌≤◌, refl, ◌∙◌, Bool, true, false, Option, none, some, List,
  [], ◌∷◌, ◌++◌, length, inl, inr, arith, Bool-cases, subst, All,
}
use mininet_ai.Runtime.Supervision.{
  RestartConfiguration, Supervisor, succeed, run_ops, running, failed, should_restart, on_failure,
}
use mininet_ai.Runtime.Supervision.Execution.{
  recover, Round, Invocation, result, Execution, returned, unfinished, given_up, to_recover, settle,
  execute,
}
use mininet_ai.Runtime.Supervision.Views.{
  IsAt, IsOther, run_ops-other, succeed-IsAt, recover-IsAt_restart, recover-IsAt_failed,
  wait_until_running_at,
}

module _ {R : Type 0} (is_failed : R → Bool) (continue_after_failure : Bool) (a : String) where
  -- the other threads leave the agent alone
  abbrev pub IsAlone : Round R → Type 0
  IsAlone r = IsOther a r.during × IsOther a r.sleep

  -- and the invocation fails so that `execute` recovers
  abbrev pub IsFailing : Round R → Type 0
  IsFailing r = IsAlone r × (to_recover is_failed continue_after_failure a r.outcome ≡ true)

  execute_settles :
      {n : ℕ} {c : RestartConfiguration} (r : Round R) (rounds : List (Round R)) (s : Supervisor)
      → IsAt a running n c s
      → to_recover is_failed continue_after_failure a r.outcome ≡ false
      → execute is_failed continue_after_failure a (r ∷ rounds) s
        ≡ settle is_failed continue_after_failure a r.outcome (run_ops r.during s)
  unfolding execute
  execute_settles r rounds s h e =
      rw (wait_until_running_at s h r.waits, execute, e, wait_until_running_at s h r.waits) refl

  -- how a round with a failure goes on, by what `_recover` returns
  abbrev pub after_recovery :
      Round R → List (Round R) → Option Bool × Supervisor → Execution R × Supervisor
  after_recovery r rounds (none, s) = (unfinished, s)
  after_recovery r rounds (some true, s) = execute is_failed continue_after_failure a rounds s
  after_recovery r rounds (some false, s) =
      (given_up is_failed continue_after_failure a r.outcome, s)

  execute_recovers :
      {n : ℕ} {c : RestartConfiguration} (r : Round R) (rounds : List (Round R)) (s : Supervisor)
      (e : Bool)
      → IsAt a running n c s
      → to_recover is_failed continue_after_failure a r.outcome ≡ true
      → (recover a r.holds r.sleep (run_ops r.during s)).0 ≡ some e
      → execute is_failed continue_after_failure a (r ∷ rounds) s
        ≡ after_recovery r rounds (some e, (recover a r.holds r.sleep (run_ops r.during s)).1)
  unfolding execute
  execute_recovers r rounds s true h f g =
      rw
        (
          wait_until_running_at s h r.waits,
          execute,
          f,
          wait_until_running_at s h r.waits,
          g,
          wait_until_running_at s h r.waits,
        )
        refl
  execute_recovers r rounds s false h f g =
      rw
        (
          wait_until_running_at s h r.waits,
          execute,
          f,
          wait_until_running_at s h r.waits,
          g,
          wait_until_running_at s h r.waits,
        )
        refl

  -- A round whose invocation succeeds ends the call.
  round_returns :
      {n : ℕ} {c : RestartConfiguration} (r : Round R) (rounds : List (Round R)) (x : R)
      (s : Supervisor)
      → r.outcome ≡ result x
      → is_failed x ≡ false
      → IsAt a running n c s
      → execute is_failed continue_after_failure a (r ∷ rounds) s
        ≡ (returned x, succeed a (run_ops r.during s))
  round_returns r rounds x s o q h =
      execute_settles r rounds s h (rw (o, to_recover, q) refl) ∙ (rw (o, q) refl)

  -- A failing round within the budget: the next round starts with one more attempt.
  round_retried :
      {n : ℕ} {c : RestartConfiguration} (r : Round R) (rounds : List (Round R)) (s : Supervisor)
      → IsFailing r
      → IsAt a running n c s
      → should_restart c (suc n) ≡ true
      → (t : Supervisor) × (execute is_failed continue_after_failure a (r ∷ rounds) s
          ≡ execute is_failed continue_after_failure a rounds t)
        × IsAt a running (suc n) c t
  round_retried r rounds s f h e =
      let at_failure = run_ops-other r.during s f.0.0 h in
      let recovered =
        recover-IsAt_restart (run_ops r.during s) at_failure r.holds r.sleep f.0.1 e in
      (_, execute_recovers r rounds s true h f.1 recovered.0, recovered.1)

  -- A failing round beyond the budget: the call gives up.
  round_given_up :
      {n : ℕ} {c : RestartConfiguration} (r : Round R) (rounds : List (Round R)) (s : Supervisor)
      → IsFailing r
      → IsAt a running n c s
      → should_restart c (suc n) ≡ false
      → (t : Supervisor) × (execute is_failed continue_after_failure a (r ∷ rounds) s
          ≡ (given_up is_failed continue_after_failure a r.outcome, t))
        × IsAt a failed (suc n) c t
  round_given_up r rounds s f h e =
      let at_failure = run_ops-other r.during s f.0.0 h in
      let recovered = recover-IsAt_failed (run_ops r.during s) at_failure r.holds r.sleep e in
      (_, execute_recovers r rounds s false h f.1 recovered.0, recovered.1)

  -- Failing rounds within the budget: the rest runs with as many attempts more.
  rounds_retried :
      {n : ℕ} {c : RestartConfiguration} (rounds rest : List (Round R)) (s : Supervisor)
      → All IsFailing rounds
      → IsAt a running n c s
      → c.policy ≡ on_failure
      → n + length rounds ≤ c.max_attempts
      → (t : Supervisor) × (execute is_failed continue_after_failure a (rounds ++ rest) s
          ≡ execute is_failed continue_after_failure a rest t)
        × IsAt a running (n + length rounds) c t
  rounds_retried {c = c} [] rest s f h p b =
      (s, refl, subst (λ m. IsAt a running m c s) (omega arith) h)
  rounds_retried {c = c} (r ∷ rounds) rest s f h p b =
      let (t, e, h') = round_retried r (rounds ++ rest) s f.0 h (ground (arith, p, b)) in
      let (u, e', h'') = rounds_retried rounds rest t f.1 h' p (omega arith) in
      (u, e ∙ e', subst (λ m. IsAt a running m c u) (omega arith) h'')

  -- With the agent running after n failures, `execute` calls the invocation once and then as often
  -- again as the budget allows: if each call fails, and no other thread steps the agent, the call after
  -- the last retry gives up with what that call returned or raised, and leaves the agent `failed`. The
  -- rounds after it are not run.
  pub gives_up_after_budget :
      {n : ℕ} {c : RestartConfiguration} (rounds : List (Round R)) (last : Round R)
      (rest : List (Round R)) (s : Supervisor)
      → All IsFailing rounds
      → IsFailing last
      → IsAt a running n c s
      → c.policy ≡ on_failure
      → n + length rounds ≡ c.max_attempts
      → ((execute is_failed continue_after_failure a (rounds ++ last ∷ rest) s).0
          ≡ given_up is_failed continue_after_failure a last.outcome)
        × IsAt a failed
            (suc c.max_attempts)
            c
            (execute is_failed continue_after_failure a (rounds ++ last ∷ rest) s).1
  gives_up_after_budget {n} {c} rounds last rest s f g h p b =
      let (t, e, h') = rounds_retried rounds (last ∷ rest) s f h p (omega arith) in
      let (u, e', h'') = round_given_up last rest t g h' (ground (arith, p, b)) in
      rw (e ∙ e') (refl, subst (λ m. IsAt a failed (suc m) c u) b h'')

  -- With the agent running after n failures: if the calls fail, within what is left of the budget, and
  -- the next returns a result that is not failed, and no other thread steps the agent, then `execute`
  -- returns that result, and the agent runs with its attempts back at zero.
  pub returns_within_budget :
      {n : ℕ} {c : RestartConfiguration} (rounds : List (Round R)) (last : Round R)
      (rest : List (Round R)) (x : R) (s : Supervisor)
      → All IsFailing rounds
      → IsAlone last
      → last.outcome ≡ result x
      → is_failed x ≡ false
      → IsAt a running n c s
      → c.policy ≡ on_failure
      → n + length rounds ≤ c.max_attempts
      → ((execute is_failed continue_after_failure a (rounds ++ last ∷ rest) s).0 ≡ returned x)
        × IsAt a running 0 c
            (execute is_failed continue_after_failure a (rounds ++ last ∷ rest) s).1
  returns_within_budget {n} {c} rounds last rest x s f l o q h p b =
      let (t, e, h') = rounds_retried rounds (last ∷ rest) s f h p b in
      rw (e ∙ round_returns last rest x t o q h')
        (refl, succeed-IsAt _ (run_ops-other last.during t l.0 h'))

  given_up_ends : (o : Invocation R) → given_up is_failed continue_after_failure a o ≢ unfinished
  given_up_ends o = ground arith

  settle_ends :
      (o : Invocation R) (s : Supervisor)
      → (settle is_failed continue_after_failure a o s).0 ≢ unfinished
  settle_ends o s = ground arith

  -- `execute` ends: an agent that runs and that no other thread steps, with the attempts not above the
  -- budget, has its call decided within as many rounds as the budget has attempts left, and one more,
  -- whatever the invocation does in each.
  pub execute_ends :
      {n : ℕ} {c : RestartConfiguration} (rounds : List (Round R)) (s : Supervisor)
      → All IsAlone rounds
      → IsAt a running n c s
      → n ≤ c.max_attempts
      → c.max_attempts < n + length rounds
      → (execute is_failed continue_after_failure a rounds s).0 ≢ unfinished
  execute_ends {n} {c} [] s l h b d = ground (arith, b, d)
  execute_ends {n} {c} (r ∷ rounds) s l h b d =
      elim (Bool-cases (to_recover is_failed continue_after_failure a r.outcome)) [
        | inr f ↦ rw (execute_settles r rounds s h f) (settle_ends r.outcome (run_ops r.during s))
        | inl f ↦ elim (Bool-cases (should_restart c (suc n))) [
          | inl e ↦
              (let (t, e', h') = round_retried r rounds s (l.0, f) h e in
                rw e' (execute_ends rounds t l.1 h' (ground (arith, e)) (omega arith)))
          | inr e ↦
              (let (t, e', _) = round_given_up r rounds s (l.0, f) h e in
                rw e' (given_up_ends r.outcome))
        ]
      ]
