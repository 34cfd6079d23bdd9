-- ===== src/Coordination/Commitment/Execution.antt =====
-- coordination/routing.py: what `_finish_prepared` does with each action, and that a recovery bundle stops
-- at the first of its steps that does not succeed.
-- The executor keeps a log in its world: `log w` is what became of the proposals so far.
use mininet_ai.Prelude.{
  ◌||◌, String, ◌≡◌, refl, sym, ap, ◌∙◌, subst, Bool, true, false, not, ◌&&◌, Option, none, some,
  List, [], ◌∷◌, ◌++◌, append-nil, append_assoc, arith, if◌then◌else◌, Option-cases, inl, inr,
  contains,
}
use mininet_ai.Prelude.Dict.{lookup, insert}
use mininet_ai.Coordination.Arbitration.{
  AgentContext, ActionProposal, ArbitrationCandidate, ArbitrationDecision, ArbitrationPlan,
}
use mininet_ai.Coordination.Commitment.{
  Executor, Gate, Finishing, Finished, amend, put, halt_if, refuse_candidate, after_admit,
  after_validate, after_rejections, finish_one, finish_loop, reject_rest, results_of, completed,
  after_loop, finish_prepared, decisions_of, lost_to, rejected_decision, conflict_rejected,
  bundle_stopped, is_none, is_success,
}
use mininet_ai.Coordination.Commitment.Attempts.{
  Attempt, executed, refused, invalid, Follows, Step, going, halting, Follows-cons, refused_rest,
  validated,
}

module _ {W R I : Type 0} (x : Executor W R I) (gate : Gate W) (log : W → List (Attempt R))
    (execute_logs : (p : ActionProposal) (w : W)
      → log (x.execute p w).1 ≡ log w ++ executed p (x.execute p w).0 ∷ [])
    (validate_logs : (p : ActionProposal) (w : W)
      → log (x.validate p w).1 ≡ log w ++ validated p (x.validate p w).0)
    (reject_logs : (p : ActionProposal) (code : String) (w : W)
      → log (x.reject p code w).1 ≡ log w ++ refused p code ∷ [])
    (complete_keeps : (rs : List R) (w : W) → log (x.complete rs w).1 ≡ log w)
    (admit_keeps : (c : ArbitrationCandidate) (w : W) → log (gate.admit c w).1 ≡ log w)
    (leave_keeps : (c : ArbitrationCandidate) (w : W) → log (gate.leave_action c w) ≡ log w) where
  abbrev succeeds : R → Bool
  succeeds r = is_success (x.status r)

  module _ (bundle : Bool) (rejections : List (String × ArbitrationCandidate)) where
    -- what a round makes of its candidate
    abbrev Round : ArbitrationCandidate → Finishing W R → Option (Finishing W R) → Type 0
    Round c s none = Unit
    Round c s (some t) =
        (a : Attempt R) × (log t.world ≡ log s.world ++ a ∷ [])
        × Step succeeds bundle rejections s.halted c a t.halted

    put-Round :
        (c : ArbitrationCandidate) (r : R) (a : Attempt R)
        (change : ArbitrationDecision → ArbitrationDecision) (stop : Bool) (w : W)
        (s t : Finishing W R)
        → log w ≡ log s.world ++ a ∷ []
        → Step succeeds bundle rejections s.halted c a (stop || t.halted)
        → Round c s (halt_if stop (put c.candidate_id r change w t))
    unfolding amend
    put-Round c r a change stop w s t e h =
        elim (Option-cases (lookup c.candidate_id t.decisions)) [
          | inl f ↦ rw (f, Round) tt
          | inr (d, f) ↦ rw (f, Round) (a, e, h)
        ]

    -- a refusal for a conflict, with the bundle going on
    conflict-Round :
        (c winner : ArbitrationCandidate) (s : Finishing W R) (w : W)
        → log w ≡ log s.world
        → s.halted ≡ false
        → Round c s (
            halt_if bundle (
              refuse_candidate x gate c conflict_rejected
                (lost_to winner)
                (record s { world = w })))
    conflict-Round c winner s w e o =
        let a = refused c.proposal conflict_rejected in
        put-Round c (x.reject c.proposal conflict_rejected w).0 a (lost_to winner) bundle
          (x.reject c.proposal conflict_rejected w).1 s (record s { world = w })
          (reject_logs c.proposal conflict_rejected w ∙ ap (λ l. l ++ a ∷ []) e)
          (going succeeds bundle rejections s.halted (bundle || s.halted) c a o (inl refl)
            (ground (arith, o)))

    after_admit-Round :
        (c : ArbitrationCandidate) (s : Finishing W R) (admitted : Option ArbitrationCandidate × W)
        → log admitted.1 ≡ log s.world
        → s.halted ≡ false
        → lookup c.candidate_id rejections ≡ none
        → Round c s (after_admit x gate bundle c s admitted)
    after_admit-Round c s (some winner, w) e o l = conflict-Round c winner s w e o
    after_admit-Round c s (none, w) e o l =
        let (r, w') = x.execute c.proposal w in
        let a = executed c.proposal r in
        (
          a,
          leave_keeps c w' ∙ execute_logs c.proposal w ∙ ap (λ l. l ++ a ∷ []) e,
          going succeeds bundle rejections s.halted
              ((bundle && not (is_success (x.status r))) || s.halted) c a o (inr (l, inl (r, refl)))
              (ground (arith, o)),
        )

    after_validate-Round :
        (c : ArbitrationCandidate) (s : Finishing W R) (answer : Option R × W)
        → log answer.1 ≡ log s.world ++ validated c.proposal answer.0
        → s.halted ≡ false
        → lookup c.candidate_id rejections ≡ none
        → Round c s (after_validate x gate bundle c s answer)
    after_validate-Round c s (some r, w) e o l =
        let a = invalid c.proposal r in
        put-Round c r a rejected_decision bundle w s s e (
          going succeeds bundle rejections s.halted (bundle || s.halted) c a o
            (inr (l, inr (r, refl))) (ground (arith, o)))
    after_validate-Round c s (none, w) e o l =
        after_admit-Round c s (gate.admit c w) (admit_keeps c w ∙ e ∙ append-nil (log s.world)) o l

    after_rejections-Round :
        (c : ArbitrationCandidate) (s : Finishing W R) (winner : Option ArbitrationCandidate)
        → lookup c.candidate_id rejections ≡ winner
        → s.halted ≡ false
        → Round c s (after_rejections x gate bundle c s winner)
    after_rejections-Round c s (some winner) l o = conflict-Round c winner s s.world refl o
    after_rejections-Round c s none l o =
        after_validate-Round c s (x.validate c.proposal s.world) (validate_logs c.proposal s.world)
          o l

    if-Round :
        (b : Bool) (c : ArbitrationCandidate) (s : Finishing W R) (o p : Option (Finishing W R))
        → (b ≡ true → Round c s o)
        → (b ≡ false → Round c s p)
        → Round c s (if b then o else p)
    if-Round true c s o p h k = h refl
    if-Round false c s o p h k = k refl

    stopped-Round :
        (c : ArbitrationCandidate) (s : Finishing W R)
        → s.halted ≡ true
        → Round c s (refuse_candidate x gate c bundle_stopped rejected_decision s)
    unfolding amend
    stopped-Round c s o = elim (Option-cases (lookup c.candidate_id s.decisions)) [
      | inl f ↦ rw (f, Round) tt
      | inr (d, f) ↦
          rw (f, Round)
            (
              refused c.proposal bundle_stopped,
              reject_logs c.proposal bundle_stopped s.world,
              halting succeeds bundle rejections s.halted c (refused c.proposal bundle_stopped) o
                  refl,
            )
    ]

    finish_one-Round :
        (c : ArbitrationCandidate) (s : Finishing W R)
        → Round c s (finish_one x gate bundle rejections c s)
    unfolding finish_one
    finish_one-Round c s =
        if-Round s.halted c s (refuse_candidate x gate c bundle_stopped rejected_decision s)
          (after_rejections x gate bundle c s (lookup c.candidate_id rejections))
          (stopped-Round c s) (after_rejections-Round c s (lookup c.candidate_id rejections) refl)

    -- what the loop makes of its candidates
    abbrev Rounds : List ArbitrationCandidate → Finishing W R → Option (Finishing W R) → Type 0
    Rounds cs s none = Unit
    Rounds cs s (some t) =
        (new : List (Attempt R)) × (log t.world ≡ log s.world ++ new)
        × Follows succeeds bundle rejections s.halted new cs

    next-Rounds :
        (c : ArbitrationCandidate) (cs : List ArbitrationCandidate) (s t : Finishing W R)
        (o : Option (Finishing W R))
        → Round c s (some t)
        → Rounds cs t o
        → Rounds (c ∷ cs) s o
    next-Rounds c cs s t none h r = tt
    next-Rounds c cs s t (some u) (a, e, step) (new, f, follows) = (
      a ∷ new,
      f ∙ ap (λ l. l ++ new) e ∙ append_assoc (log s.world) (a ∷ []) new,
      Follows-cons succeeds bundle rejections s.halted t.halted a new c cs step follows,
    )

    empty-Follows : (halted : Bool) → Follows succeeds bundle rejections halted [] []
    empty-Follows true = tt
    empty-Follows false = tt

    finish_loop-Rounds :
        (cs : List ArbitrationCandidate) (s : Finishing W R)
        → Rounds cs s (finish_loop x gate bundle rejections cs s)
    unfolding finish_loop
    finish_loop-Rounds [] s = ([], sym (append-nil (log s.world)), empty-Follows s.halted)
    finish_loop-Rounds (c ∷ cs) s = elim (Option-cases (finish_one x gate bundle rejections c s)) [
      | inl e ↦ rw (e, Rounds) tt
      | inr (t, e) ↦
          subst
            (λ o.
              Rounds (c ∷ cs) s
                (elim o [ none ↦ none | some s' ↦ finish_loop x gate bundle rejections cs s' ]))
            (sym e)
            (next-Rounds c cs s t (finish_loop x gate bundle rejections cs t)
              (subst (Round c s) e (finish_one-Round c s)) (finish_loop-Rounds cs t))
    ]

  if-log :
      (b : Bool) (t s : Finishing W R) (a : Attempt R) (back : List (Attempt R))
      → log t.world ≡ log s.world ++ a ∷ []
      → log (if b then t else s).world ++ back ≡ log s.world ++ (if b then a ∷ back else back)
  if-log true t s a back e = ap (λ l. l ++ back) e ∙ append_assoc (log s.world) (a ∷ []) back
  if-log false t s a back e = refl

  reject_rest-log :
      (rejected_ids : List String) (cs : List ArbitrationCandidate) (s : Finishing W R)
      → log (reject_rest x gate rejected_ids cs s).world
        ≡ log s.world ++ refused_rest rejected_ids cs
  unfolding reject_rest
  reject_rest-log rejected_ids [] s = sym (append-nil (log s.world))
  reject_rest-log rejected_ids (c ∷ cs) s =
      let (r, w) = x.reject c.proposal conflict_rejected s.world in
      let refusal : Finishing W R = record s {
        action_results = insert c.candidate_id r s.action_results;
        world = w;
      } in
      reject_rest-log rejected_ids cs (if contains rejected_ids c.candidate_id then refusal else s)
      ∙ if-log (contains rejected_ids c.candidate_id) refusal s
          (refused c.proposal conflict_rejected) (refused_rest rejected_ids cs)
          (reject_logs c.proposal conflict_rejected s.world)

  completed-log :
      (t : Finishing W R) (f : Finished W R I) (o : Option (List R))
      → completed x gate t o ≡ some f
      → log f.world ≡ log t.world
  completed-log t f none h = absurd (ground (arith, h))
  completed-log t f (some rs) h =
      sym (ap (λ o. elim o [ none ↦ log t.world | some g ↦ log g.world ]) h)
      ∙ complete_keeps rs t.world

  after_loop-log :
      (bundle : Bool) (rejections : List (String × ArbitrationCandidate)) (context : AgentContext)
      (proposals : List ActionProposal) (plan : ArbitrationPlan) (s : Finishing W R)
      (f : Finished W R I) (o : Option (Finishing W R))
      → Rounds bundle rejections plan.ordered s o
      → after_loop x gate context proposals plan o ≡ some f
      → (new : List (Attempt R)) × (log f.world
          ≡ log s.world ++ new ++ refused_rest plan.rejected_ids plan.candidates)
        × Follows succeeds bundle rejections s.halted new plan.ordered
  after_loop-log bundle rejections context proposals plan s f none r h = absurd (ground (arith, h))
  after_loop-log bundle rejections context proposals plan s f (some t) (new, e, follows) h =
      let u = reject_rest x gate plan.rejected_ids plan.candidates t in
      let rest = refused_rest plan.rejected_ids plan.candidates in
      (
        new,
        completed-log u f (results_of context proposals u.action_results) h
            ∙ reject_rest-log plan.rejected_ids plan.candidates t
            ∙ ap (λ l. l ++ rest) e,
        follows,
      )

  -- When `_finish_prepared` returns, it has made one attempt for each action, in the order of
  -- arbitration: an action that the admission turned down at the start is refused for the conflict, and
  -- any other is executed, refused for a conflict, or not valid. In a recovery bundle all actions after
  -- the first that is not executed with success, be it refused, not valid or failed, are refused with
  -- `bundle-stopped`, and so are all if a proposal was refused before arbitration; outside a bundle none
  -- is. After these come the refusals of the candidates that arbitration rejected.
  pub finish_prepared_executes :
      (bundle : Bool) (context : AgentContext) (proposals : List ActionProposal)
      (plan : ArbitrationPlan) (results : List (String × R))
      (rejections : List (String × ArbitrationCandidate)) (w : W) (f : Finished W R I)
      → finish_prepared x gate bundle context proposals plan results rejections w ≡ some f
      → (new : List (Attempt R)) × (log f.world
          ≡ log w ++ new ++ refused_rest plan.rejected_ids plan.candidates)
        × Follows succeeds bundle rejections (bundle && not (is_none results)) new plan.ordered
  unfolding finish_prepared
  finish_prepared_executes bundle context proposals plan results rejections w f h =
      let start : Finishing W R = record {
        action_results = results;
        decisions = decisions_of plan.decisions [];
        halted = bundle && not (is_none results);
        world = w;
      } in
      after_loop-log bundle rejections context proposals plan start f
        (finish_loop x gate bundle rejections plan.ordered start)
        (finish_loop-Rounds bundle rejections plan.ordered start) h
