-- ===== src/Coordination/Commitment/Complete.antt =====
-- coordination/routing.py: `_commit_prepared` has one result for each proposal.
use mininet_ai.Prelude.{
  suc, String, ◌≡◌, refl, ap, ◌∙◌, Bool, true, not, ◌&&◌, ◌||◌, Option, none, some, List, [], ◌∷◌,
  ◌++◌, arith, ◌==◌, eq_refl, any, any-append, length, Option-cases, inl, inr, All, All-append,
}
use mininet_ai.Prelude.Dict.{lookup, insert}
use mininet_ai.Coordination.Arbitration.{
  ArbitrationPolicy, AgentContext, ActionProposal, CapabilityDefinition, ArbitrationCandidate,
  ArbitrationPlan,
}
use mininet_ai.Coordination.Commitment.{
  Executor, Gate, Finishing, Finished, reject_rest, results_of, completed, after_loop,
  finish_prepared, validate_loop, after_arbitrate, commit_prepared, candidate_id, decisions_of,
  is_none,
}
use mininet_ai.Coordination.Commitment.Plans.{
  has, has-insert, has-decisions_of, any_candidate, any_proposal, IsCovered, arbitrate-IsCovered,
  arbitrate-returns,
}
use mininet_ai.Coordination.Commitment.Results.{AllDecided, finish_loop-Covers, reject_rest-covers}

module _ {W R I : Type 0} (x : Executor W R I) (gate : Gate W) where
  -- the results so far or the admitted proposals have this identifier
  abbrev IsKnown : String → List (String × R) × List (AgentContext × ActionProposal) × W → Type 0
  IsKnown j (results, admitted, w) = (any_proposal j admitted || has j results) ≡ true

  validate_loop-IsKnown :
      (context : AgentContext) (ps : List ActionProposal) (results : List (String × R))
      (admitted : List (AgentContext × ActionProposal)) (w : W) (j : String)
      → (any (λ p. candidate_id context p == j) ps || any_proposal j admitted || has j results)
        ≡ true
      → IsKnown j (validate_loop x gate context ps results admitted w)
  unfolding validate_loop
  validate_loop-IsKnown context [] results admitted w j h = h
  validate_loop-IsKnown context (p ∷ ps) results admitted w j h =
      elim (Option-cases (x.validate p w).0) [
        | inl e ↦
            rw (e, validate_loop)
              (validate_loop-IsKnown context ps results (admitted ++ (context, p) ∷ [])
                (x.validate p w).1 j
                (ground (
                  arith,
                  h,
                  any-append (λ q. candidate_id q.0 q.1 == j) admitted ((context, p) ∷ []),
                )))
        | inr (r, e) ↦
            rw (e, validate_loop)
              (validate_loop-IsKnown context ps (insert (candidate_id context p) r results) admitted
                (x.validate p w).1 j
                (ground (arith, h, has-insert (candidate_id context p) j r results)))
      ]

  results_of-cons :
      (context : AgentContext) (p : ActionProposal) (ps : List ActionProposal)
      (results : List (String × R)) (r : R) (rs : List R)
      → lookup (candidate_id context p) results ≡ some r
      → results_of context ps results ≡ some rs
      → results_of context (p ∷ ps) results ≡ some (r ∷ rs)
  unfolding results_of
  results_of-cons context p ps results r rs f e = ground (arith, f, e)

  results_of-length :
      (context : AgentContext) (ps : List ActionProposal) (results : List (String × R))
      → ((j : String) → any (λ p. candidate_id context p == j) ps ≡ true → has j results ≡ true)
      → (rs : List R) × (results_of context ps results ≡ some rs) × (length rs ≡ length ps)
  unfolding results_of
  results_of-length context [] results h = ([], refl, refl)
  results_of-length context (p ∷ ps) results h =
      let id = candidate_id context p in
      let (rs, e, l) = results_of-length context ps results (λ j k. h j (ground (arith, k))) in
      elim (Option-cases (lookup id results)) [
        | inl f ↦ absurd (ground (arith, f, h id (ground (arith, eq_refl id))))
        | inr (r, f) ↦ (r ∷ rs, results_of-cons context p ps results r rs f e, ap suc l)
      ]

  finish_prepared_complete :
      (bundle : Bool) (context : AgentContext) (proposals : List ActionProposal)
      (plan : ArbitrationPlan) (results : List (String × R))
      (rejections : List (String × ArbitrationCandidate)) (w : W)
      → IsCovered plan
      → ((j : String)
          → any (λ p. candidate_id context p == j) proposals ≡ true
          → (any_candidate j plan.candidates || has j results) ≡ true)
      → (f : Finished W R I) × (finish_prepared x gate bundle context proposals plan results
            rejections w
          ≡ some f)
        × (length f.results ≡ length proposals)
  unfolding finish_prepared
  finish_prepared_complete bundle context proposals plan results rejections w covered known =
      let start : Finishing W R = record {
        action_results = results;
        decisions = decisions_of plan.decisions [];
        halted = bundle && not (is_none results);
        world = w;
      } in
      let decided : AllDecided x gate plan.ordered start =
        λ j k. ground (arith, (covered j).1 k, has-decisions_of j plan.decisions []) in
      let (t, e, covers) = finish_loop-Covers x gate bundle rejections plan.ordered start decided in
      let u = reject_rest x gate plan.rejected_ids plan.candidates t in
      let all : (j : String)
          → any (λ p. candidate_id context p == j) proposals ≡ true
          → has j u.action_results ≡ true =
        λ j k.
          reject_rest-covers x gate plan.rejected_ids plan.candidates t j
            (ground (arith, known j k, (covered j).0, covers j)) in
      let (rs, g, l) = results_of-length context proposals u.action_results all in
      let (i, v) = x.complete rs u.world in
      (
        record {
          results = rs;
          invocation = i;
          responds = x.is_complete i;
          decisions = u.decisions;
          world = v;
        },
        ap (after_loop x gate context proposals plan) e ∙ ap (completed x gate u) g,
        l,
      )

  abbrev AllResolved :
      (String → Option (List CapabilityDefinition))
      → List CapabilityDefinition
      → List (AgentContext × ActionProposal)
      → Type 0
  AllResolved resolve capabilities = All (λ q. resolve q.0.agent_id ≡ some capabilities)

  validate_loop-AllResolved :
      (resolve : String → Option (List CapabilityDefinition))
      (capabilities : List CapabilityDefinition) (context : AgentContext) (ps : List ActionProposal)
      (results : List (String × R)) (admitted : List (AgentContext × ActionProposal)) (w : W)
      → resolve context.agent_id ≡ some capabilities
      → AllResolved resolve capabilities admitted
      → AllResolved resolve capabilities (validate_loop x gate context ps results admitted w).1
  unfolding validate_loop
  validate_loop-AllResolved resolve capabilities context [] results admitted w h a = a
  validate_loop-AllResolved resolve capabilities context (p ∷ ps) results admitted w h a =
      elim (Option-cases (x.validate p w).0) [
        | inl e ↦
            rw (e, validate_loop)
              (validate_loop-AllResolved resolve capabilities context ps results
                (admitted ++ (context, p) ∷ []) (x.validate p w).1 h
                (All-append _ admitted _ a (h, tt)))
        | inr (r, e) ↦
            rw (e, validate_loop)
              (validate_loop-AllResolved resolve capabilities context ps
                (insert (candidate_id context p) r results) admitted (x.validate p w).1 h a)
      ]

  -- Each call of `_commit_prepared` whose arbitration finds the capabilities returns, and with one
  -- result for each of the proposals of the response: none of its lookups fails.
  pub commit_prepared_complete :
      (resolve : String → Option (List CapabilityDefinition)) (policy : ArbitrationPolicy)
      (bundle : Bool) (context : AgentContext) (proposals : List ActionProposal) (w : W)
      (capabilities : List CapabilityDefinition)
      → resolve context.agent_id ≡ some capabilities
      → (f : Finished W R I) × (commit_prepared x gate resolve policy bundle context proposals w
          ≡ some f)
        × (length f.results ≡ length proposals)
  unfolding commit_prepared finish_prepared
  commit_prepared_complete resolve policy bundle context proposals w capabilities h =
      let (results, admitted, w') = validate_loop x gate context proposals [] [] w in
      let (plan, e) =
        arbitrate-returns resolve policy capabilities admitted
          (validate_loop-AllResolved resolve capabilities context proposals [] [] w h tt) in
      let (covered, candidates) = arbitrate-IsCovered resolve policy admitted plan e in
      let known : (j : String)
          → any (λ p. candidate_id context p == j) proposals ≡ true
          → (any_candidate j plan.candidates || has j results) ≡ true =
        λ j k.
          ap (λ b. b || has j results) (candidates j)
          ∙ validate_loop-IsKnown context proposals [] [] w j (ground (arith, k)) in
      let entered = gate.enter_decision plan.ordered w' in
      let (f, g, l) =
        finish_prepared_complete bundle context proposals plan results entered.0 entered.1 covered
          known in
      (
        record f { world = gate.leave_decision f.world },
        ap (after_arbitrate x gate bundle context proposals results w') e
            ∙ ap
                (λ o. elim o [
                  | none ↦ none
                  | some f ↦ some (record f { world = gate.leave_decision f.world })
                ])
                g,
        l,
      )
