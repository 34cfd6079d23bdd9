-- ===== src/Coordination/Commitment.antt =====
-- mininet_ai/coordination/routing.py: how `CoordinationRuntime` commits the response of an agent,
-- `_commit_prepared` and `_finish_prepared`.
-- The `Executor` is the protocol `CoordinatedAgentExecutor` for one prepared invocation, and the
-- `Gate` the admission with the history of the request: `admit` and `decision` return after their
-- waits, with what other threads did meanwhile in the world `W`. `R` is `ActionResult`, `I` is
-- `AgentInvocationResult`. A callback that raises ends the call, and is left out here; `none` is a
-- `KeyError`, or the error of `resolve`.
pub mod Results
pub mod Complete
pub mod Plans
pub mod Attempts
pub mod Execution
mod Tests
use Prim.Native.String.{◌++◌ as ◌<>◌}
use mininet_ai.Prelude.{
  ℕ, String, Bool, true, false, not, ◌&&◌, ◌||◌, Option, none, some, List, [], ◌∷◌, ◌++◌, map,
  contains, if◌then◌else◌,
}
use mininet_ai.Prelude.Dict.{lookup, insert}
use mininet_ai.Coordination.Arbitration.{
  ArbitrationPolicy, AgentContext, ActionProposal, CapabilityDefinition, ArbitrationCandidate,
  ArbitrationDecision, ArbitrationPlan, rejected, arbitrate,
}

pub data ActionStatus : Type 0 where
  succeeded status_rejected failed : ActionStatus

-- `self._invoker`, for one `PreparedAgentInvocation`
pub record Executor (W R I : Type 0) : Type 0 where
  pub validate : ActionProposal → W → Option R × W
  pub execute : ActionProposal → W → R × W
  pub reject : ActionProposal → String → W → R × W
  pub complete : List R → W → I × W
  pub status : R → ActionStatus
  pub is_complete : I → Bool

-- `self._admission`, for one context and response
pub record Gate (W : Type 0) : Type 0 where
  pub enter_decision : List ArbitrationCandidate → W → List (String × ArbitrationCandidate) × W
  pub leave_decision : W → W
  pub admit : ArbitrationCandidate → W → Option ArbitrationCandidate × W
  pub leave_action : ArbitrationCandidate → W → W

abbrev pub is_success : ActionStatus → Bool
is_success succeeded = true
is_success _ = false

-- the variables of `_finish_prepared`
pub record Finishing (W R : Type 0) : Type 0 where
  pub action_results : List (String × R)
  pub decisions : List (String × ArbitrationDecision)
  pub halted : Bool
  pub world : W

-- the updates of a decision
abbrev pub rejected_decision : ArbitrationDecision → ArbitrationDecision
rejected_decision d = record d { disposition = rejected; commit_order = none }

abbrev pub lost_to : ArbitrationCandidate → ArbitrationDecision → ArbitrationDecision
lost_to winner d = record d {
  disposition = rejected;
  commit_order = none;
  winner_candidate_id = some winner.candidate_id;
}

-- `decisions[id] = decisions[id].model_copy(update=…)`
unfoldable pub amend :
    String
    → (ArbitrationDecision → ArbitrationDecision)
    → List (String × ArbitrationDecision)
    → Option (List (String × ArbitrationDecision))
amend id change decisions = elim (lookup id decisions) [
  | none ↦ none
  | some d ↦ some (insert id (change d) decisions)
]

abbrev pub bundle_stopped : String
bundle_stopped = "agent.bounded-decision.bundle-stopped"

abbrev pub conflict_rejected : String
conflict_rejected = "coordination.conflict.rejected"

-- `{d.candidate_id: d for d in …}`
unfoldable pub decisions_of :
    List ArbitrationDecision
    → List (String × ArbitrationDecision)
    → List (String × ArbitrationDecision)
decisions_of [] done = done
decisions_of (d ∷ ds) done = decisions_of ds (insert d.candidate_id d done)

-- `_candidate_id`
abbrev pub candidate_id : AgentContext → ActionProposal → String
candidate_id context p = (context.invocation_id <> ":") <> p.id

module _ {W R : Type 0} where
  -- `if bounded_bundle: halted = True`
  abbrev pub halt_if : Bool → Option (Finishing W R) → Option (Finishing W R)
  halt_if stop none = none
  halt_if stop (some s) = some (record s { halted = stop || s.halted })

  -- a result and the change of the decision for it
  abbrev pub put :
      String
      → R
      → (ArbitrationDecision → ArbitrationDecision)
      → W
      → Finishing W R
      → Option (Finishing W R)
  put id r change w s = elim (amend id change s.decisions) [
    | none ↦ none
    | some decisions ↦ some (record s {
      action_results = insert id r s.action_results;
      decisions = decisions;
      world = w;
    })
  ]

-- the lookups of the results of the proposals
unfoldable pub results_of :
    {R : Type 0} → AgentContext → List ActionProposal → List (String × R) → Option (List R)
results_of context [] results = some []
results_of context (p ∷ ps) results =
    let rest = results_of context ps results in
    elim (lookup (candidate_id context p) results) [
      | none ↦ none
      | some r ↦ elim rest [ none ↦ none | some rs ↦ some (r ∷ rs) ]
    ]

abbrev pub is_none : {R : Type 0} → List (String × R) → Bool
is_none [] = true
is_none (_ ∷ _) = false

-- What `_finish_prepared` returns: the invocation's result, whether the response comes with it, and
-- the decisions of the report; with the results of the proposals, which `complete` was given.
pub record Finished (W R I : Type 0) : Type 0 where
  pub results : List R
  pub invocation : I
  pub responds : Bool
  pub decisions : List (String × ArbitrationDecision)
  pub world : W

module _ {W R I : Type 0} (x : Executor W R I) (gate : Gate W) where
  -- the call of `reject`, its result and the decision
  abbrev pub refuse_candidate :
      ArbitrationCandidate
      → String
      → (ArbitrationDecision → ArbitrationDecision)
      → Finishing W R
      → Option (Finishing W R)
  refuse_candidate c code change s =
      let (r, w) = x.reject c.proposal code s.world in put c.candidate_id r change w s

  -- the body of `with self._admission.admit(…) as winner`, and its end
  abbrev pub after_admit :
      Bool
      → ArbitrationCandidate
      → Finishing W R
      → Option ArbitrationCandidate × W
      → Option (Finishing W R)
  after_admit bundle c s (none, w) =
      let (r, w') = x.execute c.proposal w in
      some (record s {
        action_results = insert c.candidate_id r s.action_results;
        halted = (bundle && not (is_success (x.status r))) || s.halted;
        world = gate.leave_action c w';
      })
  after_admit bundle c s (some winner, w) =
      halt_if bundle
        (refuse_candidate c conflict_rejected (lost_to winner) (record s { world = w }))

  -- from the second `validate` on
  abbrev pub after_validate :
      Bool → ArbitrationCandidate → Finishing W R → Option R × W → Option (Finishing W R)
  after_validate bundle c s (some r, w) =
      halt_if bundle (put c.candidate_id r rejected_decision w s)
  after_validate bundle c s (none, w) = after_admit bundle c s (gate.admit c w)

  -- from the test of `rejections` on
  abbrev pub after_rejections :
      Bool
      → ArbitrationCandidate
      → Finishing W R
      → Option ArbitrationCandidate
      → Option (Finishing W R)
  after_rejections bundle c s (some winner) =
      halt_if bundle (refuse_candidate c conflict_rejected (lost_to winner) s)
  after_rejections bundle c s none = after_validate bundle c s (x.validate c.proposal s.world)

  -- one round of the loop over `arbitration.ordered`
  unfoldable pub finish_one :
      Bool
      → List (String × ArbitrationCandidate)
      → ArbitrationCandidate
      → Finishing W R
      → Option (Finishing W R)
  finish_one bundle rejections c s =
      if s.halted
      then refuse_candidate c bundle_stopped rejected_decision s
      else after_rejections bundle c s (lookup c.candidate_id rejections)

  unfoldable pub finish_loop :
      Bool
      → List (String × ArbitrationCandidate)
      → List ArbitrationCandidate
      → Finishing W R
      → Option (Finishing W R)
  unfolding finish_one
  finish_loop bundle rejections [] s = some s
  finish_loop bundle rejections (c ∷ cs) s = elim (finish_one bundle rejections c s) [
    | none ↦ none
    | some s' ↦ finish_loop bundle rejections cs s'
  ]

  -- the loop over `arbitration.candidates`
  unfoldable pub reject_rest :
      List String → List ArbitrationCandidate → Finishing W R → Finishing W R
  reject_rest rejected_ids [] s = s
  reject_rest rejected_ids (c ∷ cs) s =
      let (r, w) = x.reject c.proposal conflict_rejected s.world in
      let refused = record s {
        action_results = insert c.candidate_id r s.action_results;
        world = w;
      } in
      reject_rest rejected_ids cs (if contains rejected_ids c.candidate_id then refused else s)

  -- the last statements of `_finish_prepared`
  abbrev pub completed : Finishing W R → Option (List R) → Option (Finished W R I)
  completed s none = none
  completed s (some results) =
      let (i, w) = x.complete results s.world in
      some (record {
        results = results;
        invocation = i;
        responds = x.is_complete i;
        decisions = s.decisions;
        world = w;
      })

  -- `_finish_prepared` from the second loop on
  abbrev pub after_loop :
      AgentContext
      → List ActionProposal
      → ArbitrationPlan
      → Option (Finishing W R)
      → Option (Finished W R I)
  after_loop context proposals plan none = none
  after_loop context proposals plan (some s) =
      let t = reject_rest plan.rejected_ids plan.candidates s in
      completed t (results_of context proposals t.action_results)

  unfoldable pub finish_prepared :
      Bool
      → AgentContext
      → List ActionProposal
      → ArbitrationPlan
      → List (String × R)
      → List (String × ArbitrationCandidate)
      → W
      → Option (Finished W R I)
  unfolding finish_loop reject_rest results_of decisions_of
  finish_prepared bundle context proposals plan action_results rejections w =
      after_loop context proposals plan (
        finish_loop bundle rejections plan.ordered (record {
          action_results = action_results;
          decisions = decisions_of plan.decisions [];
          halted = bundle && not (is_none action_results);
          world = w;
        }))

  -- the loop of `_commit_prepared`: the results so far, and the proposals that are admitted
  unfoldable pub validate_loop :
      AgentContext
      → List ActionProposal
      → List (String × R)
      → List (AgentContext × ActionProposal)
      → W
      → List (String × R) × List (AgentContext × ActionProposal) × W
  validate_loop context [] results admitted w = (results, admitted, w)
  validate_loop context (p ∷ ps) results admitted w =
      let (rejection, w') = x.validate p w in
      elim rejection [
        | none ↦ validate_loop context ps results (admitted ++ (context, p) ∷ []) w'
        | some r ↦ validate_loop context ps (insert (candidate_id context p) r results) admitted w'
      ]

  -- `with self._admission.decision(…) as rejections`
  abbrev pub after_arbitrate :
      Bool
      → AgentContext
      → List ActionProposal
      → List (String × R)
      → W
      → Option ArbitrationPlan
      → Option (Finished W R I)
  after_arbitrate bundle context proposals results w none = none
  after_arbitrate bundle context proposals results w (some plan) =
      let (rejections, w') = gate.enter_decision plan.ordered w in
      elim (finish_prepared bundle context proposals plan results rejections w') [
        | none ↦ none
        | some f ↦ some (record f { world = gate.leave_decision f.world })
      ]

  unfoldable pub commit_prepared :
      (String → Option (List CapabilityDefinition))
      → ArbitrationPolicy
      → Bool
      → AgentContext
      → List ActionProposal
      → W
      → Option (Finished W R I)
  unfolding validate_loop finish_prepared
  commit_prepared resolve policy bundle context proposals w =
      let (results, admitted, w') = validate_loop context proposals [] [] w in
      after_arbitrate bundle context proposals results w' (arbitrate resolve policy admitted)
