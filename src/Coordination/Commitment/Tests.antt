-- ===== src/Coordination/Commitment/Tests.antt =====
-- Runs of the commitment at fixed inputs, and the theorems applied there. The world is the log of what
-- became of the proposals; a capability "fail" fails, and "bad" is not valid.
use mininet_ai.Prelude.{
  String, ◌≡◌, refl, true, false, Option, none, some, List, [], ◌∷◌, ◌++◌, ◌==◌, length, map,
  if◌then◌else◌,
}
use mininet_ai.Prelude.Int.{pos}
use mininet_ai.Prelude.Dict.{lookup, insert}
use mininet_ai.Coordination.Arbitration.{
  serialize, AgentContext, ActionProposal, CapabilityDefinition, ArbitrationCandidate,
  ArbitrationPlan, arbitrate, make_candidate, make_candidates, decide, decision, execute, rejected,
  commit_order_from,
}
use mininet_ai.Coordination.Commitment.{
  ActionStatus, succeeded, status_rejected, failed, Executor, Gate, Finished, amend, decisions_of,
  results_of, finish_one, finish_loop, reject_rest, finish_prepared, validate_loop, commit_prepared,
  is_success, bundle_stopped,
}
use mininet_ai.Coordination.Commitment.Complete.{commit_prepared_complete}
use mininet_ai.Coordination.Commitment.Attempts.{
  Attempt, executed, refused, invalid, validated, refused_rest, Follows,
}
use mininet_ai.Coordination.Commitment.Execution.{finish_prepared_executes}

abbrev Log : Type 0
Log = List (Attempt ActionStatus)

abbrev outcome : ActionProposal → ActionStatus
outcome p = if p.capability == "fail" then failed else succeeded

abbrev checked : ActionProposal → Option ActionStatus
checked p = if p.capability == "bad" then some status_rejected else none

abbrev executor : Executor Log ActionStatus (List ActionStatus)
executor = record {
  validate = λ p w. (checked p, w ++ validated p (checked p));
  execute = λ p w. (outcome p, w ++ executed p (outcome p) ∷ []);
  reject = λ p code w. (status_rejected, w ++ refused p code ∷ []);
  complete = λ rs w. (rs, w);
  status = λ r. r;
  is_complete = λ rs. true;
}

-- no other request is in progress
abbrev gate : Gate Log
gate = record {
  enter_decision = λ cs w. ([], w);
  leave_decision = λ w. w;
  admit = λ c w. (none, w);
  leave_action = λ c w. w;
}

abbrev capabilities : List CapabilityDefinition
capabilities =
    record { name = "move"; provider = some "substrate.action"; effects = "flow" ∷ [] }
    ∷ record { name = "fail"; provider = some "substrate.action"; effects = "flow" ∷ [] }
    ∷ []

abbrev resolve : String → Option (List CapabilityDefinition)
resolve agent_id = some capabilities

abbrev context : AgentContext
context = record {
  invocation_id = "i1";
  run_id = "r1";
  agent_id = "alice";
  deployment = "edge";
  priority = pos 0;
}

abbrev propose : String → String → ActionProposal
propose id capability = record { id = id; capability = capability; target = "s1" }

abbrev proposals : List ActionProposal
proposals = propose "p1" "move" ∷ propose "p2" "fail" ∷ propose "p3" "move" ∷ []

abbrev candidate : String → String → ArbitrationCandidate
candidate id capability = record {
  candidate_id = id;
  context = context;
  proposal = propose id capability;
  effects = [];
  conflict_keys = [];
  admission_sequence = 0;
}

commit_prepared_complete_example :
    (f : Finished Log ActionStatus (List ActionStatus)) × (commit_prepared executor gate resolve
        serialize true context proposals []
      ≡ some f)
    × (length f.results ≡ length proposals)
commit_prepared_complete_example =
    commit_prepared_complete executor gate resolve serialize true context proposals [] capabilities
      refl

-- A bundle stops after the action that fails; without one, all are executed.
bundle_results :
    (f : Finished Log ActionStatus (List ActionStatus)) × (commit_prepared executor gate resolve
        serialize true context proposals []
      ≡ some f)
    × (f.results ≡ succeeded ∷ failed ∷ status_rejected ∷ [])
unfolding commit_prepared arbitrate make_candidates make_candidate decide validate_loop
    finish_prepared finish_loop finish_one amend decisions_of results_of reject_rest lookup insert
    commit_order_from
bundle_results = (_, refl, refl)

abbrev candidates : List ArbitrationCandidate
candidates = candidate "i1:p1" "move" ∷ candidate "i1:p2" "bad" ∷ candidate "i1:p3" "move" ∷ []

abbrev plan : ArbitrationPlan
plan = record {
  candidates = candidates;
  ordered = candidates;
  rejected_ids = [];
  policy = serialize;
  decisions = map (λ c. decision c execute (some 0) none) candidates;
}

-- the proposals by the identifiers of the candidates above
abbrev named : List ActionProposal
named = propose "p1" "move" ∷ propose "p2" "bad" ∷ propose "p3" "move" ∷ []

abbrev finished : Finished Log ActionStatus (List ActionStatus)
finished = record {
  results = succeeded ∷ status_rejected ∷ status_rejected ∷ [];
  invocation = succeeded ∷ status_rejected ∷ status_rejected ∷ [];
  responds = true;
  decisions =
      ("i1:p1", decision (candidate "i1:p1" "move") execute (some 0) none)
      ∷ ("i1:p2", decision (candidate "i1:p2" "bad") rejected none none)
      ∷ ("i1:p3", decision (candidate "i1:p3" "move") rejected none none)
      ∷ [];
  world =
      executed (propose "i1:p1" "move") succeeded
      ∷ invalid (propose "i1:p2" "bad") status_rejected
      ∷ refused (propose "i1:p3" "move") bundle_stopped
      ∷ [];
}

-- The second action is not valid when its turn comes: the bundle stops there.
finishes : finish_prepared executor gate true context named plan [] [] [] ≡ some finished
unfolding finish_prepared finish_loop finish_one amend decisions_of results_of reject_rest lookup
    insert
finishes = refl

finish_prepared_executes_example :
    (new : Log) × (finished.world ≡ [] ++ new ++ refused_rest plan.rejected_ids plan.candidates)
    × Follows is_success true [] false new plan.ordered
finish_prepared_executes_example =
    finish_prepared_executes executor gate (λ w. w) (λ p w. refl) (λ p w. refl) (λ p code w. refl)
      (λ rs w. refl) (λ c w. refl) (λ c w. refl) true context named plan [] [] [] finished finishes
