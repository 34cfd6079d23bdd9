-- ===== src/Coordination/Admission/Tests.antt =====
-- Runs of the admission at fixed inputs, and the theorems applied there.
use mininet_ai.Prelude.{
  ℕ, String, ◌≡◌, ◌≢◌, refl, Bool, true, false, some, List, [], ◌∷◌, map, get_elem?, ◌==◌,
}
use mininet_ai.Prelude.Int.{ℤ, pos, negsuc}
use mininet_ai.Coordination.Arbitration.{
  AgentContext, ArbitrationCandidate, ArbitrationPolicy, reject, serialize, priority_order,
  conflicts,
}
use mininet_ai.Coordination.Admission.{
  ActionAdmission, Pending, CommitReservation, AgentResponse, new_admission, admit_enter, ready,
  decision_enter, decision_ready, decision_conflicts,
}
use mininet_ai.Coordination.Admission.Steps.{Reach, started, stepped, enter}
use mininet_ai.Coordination.Admission.Safety.{IsExclusive, mutual_exclusion}
use mininet_ai.Coordination.Admission.Progress.{no_deadlock}

-- the candidates below differ in their identifiers
abbrev same : ArbitrationCandidate → ArbitrationCandidate → Bool
same a b = a.candidate_id == b.candidate_id

abbrev context : String → ℤ → AgentContext
context agent priority = record {
  invocation_id = agent;
  run_id = "r";
  agent_id = agent;
  deployment = "d";
  priority = priority;
}

abbrev candidate : String → ℤ → String → ArbitrationCandidate
candidate agent priority key = record {
  candidate_id = agent;
  context = context agent priority;
  proposal = record { id = "1"; capability = "flow"; target = "s1" };
  effects = "flow" ∷ [];
  conflict_keys = key ∷ [];
  admission_sequence = 0;
}

abbrev low : ArbitrationCandidate
low = candidate "low" (negsuc 3) "s1:flow"

abbrev high : ArbitrationCandidate
high = candidate "high" (pos 3) "s1:flow"

abbrev other : ArbitrationCandidate
other = candidate "other" (pos 0) "s2:flow"

abbrev queued : ArbitrationPolicy → ActionAdmission
queued policy =
    (admit_enter same 3 other []
      (admit_enter same 2 high [] (admit_enter same 1 low [] (new_admission policy)).1).1).1

abbrev readiness : ArbitrationPolicy → List Bool
readiness policy = map (ready same (queued policy)) (queued policy).pending

fifo_goes_first : readiness serialize ≡ true ∷ false ∷ true ∷ []
unfolding ready admit_enter new_admission conflicts
fifo_goes_first = refl

priority_goes_first : readiness priority_order ≡ false ∷ true ∷ true ∷ []
unfolding ready admit_enter new_admission conflicts
priority_goes_first = refl

refused_for_history : (admit_enter same 2 high (low ∷ []) (new_admission reject)).0 ≡ some low
unfolding admit_enter new_admission conflicts
refused_for_history = refl

abbrev writes : String → AgentResponse
writes key = record {
  shared_state_reads = [];
  shared_state_updates = ("deployment", key) ∷ [];
  has_proposals = false;
}

abbrev two_commits : ActionAdmission
two_commits =
    (decision_enter 2 (context "b" (pos 1)) (writes "k") [] []
      (decision_enter 1 (context "a" (pos 0)) (writes "k") [] [] (new_admission serialize)).1).1

commits_wait : map (decision_ready two_commits) two_commits.waiting ≡ true ∷ false ∷ []
unfolding decision_ready decision_enter new_admission decision_conflicts
commits_wait = refl

queued_is_reached : Reach same (new_admission priority_order) (queued priority_order)
queued_is_reached =
    stepped (stepped (stepped started (enter 1 low [])) (enter 2 high [])) (enter 3 other [])

mutual_exclusion_example : IsExclusive (queued priority_order)
mutual_exclusion_example = mutual_exclusion same priority_order queued_is_reached

no_deadlock_example :
    ((queued priority_order).active ≡ []
      → (queued priority_order).pending ≢ []
      → (k : ℕ) × (w : Pending) × (get_elem? (queued priority_order).pending k ≡ some w)
        × (ready same (queued priority_order) w ≡ true))
    × ((queued priority_order).committing ≡ []
        → (queued priority_order).waiting ≢ []
        → (k : ℕ) × (r : CommitReservation) × (get_elem? (queued priority_order).waiting k ≡ some r)
          × (decision_ready (queued priority_order) r ≡ true))
no_deadlock_example = no_deadlock same priority_order queued_is_reached
