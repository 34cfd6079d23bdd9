-- ===== src/Coordination/Arbitration/Tests.antt =====
-- Runs of the arbitrator at fixed inputs, and the theorems applied there.
use mininet_ai.Prelude.{String, ◌≡◌, refl, Bool, Option, some, List, [], ◌∷◌, map, count}
use mininet_ai.Prelude.Int.{ℤ, pos, negsuc}
use mininet_ai.Prelude.Sorting.{IsSorted, sort}
use mininet_ai.Coordination.Arbitration.{
  AgentContext, ActionProposal, CapabilityDefinition, ArbitrationCandidate, arbitrate, decide,
  conflicts, make_candidate, reject, serialize, priority_order, reject_loop, reject_one,
  commit_order_from, admission_leb,
}
use mininet_ai.Coordination.Arbitration.Rejection.{
  Apart, Greedy, Decided, rejected_of, reject_sound,
}
use mininet_ai.Coordination.Arbitration.Order.{comes_before, AllCommitted, ordered_by_policy}

abbrev flow : CapabilityDefinition
flow = record { name = "flow"; provider = some "substrate.action"; effects = "route" ∷ "flow" ∷ [] }

abbrev look : CapabilityDefinition
look = record { name = "look"; provider = some "substrate.observation"; effects = "flow" ∷ [] }

abbrev context : String → ℤ → AgentContext
context agent priority = record {
  invocation_id = agent;
  run_id = "r";
  agent_id = agent;
  deployment = "d";
  priority = priority;
}

abbrev proposal : String → String → String → ActionProposal
proposal id capability target = record { id = id; capability = capability; target = target }

abbrev proposals : List (AgentContext × ActionProposal)
proposals =
    (context "a" (negsuc 0), proposal "1" "flow" "s1")
    ∷ (context "b" (pos 2), proposal "1" "flow" "s1")
    ∷ (context "c" (pos 2), proposal "1" "flow" "s2")
    ∷ (context "d" (pos 0), proposal "1" "look" "s1")
    ∷ (context "e" (pos 0), proposal "1" "other" "s3")
    ∷ []

abbrev catalog : String → Option (List CapabilityDefinition)
catalog agent = some (flow ∷ look ∷ [])

abbrev candidates : List ArbitrationCandidate
candidates =
    make_candidate (flow ∷ look ∷ []) (context "a" (negsuc 0)) (proposal "1" "flow" "s1") 0
    ∷ make_candidate (flow ∷ look ∷ []) (context "b" (pos 2)) (proposal "1" "flow" "s1") 1
    ∷ make_candidate (flow ∷ look ∷ []) (context "c" (pos 2)) (proposal "1" "flow" "s2") 2
    ∷ make_candidate (flow ∷ look ∷ []) (context "d" (pos 0)) (proposal "1" "look" "s1") 3
    ∷ make_candidate (flow ∷ look ∷ []) (context "e" (pos 0)) (proposal "1" "other" "s3") 4
    ∷ []

arbitrate_decides : arbitrate catalog serialize proposals ≡ some (decide serialize candidates)
unfolding arbitrate
arbitrate_decides = refl

conflict_keys_sorted :
    map (λ c. c.conflict_keys) candidates
    ≡ ("s1:flow" ∷ "s1:route" ∷ [])
      ∷ ("s1:flow" ∷ "s1:route" ∷ [])
      ∷ ("s2:flow" ∷ "s2:route" ∷ [])
      ∷ []
      ∷ ("s3:*" ∷ [])
      ∷ []
unfolding make_candidate sort
conflict_keys_sorted = refl

rejected_for_conflict : (decide reject candidates).rejected_ids ≡ "b:1" ∷ "e:1" ∷ []
unfolding decide reject_loop reject_one conflicts make_candidate sort
rejected_for_conflict = refl

by_priority :
    map (λ c. c.candidate_id) (decide priority_order candidates).ordered
    ≡ "b:1" ∷ "c:1" ∷ "d:1" ∷ "e:1" ∷ "a:1" ∷ []
unfolding decide sort admission_leb make_candidate
by_priority = refl

commit_orders :
    map (λ d. d.commit_order) (decide priority_order candidates).decisions
    ≡ some 4 ∷ some 0 ∷ some 1 ∷ some 2 ∷ some 3 ∷ []
unfolding decide sort admission_leb make_candidate commit_order_from
commit_orders = refl

reject_sound_example :
    Apart (decide reject candidates).ordered
    × Greedy [] candidates (decide reject candidates).decisions (decide reject candidates).ordered
    × Decided (decide reject candidates).ordered candidates (decide reject candidates).decisions
    × ((decide reject candidates).rejected_ids ≡ rejected_of (decide reject candidates).decisions)
reject_sound_example = reject_sound candidates

ordered_by_policy_example :
    ((decide priority_order candidates).rejected_ids ≡ [])
    × ((test : ArbitrationCandidate → Bool)
        → count test (decide priority_order candidates).ordered ≡ count test candidates)
    × AllCommitted
        (decide priority_order candidates).ordered
        candidates
        (decide priority_order candidates).decisions
    × (priority_order ≡ serialize → (decide priority_order candidates).ordered ≡ candidates)
    × (priority_order ≡ priority_order
        → IsSorted comes_before (decide priority_order candidates).ordered)
ordered_by_policy_example = ordered_by_policy priority_order candidates (λ e. cc)
