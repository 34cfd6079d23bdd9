-- ===== src/Coordination/Arbitration.antt =====
-- mininet_ai/coordination/arbitration.py: `ConflictArbitrator`, which decides the order and the
-- rejection of prepared actions. Of `AgentContext`, `ActionProposal` and `CapabilityDefinition` the
-- records hold the fields that the arbitrator reads. `resolve` stands for
-- `ExecutionCatalog.resolve(agent_id).capabilities`; `none` is the error that it raises.
pub mod Conflicts
pub mod Rejection
pub mod Order
mod Tests
use Prim.Native.String.{◌++◌ as ◌<>◌}
use mininet_ai.Prelude.{
  ℕ, suc, ◌+◌, String, Bool, true, false, not, ◌&&◌, ◌||◌, Option, none, some, List, [], ◌∷◌, ◌++◌,
  map, ◌==◌, length, find, any, contains, if◌then◌else◌, ltb, nat_beq,
}
use mininet_ai.Prelude.Int.{ℤ, int_ltb}
use mininet_ai.Prelude.Sorting.{sort, str_leb}

pub data ArbitrationPolicy : Type 0 where
  reject serialize priority_order : ArbitrationPolicy

pub record AgentContext : Type 0 where
  pub invocation_id : String
  pub run_id : String
  pub agent_id : String
  pub deployment : String
  pub priority : ℤ

pub record ActionProposal : Type 0 where
  pub id : String
  pub capability : String
  pub target : String

pub record CapabilityDefinition : Type 0 where
  pub name : String
  pub provider : Option String
  pub effects : List String

pub record ArbitrationCandidate : Type 0 where
  pub candidate_id : String
  pub context : AgentContext
  pub proposal : ActionProposal
  pub effects : List String
  pub conflict_keys : List String
  pub admission_sequence : ℕ

pub data Disposition : Type 0 where
  execute rejected : Disposition

pub record ArbitrationDecision : Type 0 where
  pub candidate_id : String
  pub invocation_id : String
  pub agent_id : String
  pub proposal_id : String
  pub target : String
  pub effects : List String
  pub conflict_keys : List String
  pub priority : ℤ
  pub admission_sequence : ℕ
  pub disposition : Disposition
  pub commit_order : Option ℕ
  pub winner_candidate_id : Option String

-- `report.policy` is the policy of the arbitrator, and `decisions` is `report.decisions`.
pub record ArbitrationPlan : Type 0 where
  pub candidates : List ArbitrationCandidate
  pub ordered : List ArbitrationCandidate
  pub rejected_ids : List String
  pub policy : ArbitrationPolicy
  pub decisions : List ArbitrationDecision

abbrev pub is_empty : List String → Bool
is_empty [] = true
is_empty (_ ∷ _) = false

-- `set(left) & set(right)`, as a truth value
abbrev pub overlap : List String → List String → Bool
overlap left right = any (λ k. contains right k) left

unfoldable pub conflicts : ArbitrationCandidate → ArbitrationCandidate → Bool
conflicts left right =
    if is_empty left.effects || is_empty right.effects
    then false
    else if contains left.effects "*" || contains right.effects "*"
    then true
    else overlap left.conflict_keys right.conflict_keys

abbrev pub provider_is : CapabilityDefinition → String → Bool
provider_is c name = elim c.provider [ none ↦ false | some p ↦ p == name ]

-- the effects of a candidate, by the capability that its proposal names
abbrev pub effects_of : Option CapabilityDefinition → List String
effects_of none = "*" ∷ []
effects_of (some c) =
    if provider_is c "substrate.observation"
    then []
    else if (provider_is c "substrate.action" || provider_is c "fake.openflow")
        && not (is_empty c.effects)
    then sort str_leb c.effects
    else "*" ∷ []

-- `_candidate`, for the capabilities of the context's agent
unfoldable pub make_candidate :
    List CapabilityDefinition → AgentContext → ActionProposal → ℕ → ArbitrationCandidate
make_candidate capabilities context proposal sequence =
    let effects = effects_of (find (λ c. c.name == proposal.capability) capabilities) in
    record {
      candidate_id = (context.invocation_id <> ":") <> proposal.id;
      context = context;
      proposal = proposal;
      effects = effects;
      conflict_keys = map (λ e. (proposal.target <> ":") <> e) effects;
      admission_sequence = sequence;
    }

-- the generator at the head of `arbitrate`
unfoldable pub make_candidates :
    (String → Option (List CapabilityDefinition))
    → ℕ
    → List (AgentContext × ActionProposal)
    → Option (List ArbitrationCandidate)
unfolding make_candidate
make_candidates resolve n [] = some []
make_candidates resolve n ((context, proposal) ∷ rest) =
    let later = make_candidates resolve (suc n) rest in
    elim (resolve context.agent_id) [
      | none ↦ none
      | some capabilities ↦ elim later [
        | none ↦ none
        | some cs ↦ some (make_candidate capabilities context proposal n ∷ cs)
      ]
    ]

-- `_decision`
abbrev pub decision :
    ArbitrationCandidate → Disposition → Option ℕ → Option String → ArbitrationDecision
decision c disposition commit_order winner = record {
  candidate_id = c.candidate_id;
  invocation_id = c.context.invocation_id;
  agent_id = c.context.agent_id;
  proposal_id = c.proposal.id;
  target = c.proposal.target;
  effects = c.effects;
  conflict_keys = c.conflict_keys;
  priority = c.context.priority;
  admission_sequence = c.admission_sequence;
  disposition = disposition;
  commit_order = commit_order;
  winner_candidate_id = winner;
}

-- The variables of the loop of `_reject_conflicts`; `rejected_ids` is a set.
pub record Rejecting : Type 0 where
  pub winners : List ArbitrationCandidate
  pub rejected_ids : List String
  pub decisions : List ArbitrationDecision

-- one round of the loop
unfoldable pub reject_one : Rejecting → ArbitrationCandidate → Rejecting
reject_one s c = elim (find (λ accepted. conflicts accepted c) s.winners) [
  | some winner ↦ record s {
    rejected_ids = s.rejected_ids ++ c.candidate_id ∷ [];
    decisions = s.decisions ++ decision c rejected none (some winner.candidate_id) ∷ [];
  }
  | none ↦ record s {
    decisions = s.decisions ++ decision c execute (some (length s.winners)) none ∷ [];
    winners = s.winners ++ c ∷ [];
  }
]

unfoldable pub reject_loop : Rejecting → List ArbitrationCandidate → Rejecting
reject_loop s [] = s
reject_loop s (c ∷ cs) = reject_loop (reject_one s c) cs

unfoldable pub reject_conflicts : List ArbitrationCandidate → ArbitrationPlan
reject_conflicts candidates =
    let s = reject_loop (record { winners = []; rejected_ids = []; decisions = [] }) candidates in
    record {
      candidates = candidates;
      ordered = s.winners;
      rejected_ids = s.rejected_ids;
      policy = reject;
      decisions = s.decisions;
    }

-- The key of `sorted` under the policy `priority`: is the first key at most the second? The
-- priority counts negated, then the sequence, the agent and the proposal.
unfoldable pub admission_leb : ArbitrationCandidate → ArbitrationCandidate → Bool
admission_leb a b =
    if int_ltb b.context.priority a.context.priority
    then true
    else if int_ltb a.context.priority b.context.priority
    then false
    else if ltb a.admission_sequence b.admission_sequence
    then true
    else if ltb b.admission_sequence a.admission_sequence
    then false
    else if a.context.agent_id == b.context.agent_id
    then str_leb a.proposal.id b.proposal.id
    else str_leb a.context.agent_id b.context.agent_id

-- `commit_orders[id]`: a dictionary comprehension keeps the last index of an identifier
unfoldable pub commit_order_from : ℕ → List ArbitrationCandidate → String → Option ℕ
commit_order_from n [] id = none
commit_order_from n (c ∷ cs) id =
    let later = commit_order_from (suc n) cs id in
    elim later [ some k ↦ some k | none ↦ if c.candidate_id == id then some n else none ]

abbrev pub order_of : ArbitrationPolicy → List ArbitrationCandidate → List ArbitrationCandidate
order_of priority_order cs = sort admission_leb cs
order_of _ cs = cs

-- `arbitrate` from the candidates on
unfoldable pub decide : ArbitrationPolicy → List ArbitrationCandidate → ArbitrationPlan
unfolding reject_conflicts
decide reject candidates = reject_conflicts candidates
decide policy candidates =
    let ordered = order_of policy candidates in
    record {
      candidates = candidates;
      ordered = ordered;
      rejected_ids = [];
      policy = policy;
      decisions =
          map (λ c. decision c execute (commit_order_from 0 ordered c.candidate_id) none)
            candidates;
    }

unfoldable pub arbitrate :
    (String → Option (List CapabilityDefinition))
    → ArbitrationPolicy
    → List (AgentContext × ActionProposal)
    → Option ArbitrationPlan
unfolding make_candidates decide
arbitrate resolve policy proposals = elim (make_candidates resolve 0 proposals) [
  | none ↦ none
  | some cs ↦ some (decide policy cs)
]
