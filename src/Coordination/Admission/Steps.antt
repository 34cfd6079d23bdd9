-- ===== src/Coordination/Admission/Steps.antt =====
-- coordination/admission.py: the interleavings of the threads that call `admit` and `decision`, as
-- a step relation, and the symmetry of the conflicts between commits.
use mininet_ai.Prelude.{
  ℕ, String, ◌≡◌, refl, ◌∙◌, Bool, false, Option, none, some, List, arith, ◌||◌, nat_beq, any,
  any_ext, any_swap, str_beq_comm, get_elem?,
}
use mininet_ai.Coordination.Arbitration.{
  ArbitrationCandidate, ArbitrationPolicy, AgentContext, conflicts,
}
use mininet_ai.Coordination.Arbitration.Conflicts.{conflicts_comm}
use mininet_ai.Coordination.Admission.{
  StateKey, same_text?, same_key, meet, any_conflict, CommitReservation, Pending, ActionAdmission,
  AgentResponse, admit_enter, admit_start, admit_leave, decision_enter, decision_start,
  decision_leave, decision_conflicts,
}

-- Does a commit that waits or is in progress have the ticket? A new object has a new one.
abbrev pub has_ticket : ℕ → ActionAdmission → Bool
has_ticket t s =
    any (λ r. nat_beq r.ticket t) s.waiting || any (λ r. nat_beq r.ticket t) s.committing

module _ (same : ArbitrationCandidate → ArbitrationCandidate → Bool) where
  pub data Step (s : ActionAdmission) : ActionAdmission → Type 0 where
    enter :
        (ticket : ℕ) (c : ArbitrationCandidate) (history : List ArbitrationCandidate)
        → Step s (admit_enter same ticket c history s).1
    start :
        (k : ℕ) (w : Pending) (history history' : List ArbitrationCandidate) (t : ActionAdmission)
        → get_elem? s.pending k ≡ some w
        → admit_start same w history s ≡ some (history', t)
        → Step s t
    leave : (c : ArbitrationCandidate) → Step s (admit_leave same c s)
    reserve :
        (ticket : ℕ) (context : AgentContext) (response : AgentResponse)
        → (candidates history : List ArbitrationCandidate) → has_ticket ticket s ≡ false
        → Step s (decision_enter ticket context response candidates history s).1
    commit :
        (k : ℕ) (r : CommitReservation) (t : ActionAdmission)
        → get_elem? s.waiting k ≡ some r
        → decision_start r s ≡ some t
        → Step s t
    release : (r : CommitReservation) → Step s (decision_leave r s)

  pub data Reach (s : ActionAdmission) : ActionAdmission → Type 0 where
    started : Reach s s
    stepped : {before after : ActionAdmission} → Reach s before → Step before after → Reach s after

same_text?_comm : (a b : Option String) → same_text? a b ≡ same_text? b a
same_text?_comm none none = refl
same_text?_comm none (some b) = refl
same_text?_comm (some a) none = refl
same_text?_comm (some a) (some b) = str_beq_comm a b

same_key_comm : (a b : StateKey) → same_key a b ≡ same_key b a
same_key_comm a b = ground (
  arith,
  str_beq_comm a.scope b.scope,
  str_beq_comm a.run_id b.run_id,
  same_text?_comm a.deployment b.deployment,
  str_beq_comm a.name b.name,
)

meet_comm : (xs ys : List StateKey) → meet xs ys ≡ meet ys xs
meet_comm xs ys =
    any_swap same_key xs ys ∙ any_ext _ _ ys (λ y. any_ext _ _ xs (λ x. same_key_comm x y))

any_conflict_comm : (xs ys : List ArbitrationCandidate) → any_conflict xs ys ≡ any_conflict ys xs
any_conflict_comm xs ys =
    any_swap conflicts xs ys ∙ any_ext _ _ ys (λ y. any_ext _ _ xs (λ x. conflicts_comm x y))

pub decision_conflicts_comm :
    (p : ArbitrationPolicy) (l r : CommitReservation)
    → decision_conflicts p l r ≡ decision_conflicts p r l
unfolding decision_conflicts
decision_conflicts_comm p l r =
    ground (arith, meet_comm l.writes r.writes, any_conflict_comm l.candidates r.candidates)
