-- ===== src/Coordination/Admission/Safety.antt =====
-- coordination/admission.py: what is in progress never conflicts.
use mininet_ai.Prelude.{
  ◌≡◌, ◌∙◌, Bool, false, some, List, [], ◌∷◌, ◌++◌, arith, nat_beq, All, All-append,
  All-of_any-false, All-map, Bool-cases, inl, inr,
}
use mininet_ai.Coordination.Arbitration.{ArbitrationCandidate, ArbitrationPolicy, conflicts}
use mininet_ai.Coordination.Admission.{
  CommitReservation, Pending, ActionAdmission, admit_enter, admit_start, admit_leave,
  decision_enter, ready, decision_ready, decision_start, decision_leave, decision_conflicts,
  new_admission, remove_active, remove_reservation,
}
use mininet_ai.Coordination.Admission.Steps.{
  Step, enter, start, leave, reserve, commit, release, Reach, started, stepped,
  decision_conflicts_comm,
}

-- no two of the items are in the relation
abbrev pub Apart : {A : Type 0} → (A → A → Bool) → List A → Type 0
Apart r [] = Unit
Apart r (x ∷ xs) = All (λ y. r x y ≡ false) xs × Apart r xs

pub Apart-append :
    {A : Type 0} (r : A → A → Bool) (xs : List A) (c : A)
    → Apart r xs
    → All (λ x. r x c ≡ false) xs
    → Apart r (xs ++ c ∷ [])
Apart-append r [] c h a = (tt, tt)
Apart-append r (x ∷ xs) c h a =
    (All-append (λ y. r x y ≡ false) xs (c ∷ []) h.0 (a.0, tt), Apart-append r xs c h.1 a.1)

module _ (same : ArbitrationCandidate → ArbitrationCandidate → Bool) where
  All-remove_active :
      (P : ArbitrationCandidate → Type 0) (c : ArbitrationCandidate)
      (xs : List ArbitrationCandidate)
      → All P xs
      → All P (remove_active same c xs)
  unfolding remove_active
  All-remove_active P c [] h = tt
  All-remove_active P c (x ∷ xs) h = elim (Bool-cases (same x c)) [
    | inl e ↦ rw e h.1
    | inr e ↦ rw e (h.0, All-remove_active P c xs h.1)
  ]

  remove_active-Apart :
      (r : ArbitrationCandidate → ArbitrationCandidate → Bool) (c : ArbitrationCandidate)
      → (xs : List ArbitrationCandidate) → Apart r xs
      → Apart r (remove_active same c xs)
  unfolding remove_active
  remove_active-Apart r c [] h = tt
  remove_active-Apart r c (x ∷ xs) h = elim (Bool-cases (same x c)) [
    | inl e ↦ rw e h.1
    | inr e ↦ rw e (All-remove_active _ c xs h.0, remove_active-Apart r c xs h.1)
  ]

All-remove_reservation :
    (P : CommitReservation → Type 0) (c : CommitReservation) (xs : List CommitReservation)
    → All P xs
    → All P (remove_reservation c xs)
unfolding remove_reservation
All-remove_reservation P c [] h = tt
All-remove_reservation P c (x ∷ xs) h = elim (Bool-cases (nat_beq x.ticket c.ticket)) [
  | inl e ↦ rw e h.1
  | inr e ↦ rw e (h.0, All-remove_reservation P c xs h.1)
]

pub remove_reservation-Apart :
    (r : CommitReservation → CommitReservation → Bool) (c : CommitReservation)
    → (xs : List CommitReservation) → Apart r xs
    → Apart r (remove_reservation c xs)
unfolding remove_reservation
remove_reservation-Apart r c [] h = tt
remove_reservation-Apart r c (x ∷ xs) h = elim (Bool-cases (nat_beq x.ticket c.ticket)) [
  | inl e ↦ rw e h.1
  | inr e ↦ rw e (All-remove_reservation _ c xs h.0, remove_reservation-Apart r c xs h.1)
]

-- No two actions in progress conflict, and no two commits in progress do.
pub record IsExclusive (s : ActionAdmission) : Type 0 where
  pub actions : Apart conflicts s.active
  pub commits : Apart (decision_conflicts s.policy) s.committing

module _ (same : ArbitrationCandidate → ArbitrationCandidate → Bool) where
  start-IsExclusive :
      (s t : ActionAdmission) (w : Pending) (history history' : List ArbitrationCandidate)
      → admit_start same w history s ≡ some (history', t)
      → IsExclusive s
      → IsExclusive t
  start-IsExclusive s t w history history' h x =
      let apart : All (λ other. conflicts other w.candidate ≡ false) s.active =
        All-of_any-false _ s.active (unfold admit_start ready in ground arith) in
      let active : t.active ≡ s.active ++ w.candidate ∷ [] = (unfold admit_start in ground arith) in
      let committing : t.committing ≡ s.committing = (unfold admit_start in ground arith) in
      let policy : t.policy ≡ s.policy = (unfold admit_start in ground arith) in
      record {
        actions = rw active (Apart-append conflicts s.active w.candidate x.actions apart);
        commits = rw (committing, policy) x.commits;
      }

  commit-IsExclusive :
      (s t : ActionAdmission) (r : CommitReservation)
      → decision_start r s ≡ some t
      → IsExclusive s
      → IsExclusive t
  commit-IsExclusive s t r h x =
      let apart : All (λ other. decision_conflicts s.policy r other ≡ false) s.committing =
        All-of_any-false _ s.committing (unfold decision_start decision_ready in ground arith) in
      let active : t.active ≡ s.active = (unfold decision_start in ground arith) in
      let committing : t.committing ≡ s.committing ++ r ∷ [] =
        (unfold decision_start in ground arith) in
      let policy : t.policy ≡ s.policy = (unfold decision_start in ground arith) in
      record {
        actions = rw active x.actions;
        commits =
            rw (committing, policy)
              (Apart-append (decision_conflicts s.policy) s.committing r x.commits
                (All-map _ _ s.committing (λ o e. decision_conflicts_comm s.policy o r ∙ e) apart));
      }

  Step-IsExclusive : {s t : ActionAdmission} → Step same s t → IsExclusive s → IsExclusive t
  Step-IsExclusive {s} (enter ticket c history) x =
      let t = (admit_enter same ticket c history s).1 in
      let active : t.active ≡ s.active = (unfold admit_enter in ground arith) in
      let committing : t.committing ≡ s.committing = (unfold admit_enter in ground arith) in
      let policy : t.policy ≡ s.policy = (unfold admit_enter in ground arith) in
      record { actions = rw active x.actions; commits = rw (committing, policy) x.commits }
  Step-IsExclusive {s} (start k w history history' t at h) x =
      start-IsExclusive s t w history history' h x
  Step-IsExclusive {s} (leave c) x =
      unfold admit_leave in
      record {
        actions = remove_active-Apart same conflicts c s.active x.actions;
        commits = x.commits;
      }
  Step-IsExclusive {s} (reserve ticket context response candidates history new) x =
      unfold decision_enter in record { actions = x.actions; commits = x.commits }
  Step-IsExclusive {s} (commit k r t at h) x = commit-IsExclusive s t r h x
  Step-IsExclusive {s} (release r) x =
      unfold decision_leave in
      record {
        actions = x.actions;
        commits = remove_reservation-Apart (decision_conflicts s.policy) r s.committing x.commits;
      }

  Reach-IsExclusive : {s t : ActionAdmission} → IsExclusive s → Reach same s t → IsExclusive t
  Reach-IsExclusive x started = x
  Reach-IsExclusive x (stepped r st) = Step-IsExclusive st (Reach-IsExclusive x r)

  -- Mutual exclusion. Under each policy, in every state that any interleaving of the callers of
  -- `admit` and `decision` reaches from a new object, no two actions in progress conflict, and no
  -- two commits in progress conflict.
  pub mutual_exclusion :
      (policy : ArbitrationPolicy) {t : ActionAdmission}
      → Reach same (new_admission policy) t
      → IsExclusive t
  unfolding new_admission
  mutual_exclusion policy r = Reach-IsExclusive (record { actions = tt; commits = tt }) r
