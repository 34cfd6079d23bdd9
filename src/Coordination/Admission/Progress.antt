-- ===== src/Coordination/Admission/Progress.antt =====
-- coordination/admission.py: callers do not wait for one another for ever.
use mininet_ai.Prelude.{
  ℕ, zero, suc, ◌+◌, ◌≡◌, ◌≢◌, refl, ◌∙◌, Bool, true, false, some, List, [], ◌∷◌, arith, nat_beq,
  any, All-map, any-false, All-get_elem?, subst, All-of_any-false, least, get_elem?,
}
use mininet_ai.Prelude.Int.{ℤ}
use mininet_ai.Coordination.Arbitration.{
  ArbitrationCandidate, ArbitrationPolicy, reject, serialize, priority_order,
}
use mininet_ai.Coordination.Admission.{
  CommitReservation, Pending, ActionAdmission, admit_enter, admit_start, admit_leave,
  decision_enter, ready, decision_ready, index, index_of, keeps_back, goes_first, held_from,
  decision_start, decision_leave, new_admission, remove_reservation,
}
use mininet_ai.Coordination.Admission.Steps.{
  Step, enter, start, leave, reserve, commit, release, Reach, started, stepped,
}
use mininet_ai.Coordination.Admission.Safety.{Apart, Apart-append, remove_reservation-Apart}

goes_first_irrefl : (p : ArbitrationPolicy) (q : ℤ) (i : ℕ) → goes_first p q i q i ≡ false
goes_first_irrefl priority_order q i = ground arith
goes_first_irrefl reject q i = ground arith
goes_first_irrefl serialize q i = ground arith

goes_first_trans :
    (p : ArbitrationPolicy) (a b c : ℤ) (i j k : ℕ)
    → goes_first p a i b j ≡ true
    → goes_first p b j c k ≡ true
    → goes_first p a i c k ≡ true
goes_first_trans priority_order a b c i j k h l = ground arith
goes_first_trans reject a b c i j k h l = ground arith
goes_first_trans serialize a b c i j k h l = ground arith

module _ (same : ArbitrationCandidate → ArbitrationCandidate → Bool) where
  abbrev pending_before : ActionAdmission → Pending → Pending → Bool
  pending_before s w v =
      goes_first s.policy w.candidate.context.priority (index same s.pending w.candidate)
        v.candidate.context.priority (index same s.pending v.candidate)

  -- With no action in progress, one of the waiting candidates can start.
  pending_progress :
      (s : ActionAdmission)
      → s.active ≡ []
      → s.pending ≢ []
      → (k : ℕ) × (w : Pending) × (get_elem? s.pending k ≡ some w) × (ready same s w ≡ true)
  pending_progress s idle some_pending =
      let (w, k, found, low) =
        least (pending_before s) (λ x. goes_first_irrefl s.policy _ _)
          (λ x y z. goes_first_trans s.policy _ _ _ _ _ _) s.pending some_pending in
      let clear : any (keeps_back same s w) s.pending ≡ false =
        any-false (keeps_back same s w) s.pending
          (All-map _ _ s.pending (λ v h. ground (arith, h)) low) in
      (k, w, found, unfold ready in ground (arith, idle, clear))

abbrev same_ticket : CommitReservation → CommitReservation → Bool
same_ticket a b = nat_beq a.ticket b.ticket

-- at distinct tickets, `list.index` gives the position
index_of_position :
    (ws : List CommitReservation) (k : ℕ) (r : CommitReservation)
    → Apart same_ticket ws
    → get_elem? ws k ≡ some r
    → index_of ws r ≡ k
index_of_position [] k r d h = cc
index_of_position (x ∷ ws) zero r d h = ground arith
index_of_position (x ∷ ws) (suc k) r d h =
    let other = All-get_elem? (λ y. same_ticket x y ≡ false) ws k r d.0 h in
    ground (arith, other, index_of_position ws k r d.1 h)

held_from-false :
    (p : ArbitrationPolicy) (r : CommitReservation) (j i : ℕ) (others : List CommitReservation)
    → ((k : ℕ) (o : CommitReservation)
        → get_elem? others k ≡ some o
        → goes_first p o.priority (i + k) r.priority j ≡ false)
    → held_from p r j i others ≡ false
held_from-false p r j i [] h = refl
held_from-false p r j i (o ∷ others) h =
    let first : goes_first p o.priority i r.priority j ≡ false =
      subst (λ n. goes_first p o.priority n r.priority j ≡ false) (omega arith) (h 0 o refl) in
    let later = held_from-false p r j (suc i) others (λ k x found.
      subst (λ n. goes_first p x.priority n r.priority j ≡ false) (omega arith)
        (h (suc k) x found)) in
    ground (arith, first, later)

abbrev waiting_before : ActionAdmission → CommitReservation → CommitReservation → Bool
waiting_before s w v =
    goes_first s.policy w.priority (index_of s.waiting w) v.priority (index_of s.waiting v)

-- With no commit in progress, one of the waiting commits can start.
waiting_progress :
    (s : ActionAdmission)
    → Apart same_ticket s.waiting
    → s.committing ≡ []
    → s.waiting ≢ []
    → (k : ℕ) × (r : CommitReservation) × (get_elem? s.waiting k ≡ some r)
      × (decision_ready s r ≡ true)
waiting_progress s distinct idle some_waiting =
    let (r, k, found, low) =
      least (waiting_before s) (λ y. goes_first_irrefl s.policy _ _)
        (λ a b c. goes_first_trans s.policy _ _ _ _ _ _) s.waiting some_waiting in
    let first = λ (m : ℕ) (o : CommitReservation).
      goes_first s.policy o.priority m r.priority (index_of s.waiting r) in
    let clear : held_from s.policy r (index_of s.waiting r) 0 s.waiting ≡ false =
      held_from-false s.policy r (index_of s.waiting r) 0 s.waiting (λ n o there.
        subst (λ m. first m o ≡ false)
          (index_of_position s.waiting n o distinct there ∙ omega arith)
          (All-get_elem? _ s.waiting n o low there)) in
    (k, r, found, unfold decision_ready in ground (arith, idle, clear))

module _ (same : ArbitrationCandidate → ArbitrationCandidate → Bool) where
  Step-distinct :
      {s t : ActionAdmission}
      → Step same s t
      → Apart same_ticket s.waiting
      → Apart same_ticket t.waiting
  Step-distinct {s} (enter ticket c history) d =
      let kept : (admit_enter same ticket c history s).1.waiting ≡ s.waiting =
        (unfold admit_enter in ground arith) in
      rw kept d
  Step-distinct {s} (start k w history history' t found h) d =
      let kept : t.waiting ≡ s.waiting = (unfold admit_start in ground arith) in rw kept d
  Step-distinct (leave c) d = unfold admit_leave in d
  Step-distinct {s} (reserve ticket context response candidates history new) d =
      unfold decision_enter in
      Apart-append same_ticket s.waiting _ d (All-of_any-false _ s.waiting (ground (arith, new)))
  Step-distinct {s} (commit k r t found h) d =
      let kept : t.waiting ≡ remove_reservation r s.waiting =
        (unfold decision_start in ground arith) in
      rw kept (remove_reservation-Apart same_ticket r s.waiting d)
  Step-distinct (release r) d = unfold decision_leave in d

  Reach-distinct :
      {s t : ActionAdmission}
      → Apart same_ticket s.waiting
      → Reach same s t
      → Apart same_ticket t.waiting
  Reach-distinct d started = d
  Reach-distinct d (stepped r st) = Step-distinct st (Reach-distinct d r)

  -- No deadlock. Under each policy, in every state that any interleaving of the callers of `admit`
  -- and `decision` reaches from a new object: with no action in progress, one of the waiting
  -- candidates, if there are any, is ready to start; with no commit in progress, one of the waiting
  -- commits, if there are any, is ready to start.
  pub no_deadlock :
      (policy : ArbitrationPolicy) {t : ActionAdmission}
      → Reach same (new_admission policy) t
      → (t.active ≡ []
          → t.pending ≢ []
          → (k : ℕ) × (w : Pending) × (get_elem? t.pending k ≡ some w) × (ready same t w ≡ true))
        × (t.committing ≡ []
            → t.waiting ≢ []
            → (k : ℕ) × (r : CommitReservation) × (get_elem? t.waiting k ≡ some r)
              × (decision_ready t r ≡ true))
  unfolding new_admission
  no_deadlock policy {t} reached =
      (pending_progress same t, waiting_progress t (Reach-distinct tt reached))
