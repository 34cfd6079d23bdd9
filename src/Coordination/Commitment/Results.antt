-- ===== src/Coordination/Commitment/Results.antt =====
-- coordination/routing.py: the loops of `_finish_prepared` leave a result for each candidate.
use mininet_ai.Prelude.{
  String, ◌≡◌, refl, ◌∙◌, Bool, true, false, ◌&&◌, ◌||◌, Option, none, some, List, [], ◌∷◌, arith,
  ◌==◌, eq_iff, eq_refl, contains, if◌then◌else◌, Bool-cases, Option-cases, inl, inr,
}
use mininet_ai.Prelude.Dict.{lookup, insert}
use mininet_ai.Coordination.Arbitration.{ArbitrationCandidate, ArbitrationDecision}
use mininet_ai.Coordination.Commitment.{
  Executor, Gate, Finishing, amend, put, halt_if, refuse_candidate, after_admit, after_validate,
  after_rejections, finish_one, finish_loop, reject_rest, lost_to, rejected_decision,
  conflict_rejected, bundle_stopped,
}
use mininet_ai.Coordination.Commitment.Plans.{has, has-insert, any_candidate}

module _ {W R : Type 0} where
  -- A round gave a result for an identifier, and lost no result and no decision.
  abbrev Extends : String → Finishing W R → Option (Finishing W R) → Type 0
  Extends id s none = ⊥
  Extends id s (some t) =
      (j : String)
      → ((id == j || has j s.action_results) ≡ true → has j t.action_results ≡ true)
        × (has j s.decisions ≡ true → has j t.decisions ≡ true)

  put-Extends :
      (id : String) (r : R) (change : ArbitrationDecision → ArbitrationDecision) (w : W)
      (s : Finishing W R)
      → has id s.decisions ≡ true
      → Extends id s (put id r change w s)
  unfolding amend
  put-Extends id r change w s h = elim (Option-cases (lookup id s.decisions)) [
    | inl e ↦ absurd (ground (arith, e, h))
    | inr (d, e) ↦
        rw (e, Extends)
          λ j. (
            λ k. has-insert id j r s.action_results ∙ k,
            λ k. has-insert id j (change d) s.decisions ∙ ground (arith, k),
          )
  ]

  halt_if-Extends :
      (id : String) (stop : Bool) (s : Finishing W R) (o : Option (Finishing W R))
      → Extends id s o
      → Extends id s (halt_if stop o)
  halt_if-Extends id stop s none h = h
  halt_if-Extends id stop s (some t) h = h

  if-Extends :
      (id : String) (b : Bool) (s : Finishing W R) (o p : Option (Finishing W R))
      → Extends id s o
      → Extends id s p
      → Extends id s (if b then o else p)
  if-Extends id true s o p h k = h
  if-Extends id false s o p h k = k

module _ {W R I : Type 0} (x : Executor W R I) (gate : Gate W) where
  refuse_candidate-Extends :
      (c : ArbitrationCandidate) (code : String)
      (change : ArbitrationDecision → ArbitrationDecision) (s : Finishing W R)
      → has c.candidate_id s.decisions ≡ true
      → Extends c.candidate_id s (refuse_candidate x gate c code change s)
  refuse_candidate-Extends c code change s h =
      let answer = x.reject c.proposal code s.world in
      put-Extends c.candidate_id answer.0 change answer.1 s h

  after_admit-Extends :
      (bundle : Bool) (c : ArbitrationCandidate) (s : Finishing W R)
      (admitted : Option ArbitrationCandidate × W)
      → has c.candidate_id s.decisions ≡ true
      → Extends c.candidate_id s (after_admit x gate bundle c s admitted)
  after_admit-Extends bundle c s (none, w) h = λ j.
      (λ k. has-insert c.candidate_id j (x.execute c.proposal w).0 s.action_results ∙ k, λ k. k)
  after_admit-Extends bundle c s (some winner, w) h =
      halt_if-Extends c.candidate_id bundle s
        (refuse_candidate x gate c conflict_rejected (lost_to winner) (record s { world = w }))
        (refuse_candidate-Extends c conflict_rejected (lost_to winner) (record s { world = w }) h)

  after_validate-Extends :
      (bundle : Bool) (c : ArbitrationCandidate) (s : Finishing W R) (answer : Option R × W)
      → has c.candidate_id s.decisions ≡ true
      → Extends c.candidate_id s (after_validate x gate bundle c s answer)
  after_validate-Extends bundle c s (some r, w) h =
      halt_if-Extends c.candidate_id bundle s (put c.candidate_id r rejected_decision w s)
        (put-Extends c.candidate_id r rejected_decision w s h)
  after_validate-Extends bundle c s (none, w) h = after_admit-Extends bundle c s (gate.admit c w) h

  after_rejections-Extends :
      (bundle : Bool) (c : ArbitrationCandidate) (s : Finishing W R)
      (winner : Option ArbitrationCandidate)
      → has c.candidate_id s.decisions ≡ true
      → Extends c.candidate_id s (after_rejections x gate bundle c s winner)
  after_rejections-Extends bundle c s (some winner) h =
      halt_if-Extends c.candidate_id bundle s
        (refuse_candidate x gate c conflict_rejected (lost_to winner) s)
        (refuse_candidate-Extends c conflict_rejected (lost_to winner) s h)
  after_rejections-Extends bundle c s none h =
      after_validate-Extends bundle c s (x.validate c.proposal s.world) h

  finish_one-Extends :
      (bundle : Bool) (rejections : List (String × ArbitrationCandidate)) (c : ArbitrationCandidate)
      (s : Finishing W R)
      → has c.candidate_id s.decisions ≡ true
      → Extends c.candidate_id s (finish_one x gate bundle rejections c s)
  unfolding finish_one
  finish_one-Extends bundle rejections c s h =
      if-Extends c.candidate_id s.halted s _ _
        (refuse_candidate-Extends c bundle_stopped rejected_decision s h)
        (after_rejections-Extends bundle c s (lookup c.candidate_id rejections) h)

  -- what the loop over the candidates leaves: a result for each of them, and for what had one
  abbrev pub Covers : List ArbitrationCandidate → Finishing W R → Option (Finishing W R) → Type 0
  Covers cs s o =
      (t : Finishing W R) × (o ≡ some t)
      × ((j : String)
          → (any_candidate j cs || has j s.action_results) ≡ true
          → has j t.action_results ≡ true)

  abbrev pub AllDecided : List ArbitrationCandidate → Finishing W R → Type 0
  AllDecided cs s = (j : String) → any_candidate j cs ≡ true → has j s.decisions ≡ true

  next-Covers :
      (c : ArbitrationCandidate) (cs : List ArbitrationCandidate) (s : Finishing W R)
      (loop : Finishing W R → Option (Finishing W R)) (o : Option (Finishing W R))
      → ((t : Finishing W R) → AllDecided cs t → Covers cs t (loop t))
      → AllDecided (c ∷ cs) s
      → Extends c.candidate_id s o
      → Covers (c ∷ cs) s (elim o [ none ↦ none | some t ↦ loop t ])
  next-Covers c cs s loop none covers h e = absurd e
  next-Covers c cs s loop (some s') covers h e =
      let (t, returns, rest) = covers s' (λ j k. (e j).1 (h j (ground (arith, k)))) in
      (
        t,
        returns,
        λ j k. rest j (elim (Bool-cases (any_candidate j cs)) [
          | inl b ↦ ground (arith, b)
          | inr b ↦ ground (arith, b, (e j).0 (ground (arith, b, k)))
        ]),
      )

  pub finish_loop-Covers :
      (bundle : Bool) (rejections : List (String × ArbitrationCandidate))
      (cs : List ArbitrationCandidate) (s : Finishing W R)
      → AllDecided cs s
      → Covers cs s (finish_loop x gate bundle rejections cs s)
  unfolding finish_loop
  finish_loop-Covers bundle rejections [] s h = (s, refl, λ j k. k)
  finish_loop-Covers bundle rejections (c ∷ cs) s h =
      next-Covers c cs s (finish_loop x gate bundle rejections cs)
        (finish_one x gate bundle rejections c s) (finish_loop-Covers bundle rejections cs) h
        (finish_one-Extends bundle rejections c s
          (h c.candidate_id (ground (arith, eq_refl c.candidate_id))))

  has-if :
      (b : Bool) (key j : String) (r : R) (w : W) (s : Finishing W R)
      → has j
          (if b
            then record s { action_results = insert key r s.action_results; world = w }
            else s).action_results
        ≡ ((b && key == j) || has j s.action_results)
  has-if true key j r w s = has-insert key j r s.action_results
  has-if false key j r w s = refl

  pub reject_rest-covers :
      (rejected_ids : List String) (cs : List ArbitrationCandidate) (s : Finishing W R) (j : String)
      → ((any_candidate j cs && contains rejected_ids j) || has j s.action_results) ≡ true
      → has j (reject_rest x gate rejected_ids cs s).action_results ≡ true
  unfolding reject_rest
  reject_rest-covers rejected_ids [] s j h = ground (arith, h)
  reject_rest-covers rejected_ids (c ∷ cs) s j h =
      let (r, w) = x.reject c.proposal conflict_rejected s.world in
      reject_rest-covers rejected_ids cs _ j (
        ground (
          arith,
          h,
          eq_iff c.candidate_id j,
          has-if (contains rejected_ids c.candidate_id) c.candidate_id j r w s,
        ))
