-- ===== src/Coordination/Commitment/Plans.antt =====
-- coordination/arbitration.py: the candidates of a plan are ordered or rejected, and have decisions.
use mininet_ai.Prelude.{
  ℕ, suc, String, ◌≡◌, refl, sym, ap, ◌∙◌, subst, Bool, true, false, ◌||◌, Option, none, some, List,
  [], ◌∷◌, map, arith, ◌==◌, length, All, any, any-append, contains-append, find, count, contains,
  leb, Option-cases, inl, inr,
}
use mininet_ai.Prelude.Dict.{lookup, insert, lookup-insert}
use mininet_ai.Prelude.Sorting.{sort, count-sort}
use mininet_ai.Coordination.Arbitration.{
  ArbitrationPolicy, reject, serialize, priority_order, AgentContext, ActionProposal,
  CapabilityDefinition, ArbitrationCandidate, ArbitrationDecision, ArbitrationPlan, Rejecting,
  make_candidate, make_candidates, reject_one, reject_loop, reject_conflicts, decide, arbitrate,
  admission_leb, commit_order_from, conflicts, decision, execute, rejected,
}
use mininet_ai.Coordination.Commitment.{decisions_of, candidate_id}

-- `key in d`
abbrev pub has : {V : Type 0} → String → List (String × V) → Bool
has key d = elim (lookup key d) [ none ↦ false | some _ ↦ true ]

pub has-insert :
    {V : Type 0} (key j : String) (v : V) (d : List (String × V))
    → has j (insert key v d) ≡ (key == j || has j d)
has-insert key j v d = ground (arith, lookup-insert key j v d)

-- a candidate, a decision or a proposal with this identifier
abbrev pub any_candidate : String → List ArbitrationCandidate → Bool
any_candidate j = any (λ c. c.candidate_id == j)

abbrev pub any_decision : String → List ArbitrationDecision → Bool
any_decision j = any (λ d. d.candidate_id == j)

abbrev pub any_proposal : String → List (AgentContext × ActionProposal) → Bool
any_proposal j = any (λ p. candidate_id p.0 p.1 == j)

pub has-decisions_of :
    (j : String) (ds : List ArbitrationDecision) (done : List (String × ArbitrationDecision))
    → has j (decisions_of ds done) ≡ (any_decision j ds || has j done)
unfolding decisions_of
has-decisions_of j [] done = refl
has-decisions_of j (d ∷ ds) done = ground (
  arith,
  has-decisions_of j ds (insert d.candidate_id d done),
  has-insert d.candidate_id j d done,
)

-- Each identifier of a candidate is ordered or rejected, and each that is ordered has a decision.
abbrev pub IsCovered : ArbitrationPlan → Type 0
IsCovered plan =
    (j : String)
    → (any_candidate j plan.candidates ≡ true
        → (any_candidate j plan.ordered || contains plan.rejected_ids j) ≡ true)
      × (any_candidate j plan.ordered ≡ true → any_decision j plan.decisions ≡ true)

any-count : {A : Type 0} (test : A → Bool) (xs : List A) → any test xs ≡ leb 1 (count test xs)
any-count test [] = refl
any-count test (x ∷ xs) = ground (arith, any-count test xs)

any-sort :
    {A : Type 0} (le : A → A → Bool) (test : A → Bool) (xs : List A)
    → any test (sort le xs) ≡ any test xs
any-sort le test xs =
    ground (arith, any-count test (sort le xs), any-count test xs, count-sort le test xs)

reject_one-decides :
    (j : String) (s : Rejecting) (c : ArbitrationCandidate)
    → (any_candidate j s.winners ≡ true → any_decision j s.decisions ≡ true)
    → any_candidate j (reject_one s c).winners ≡ true
    → any_decision j (reject_one s c).decisions ≡ true
unfolding reject_one
reject_one-decides j s c h k =
    elim (Option-cases (find (λ accepted. conflicts accepted c) s.winners)) [
      | inl e ↦ ground (
        arith,
        e,
        h,
        k,
        any-append (λ d. d.candidate_id == j) s.decisions
            (decision c execute (some (length s.winners)) none ∷ []),
        any-append (λ d. d.candidate_id == j) s.winners (c ∷ []),
      )
      | inr (w, e) ↦ ground (
        arith,
        e,
        h,
        k,
        any-append (λ d. d.candidate_id == j) s.decisions
            (decision c rejected none (some w.candidate_id) ∷ []),
      )
    ]

reject_one-covers :
    (j : String) (s : Rejecting) (c : ArbitrationCandidate) (later : Bool)
    → ((c.candidate_id == j || later) || any_candidate j s.winners || contains s.rejected_ids j)
      ≡ true
    → let t = reject_one s c in
      (later || any_candidate j t.winners || contains t.rejected_ids j) ≡ true
unfolding reject_one
reject_one-covers j s c later k =
    elim (Option-cases (find (λ accepted. conflicts accepted c) s.winners)) [
      | inl e ↦ ground (arith, e, k, any-append (λ d. d.candidate_id == j) s.winners (c ∷ []))
      | inr (w, e) ↦ ground (arith, e, k, contains-append s.rejected_ids (c.candidate_id ∷ []) j)
    ]

-- the loop of `_reject_conflicts` leaves every identifier among the winners or the rejected
reject_loop-covers :
    (j : String) (cs : List ArbitrationCandidate) (s : Rejecting)
    → (any_candidate j s.winners ≡ true → any_decision j s.decisions ≡ true)
    → let t = reject_loop s cs in
      ((any_candidate j cs || any_candidate j s.winners || contains s.rejected_ids j) ≡ true
        → (any_candidate j t.winners || contains t.rejected_ids j) ≡ true)
      × (any_candidate j t.winners ≡ true → any_decision j t.decisions ≡ true)
unfolding reject_loop reject_one
reject_loop-covers j [] s h = (λ k. k, h)
reject_loop-covers j (c ∷ cs) s h =
    let (covers, decides) = reject_loop-covers j cs (reject_one s c) (reject_one-decides j s c h) in
    (λ k. covers (reject_one-covers j s c (any_candidate j cs) k), decides)

any_decision-map :
    (order : ArbitrationCandidate → Option ℕ) (j : String) (cs : List ArbitrationCandidate)
    → any_decision j (map (λ c. decision c execute (order c) none) cs) ≡ any_candidate j cs
any_decision-map order j [] = refl
any_decision-map order j (c ∷ cs) = ground (arith, any_decision-map order j cs)

decide-IsCovered :
    (policy : ArbitrationPolicy) (cs : List ArbitrationCandidate)
    → ((decide policy cs).candidates ≡ cs) × IsCovered (decide policy cs)
unfolding decide reject_conflicts
decide-IsCovered reject cs = (
  refl,
  λ j.
      let (covers, decides) =
        reject_loop-covers j cs (record { winners = []; rejected_ids = []; decisions = [] })
          (λ k. k) in
      (λ k. covers (ground (arith, k)), decides),
)
decide-IsCovered serialize cs = (
  refl,
  λ j. (
    λ k. ground (arith, k),
    λ k. any_decision-map (λ c. commit_order_from 0 cs c.candidate_id) j cs ∙ k,
  ),
)
decide-IsCovered priority_order cs =
    let sorted_same = λ (j : String). any-sort admission_leb (λ c. c.candidate_id == j) cs in
    (
      refl,
      λ j. (
        λ k. ground (arith, k, sorted_same j),
        λ k.
            any_decision-map (λ c. commit_order_from 0 (sort admission_leb cs) c.candidate_id) j cs
            ∙ sym (sorted_same j)
            ∙ k,
      ),
    )

any_candidate-make_candidates :
    (resolve : String → Option (List CapabilityDefinition)) (n : ℕ)
    (ps : List (AgentContext × ActionProposal)) (cs : List ArbitrationCandidate) (j : String)
    → make_candidates resolve n ps ≡ some cs
    → any_candidate j cs ≡ any_proposal j ps
unfolding make_candidates make_candidate
any_candidate-make_candidates resolve n [] cs j h = ground arith
any_candidate-make_candidates resolve n (p ∷ ps) cs j h =
    elim (Option-cases (resolve p.0.agent_id)) [
      | inl e ↦ absurd (ground (arith, e, h))
      | inr (capabilities, e) ↦ elim (Option-cases (make_candidates resolve (suc n) ps)) [
        | inl f ↦ absurd (ground (arith, e, f, h))
        | inr (ds, f) ↦
            let later = any_candidate-make_candidates resolve (suc n) ps ds j f in
            let first : make_candidate capabilities p.0 p.1 n ∷ ds ≡ cs = ground (arith, e, f, h) in
            subst (λ l. any_candidate j l ≡ any_proposal j (p ∷ ps)) first
              (ap (λ b. candidate_id p.0 p.1 == j || b) later)
      ]
    ]

-- The plan of an arbitration covers the proposals that it was given.
pub arbitrate-IsCovered :
    (resolve : String → Option (List CapabilityDefinition)) (policy : ArbitrationPolicy)
    (ps : List (AgentContext × ActionProposal)) (plan : ArbitrationPlan)
    → arbitrate resolve policy ps ≡ some plan
    → IsCovered plan × ((j : String) → any_candidate j plan.candidates ≡ any_proposal j ps)
unfolding arbitrate
arbitrate-IsCovered resolve policy ps plan h = elim (Option-cases (make_candidates resolve 0 ps)) [
  | inl e ↦ absurd (ground (arith, e, h))
  | inr (cs, e) ↦
      let decided : decide policy cs ≡ plan = ground (arith, e, h) in
      let (same, covered) = decide-IsCovered policy cs in
      subst (λ q. IsCovered q × ((j : String) → any_candidate j q.candidates ≡ any_proposal j ps))
        decided
        (
          covered,
          λ j. ap (any_candidate j) same ∙ any_candidate-make_candidates resolve 0 ps cs j e,
        )
]

make_candidates-returns :
    (resolve : String → Option (List CapabilityDefinition))
    (capabilities : List CapabilityDefinition) (n : ℕ) (ps : List (AgentContext × ActionProposal))
    → All (λ q. resolve q.0.agent_id ≡ some capabilities) ps
    → (cs : List ArbitrationCandidate) × (make_candidates resolve n ps ≡ some cs)
unfolding make_candidates
make_candidates-returns resolve capabilities n [] h = ([], refl)
make_candidates-returns resolve capabilities n (p ∷ ps) h =
    let (cs, e) = make_candidates-returns resolve capabilities (suc n) ps h.1 in
    (make_candidate capabilities p.0 p.1 n ∷ cs, ground (arith, h.0, e))

-- `arbitrate` returns when the catalog resolves the agents.
pub arbitrate-returns :
    (resolve : String → Option (List CapabilityDefinition)) (policy : ArbitrationPolicy)
    (capabilities : List CapabilityDefinition) (ps : List (AgentContext × ActionProposal))
    → All (λ q. resolve q.0.agent_id ≡ some capabilities) ps
    → (plan : ArbitrationPlan) × (arbitrate resolve policy ps ≡ some plan)
unfolding arbitrate
arbitrate-returns resolve policy capabilities ps h =
    let (cs, e) = make_candidates-returns resolve capabilities 0 ps h in
    (decide policy cs, ground (arith, e))
