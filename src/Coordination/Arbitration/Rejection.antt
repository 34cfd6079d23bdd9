-- ===== src/Coordination/Arbitration/Rejection.antt =====
-- coordination/arbitration.py: the policy `reject`.
use mininet_ai.Prelude.{
  ℕ, String, ◌≡◌, refl, ◌∙◌, sym, ap, true, false, none, some, List, [], ◌∷◌, ◌++◌, append-nil,
  append_assoc, arith, find, All, All-append, get_elem?, get_elem?-append, get_elem?-append_length,
  find-none, find-some, length, Option-cases, Bool-cases, subst, inl, inr, ◌⊎◌,
}
use mininet_ai.Coordination.Arbitration.{
  ArbitrationCandidate, ArbitrationDecision, execute, rejected, decision, conflicts, Rejecting,
  reject_one, reject_loop, reject_conflicts, reject, decide,
}

-- no two of the candidates conflict
abbrev pub Apart : List ArbitrationCandidate → Type 0
Apart [] = Unit
Apart (x ∷ xs) = All (λ y. conflicts x y ≡ false) xs × Apart xs

-- What the decision `d` on `c` may be: to execute `c` at its place among the winners, or to reject
-- it for a winner that conflicts with it.
abbrev pub Verdict : List ArbitrationCandidate → ArbitrationCandidate → ArbitrationDecision → Type 0
Verdict winners c d =
    ((k : ℕ) × (get_elem? winners k ≡ some c) × (d ≡ decision c execute (some k) none))
    ⊎ ((k : ℕ) × (w : ArbitrationCandidate) × (get_elem? winners k ≡ some w)
        × (conflicts w c ≡ true)
        × (d ≡ decision c rejected none (some w.candidate_id)))

-- one decision for each candidate, in their order
abbrev pub Decided :
    List ArbitrationCandidate → List ArbitrationCandidate → List ArbitrationDecision → Type 0
Decided winners [] [] = Unit
Decided winners [] (d ∷ ds) = ⊥
Decided winners (c ∷ cs) [] = ⊥
Decided winners (c ∷ cs) (d ∷ ds) = Verdict winners c d × Decided winners cs ds

-- the identifiers of the decisions that reject
abbrev pub rejected_of : List ArbitrationDecision → List String
rejected_of [] = []
rejected_of (d ∷ ds) =
    let rest = rejected_of ds in
    elim d.disposition [ execute ↦ rest | rejected ↦ d.candidate_id ∷ rest ]

rejected_of-append :
    (ds es : List ArbitrationDecision) → rejected_of (ds ++ es) ≡ rejected_of ds ++ rejected_of es
rejected_of-append [] es = refl
rejected_of-append (d ∷ ds) es = ground (arith, rejected_of-append ds es)

Apart-append :
    (w : List ArbitrationCandidate) (c : ArbitrationCandidate)
    → Apart w
    → All (λ x. conflicts x c ≡ false) w
    → Apart (w ++ c ∷ [])
Apart-append [] c h a = (tt, tt)
Apart-append (x ∷ w) c h a =
    (All-append (λ y. conflicts x y ≡ false) w (c ∷ []) h.0 (a.0, tt), Apart-append w c h.1 a.1)

Verdict-append :
    (w : List ArbitrationCandidate) (c x : ArbitrationCandidate) (d : ArbitrationDecision)
    → Verdict w x d
    → Verdict (w ++ c ∷ []) x d
Verdict-append w c x d (inl (k, at, e)) = inl (k, get_elem?-append w (c ∷ []) k x at, e)
Verdict-append w c x d (inr (k, v, at, clash, e)) =
    inr (k, v, get_elem?-append w (c ∷ []) k v at, clash, e)

Decided-append :
    (w : List ArbitrationCandidate) (c : ArbitrationCandidate) (cs : List ArbitrationCandidate)
    → (ds : List ArbitrationDecision) → Decided w cs ds
    → Decided (w ++ c ∷ []) cs ds
Decided-append w c [] [] h = tt
Decided-append w c [] (d ∷ ds) h = absurd h
Decided-append w c (x ∷ cs) [] h = absurd h
Decided-append w c (x ∷ cs) (d ∷ ds) h = (Verdict-append w c x d h.0, Decided-append w c cs ds h.1)

Decided-snoc :
    (w : List ArbitrationCandidate) (c : ArbitrationCandidate) (d : ArbitrationDecision)
    → (cs : List ArbitrationCandidate) (ds : List ArbitrationDecision) → Decided w cs ds
    → Verdict w c d
    → Decided w (cs ++ c ∷ []) (ds ++ d ∷ [])
Decided-snoc w c d [] [] h v = (v, tt)
Decided-snoc w c d [] (e ∷ ds) h v = absurd h
Decided-snoc w c d (x ∷ cs) [] h v = absurd h
Decided-snoc w c d (x ∷ cs) (e ∷ ds) h v = (h.0, Decided-snoc w c d cs ds h.1 v)

-- What holds after the rounds for the candidates `cs`.
record IsConsistent (cs : List ArbitrationCandidate) (s : Rejecting) : Type 0 where
  apart : Apart s.winners
  decided : Decided s.winners cs s.decisions
  named : s.rejected_ids ≡ rejected_of s.decisions

reject_one-IsConsistent :
    (cs : List ArbitrationCandidate) (s : Rejecting) (c : ArbitrationCandidate)
    → IsConsistent cs s
    → IsConsistent (cs ++ c ∷ []) (reject_one s c)
unfolding reject_one
reject_one-IsConsistent cs s c h =
    elim (Option-cases (find (λ accepted. conflicts accepted c) s.winners)) [
      | inl e ↦
          rw (e, reject_one)
            (record {
              apart = Apart-append s.winners c h.apart (find-none _ s.winners e);
              decided =
                  Decided-snoc (s.winners ++ c ∷ []) c
                    (decision c execute (some (length s.winners)) none) cs s.decisions
                    (Decided-append s.winners c cs s.decisions h.decided)
                    (inl (length s.winners, get_elem?-append_length s.winners c, refl));
              named =
                  h.named
                  ∙ sym (append-nil (rejected_of s.decisions))
                  ∙ sym (
                      rejected_of-append s.decisions
                        (decision c execute (some (length s.winners)) none ∷ []));
            })
      | inr (w, e) ↦
          let (clash, (k, at)) = find-some _ w s.winners e in
          rw (e, reject_one)
            (record {
              apart = h.apart;
              decided =
                  Decided-snoc s.winners c (decision c rejected none (some w.candidate_id)) cs
                    s.decisions h.decided (inr (k, w, at, clash, refl));
              named =
                  ap (λ ids. ids ++ c.candidate_id ∷ []) h.named
                  ∙ sym (
                      rejected_of-append s.decisions
                        (decision c rejected none (some w.candidate_id) ∷ []));
            })
    ]

reject_loop-IsConsistent :
    (cs rest : List ArbitrationCandidate) (s : Rejecting)
    → IsConsistent cs s
    → IsConsistent (cs ++ rest) (reject_loop s rest)
unfolding reject_loop
reject_loop-IsConsistent cs [] s h = rw (append-nil cs) h
reject_loop-IsConsistent cs (c ∷ rest) s h = rw (← append_assoc cs (c ∷ []) rest) (
    reject_loop-IsConsistent (cs ++ c ∷ []) rest (reject_one s c)
      (reject_one-IsConsistent cs s c h))

-- `w` is the first of the winners that conflicts with `c`.
abbrev pub IsFirst :
    List ArbitrationCandidate → ArbitrationCandidate → ArbitrationCandidate → Type 0
IsFirst winners w c =
    (front : List ArbitrationCandidate) × (back : List ArbitrationCandidate) × (winners
      ≡ front ++ w ∷ back)
    × All (λ v. conflicts v c ≡ false) front
    × (conflicts w c ≡ true)

-- The decisions `ds` on the candidates `cs`, taken greedily in their order, where `won` are the winners
-- so far and `winners` those at the end: a candidate that conflicts with none so far wins, any other
-- is rejected for the first of them that conflicts.
abbrev pub Greedy :
    List ArbitrationCandidate
    → List ArbitrationCandidate
    → List ArbitrationDecision
    → List ArbitrationCandidate
    → Type 0
Greedy won [] [] winners = won ≡ winners
Greedy won [] (d ∷ ds) winners = ⊥
Greedy won (c ∷ cs) [] winners = ⊥
Greedy won (c ∷ cs) (d ∷ ds) winners =
    (All (λ w. conflicts w c ≡ false) won
      × (d ≡ decision c execute (some (length won)) none)
      × Greedy (won ++ c ∷ []) cs ds winners)
    ⊎ ((w : ArbitrationCandidate) × IsFirst won w c
        × (d ≡ decision c rejected none (some w.candidate_id))
        × Greedy won cs ds winners)

find-IsFirst :
    (c w : ArbitrationCandidate) (xs : List ArbitrationCandidate)
    → find (λ x. conflicts x c) xs ≡ some w
    → IsFirst xs w c
find-IsFirst c w [] h = cc
find-IsFirst c w (x ∷ xs) h = elim (Bool-cases (conflicts x c)) [
  | inl e ↦
      let same : x ≡ w = ground (arith, e, h) in
      ([], xs, ap (λ y. y ∷ xs) same, tt, subst (λ y. conflicts y c ≡ true) same e)
  | inr e ↦
      let (front, back, split, apart, clash) = find-IsFirst c w xs (ground (arith, e, h)) in
      (x ∷ front, back, ap (λ ys. x ∷ ys) split, (e, apart), clash)
]

-- One round, by whether a winner conflicts.
won-reject_one :
    (s : Rejecting) (c : ArbitrationCandidate)
    → find (λ accepted. conflicts accepted c) s.winners ≡ none
    → ((reject_one s c).winners ≡ s.winners ++ c ∷ [])
      × ((reject_one s c).decisions
          ≡ s.decisions ++ decision c execute (some (length s.winners)) none ∷ [])
unfolding reject_one
won-reject_one s c f = rw (reject_one, f) (refl, refl)

lost-reject_one :
    (s : Rejecting) (c w : ArbitrationCandidate)
    → find (λ accepted. conflicts accepted c) s.winners ≡ some w
    → ((reject_one s c).winners ≡ s.winners)
      × ((reject_one s c).decisions
          ≡ s.decisions ++ decision c rejected none (some w.candidate_id) ∷ [])
unfolding reject_one
lost-reject_one s c w f = rw (reject_one, f) (refl, refl)

-- The decisions that the loop adds are greedy.
reject_loop-Greedy :
    (cs : List ArbitrationCandidate) (s : Rejecting)
    → (ds : List ArbitrationDecision) × ((reject_loop s cs).decisions ≡ s.decisions ++ ds)
      × Greedy s.winners cs ds (reject_loop s cs).winners
unfolding reject_loop
reject_loop-Greedy [] s = ([], sym (append-nil s.decisions), refl)
reject_loop-Greedy (c ∷ cs) s =
    let (ds, e, g) = reject_loop-Greedy cs (reject_one s c) in
    let end = (reject_loop (reject_one s c) cs).winners in
    let added : (d : ArbitrationDecision)
        → (reject_one s c).decisions ≡ s.decisions ++ d ∷ []
        → (reject_loop (reject_one s c) cs).decisions ≡ s.decisions ++ d ∷ ds =
      λ d h. e ∙ ap (λ x. x ++ ds) h ∙ append_assoc s.decisions (d ∷ []) ds in
    elim (Option-cases (find (λ accepted. conflicts accepted c) s.winners)) [
      | inl f ↦
          let (winners, decisions) = won-reject_one s c f in
          (
            decision c execute (some (length s.winners)) none ∷ ds,
            added _ decisions,
            inl (find-none _ s.winners f, refl, subst (λ won. Greedy won cs ds end) winners g),
          )
      | inr (w, f) ↦
          let (winners, decisions) = lost-reject_one s c w f in
          (
            decision c rejected none (some w.candidate_id) ∷ ds,
            added _ decisions,
            inr (
              w,
              find-IsFirst c w s.winners f,
              refl,
              subst (λ won. Greedy won cs ds end) winners g,
            ),
          )
    ]

-- Under the policy `reject`, no two of the actions that are to be executed conflict, and the decisions
-- are the greedy ones: in the candidates' order each is executed, at its position among the actions
-- to be executed, unless it conflicts with an earlier one of those, and then it is rejected for the
-- first of them that conflicts. The identifiers given as rejected are those of the decisions that
-- reject.
pub reject_sound :
    (cs : List ArbitrationCandidate)
    → Apart (decide reject cs).ordered
      × Greedy [] cs (decide reject cs).decisions (decide reject cs).ordered
      × Decided (decide reject cs).ordered cs (decide reject cs).decisions
      × ((decide reject cs).rejected_ids ≡ rejected_of (decide reject cs).decisions)
unfolding decide reject_conflicts
reject_sound cs =
    let start : Rejecting = record { winners = []; rejected_ids = []; decisions = [] } in
    let h =
      reject_loop-IsConsistent [] cs start (record { apart = tt; decided = tt; named = refl }) in
    let (ds, e, g) = reject_loop-Greedy cs start in
    let end = (reject_loop start cs).winners in
    (h.apart, subst (λ made. Greedy [] cs made end) (sym e) g, h.decided, h.named)
