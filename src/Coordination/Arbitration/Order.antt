-- ===== src/Coordination/Arbitration/Order.antt =====
-- coordination/arbitration.py: the order of the actions under the policies `serialize` and
-- `priority`.
use mininet_ai.Prelude.{
  ℕ, suc, ◌+◌, ◌<◌, String, ◌≡◌, ◌≢◌, refl, ap, Bool, true, false, none, some, List, [], ◌∷◌, ◌++◌,
  arith, ◌==◌, eq_refl, All, All-map, append_assoc, Option-cases, count-append, count, get_elem?,
  inl, inr, map, ◌||◌, ◌&&◌, leb, not,
}
use mininet_ai.Prelude.Int.{int_ltb}
use mininet_ai.Prelude.Sorting.{IsSorted, sort-IsSorted, count-sort}
use mininet_ai.Coordination.Arbitration.{
  ArbitrationCandidate, ArbitrationDecision, ArbitrationPolicy, execute, decision, admission_leb,
  commit_order_from, order_of, reject, serialize, priority_order, decide,
}

-- `a` may stand before `b`: its priority is greater, or the same and it was admitted no later.
abbrev pub comes_before : ArbitrationCandidate → ArbitrationCandidate → Bool
comes_before a b =
    int_ltb b.context.priority a.context.priority
    || (not (int_ltb a.context.priority b.context.priority)
        && leb a.admission_sequence b.admission_sequence)

by_leb : (a b : ArbitrationCandidate) → admission_leb a b ≡ true → comes_before a b ≡ true
unfolding admission_leb
by_leb a b h = ground arith

by_not_leb : (a b : ArbitrationCandidate) → admission_leb a b ≡ false → comes_before b a ≡ true
unfolding admission_leb
by_not_leb a b h = ground arith

comes_before_trans :
    (a b c : ArbitrationCandidate)
    → comes_before a b ≡ true
    → comes_before b c ≡ true
    → comes_before a c ≡ true
comes_before_trans a b c h k = ground arith

abbrev carries : String → ArbitrationCandidate → Bool
carries id x = x.candidate_id == id

commit_order-none :
    (n : ℕ) (os : List ArbitrationCandidate) (id : String)
    → commit_order_from n os id ≡ none
    → count (carries id) os ≡ 0
unfolding commit_order_from
commit_order-none n [] id h = refl
commit_order-none n (c ∷ os) id h = ground (arith, commit_order-none (suc n) os id)

commit_order-some :
    (n : ℕ) (os : List ArbitrationCandidate) (id : String) (j : ℕ)
    → commit_order_from n os id ≡ some j
    → (k : ℕ) × (x : ArbitrationCandidate) × (j ≡ n + k)
      × (get_elem? os k ≡ some x)
      × (carries id x ≡ true)
unfolding commit_order_from
commit_order-some n [] id j h = cc
commit_order-some n (c ∷ os) id j h = elim (Option-cases (commit_order_from (suc n) os id)) [
  | inl e ↦ (0, c, ground arith, refl, ground arith)
  | inr (i, e) ↦
      let (k, x, p, at, mine) = commit_order-some (suc n) os id i e in
      (suc k, x, ground arith, at, mine)
]

commit_order_found :
    (os : List ArbitrationCandidate) (id : String)
    → 0 < count (carries id) os
    → (k : ℕ) × (x : ArbitrationCandidate) × (commit_order_from 0 os id ≡ some k)
      × (get_elem? os k ≡ some x)
      × (carries id x ≡ true)
commit_order_found os id h = elim (Option-cases (commit_order_from 0 os id)) [
  | inl e ↦ absurd (omega (arith, commit_order-none 0 os id e))
  | inr (j, e) ↦
      let (k, x, p, at, mine) = commit_order-some 0 os id j e in
      (k, x, ground (arith, e, p), at, mine)
]

-- The decision is to execute `c`, at a position of `ordered` where its identifier stands.
abbrev pub Committed :
    List ArbitrationCandidate → ArbitrationCandidate → ArbitrationDecision → Type 0
Committed ordered c d =
    (k : ℕ) × (x : ArbitrationCandidate) × (get_elem? ordered k ≡ some x)
    × (carries c.candidate_id x ≡ true)
    × (d ≡ decision c execute (some k) none)

abbrev pub AllCommitted :
    List ArbitrationCandidate → List ArbitrationCandidate → List ArbitrationDecision → Type 0
AllCommitted ordered [] [] = Unit
AllCommitted ordered [] (d ∷ ds) = ⊥
AllCommitted ordered (c ∷ cs) [] = ⊥
AllCommitted ordered (c ∷ cs) (d ∷ ds) = Committed ordered c d × AllCommitted ordered cs ds

module _ (ordered : List ArbitrationCandidate) where
  abbrev decide_one : ArbitrationCandidate → ArbitrationDecision
  decide_one c = decision c execute (commit_order_from 0 ordered c.candidate_id) none

  map-AllCommitted :
      (cs : List ArbitrationCandidate)
      → All (λ c. 0 < count (carries c.candidate_id) ordered) cs
      → AllCommitted ordered cs (map decide_one cs)
  map-AllCommitted [] h = tt
  map-AllCommitted (c ∷ cs) h =
      let (k, x, found, at, mine) = commit_order_found ordered c.candidate_id h.0 in
      ((k, x, at, mine, ap (λ o. decision c execute o none) found), map-AllCommitted cs h.1)

count-order_of :
    (p : ArbitrationPolicy) (test : ArbitrationCandidate → Bool) (cs : List ArbitrationCandidate)
    → count test (order_of p cs) ≡ count test cs
count-order_of priority_order test cs = count-sort admission_leb test cs
count-order_of serialize test cs = refl
count-order_of reject test cs = refl

-- each candidate occurs in a list that ends with the candidates
counted :
    (pre cs : List ArbitrationCandidate)
    → All (λ c. 0 < count (carries c.candidate_id) (pre ++ cs)) cs
counted pre [] = tt
counted pre (c ∷ cs) = (
  ground (arith, count-append (carries c.candidate_id) pre (c ∷ cs), eq_refl c.candidate_id),
  All-map _ _ cs (λ x h. rw (append_assoc pre (c ∷ []) cs) at h) (counted (pre ++ c ∷ []) cs),
)

order_committed :
    (p : ArbitrationPolicy) (cs : List ArbitrationCandidate)
    → AllCommitted (order_of p cs) cs (map (decide_one (order_of p cs)) cs)
order_committed p cs =
    map-AllCommitted (order_of p cs) cs
      (All-map _ _ cs (λ c h. rw (count-order_of p (carries c.candidate_id) cs) h) (counted [] cs))

commit_by_priority :
    (cs : List ArbitrationCandidate) → IsSorted comes_before (order_of priority_order cs)
commit_by_priority = sort-IsSorted admission_leb comes_before by_leb by_not_leb comes_before_trans

-- Under `serialize` and `priority` nothing is rejected, the actions to be executed are the
-- candidates, each as often as it was given, and each candidate has one decision, in the
-- candidates' order: to execute it, at a position that its identifier has among those actions.
-- `serialize` keeps the order of admission. Under `priority` an action of greater priority comes
-- first, and of two of the same priority the one that was admitted first.
pub ordered_by_policy :
    (p : ArbitrationPolicy) (cs : List ArbitrationCandidate)
    → p ≢ reject
    → ((decide p cs).rejected_ids ≡ [])
      × ((test : ArbitrationCandidate → Bool) → count test (decide p cs).ordered ≡ count test cs)
      × AllCommitted (decide p cs).ordered cs (decide p cs).decisions
      × (p ≡ serialize → (decide p cs).ordered ≡ cs)
      × (p ≡ priority_order → IsSorted comes_before (decide p cs).ordered)
unfolding decide
ordered_by_policy reject cs h = absurd (h refl)
ordered_by_policy serialize cs h =
    (refl, λ test. refl, order_committed serialize cs, λ _. refl, λ e. cc)
ordered_by_policy priority_order cs h = (
  refl,
  λ test. count-sort admission_leb test cs,
  order_committed priority_order cs,
  λ e. cc,
  λ _. commit_by_priority cs,
)
