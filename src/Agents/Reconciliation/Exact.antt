-- ===== src/Agents/Reconciliation/Exact.antt =====
-- agents/reconciliation.py: which states are accepted, and what is made of them.
use mininet_ai.Prelude.{
  ℕ, zero, suc, ◌+◌, ◌<◌, ◌≡◌, ◌≢◌, refl, sym, ◌∙◌, String, Bool, true, false, not, ◌||◌, List, [],
  ◌∷◌, ◌==◌, any, length, ◌⊎◌, inl, inr, arith, eq_iff, Bool-cases, subst, ap,
}
use mininet_ai.Agents.Reconciliation.{
  Reconciliation, range_from, indices_from, same_indices, unknown, reconcile_bundle,
}

-- `k` actions that are present, and then `m` that are missing
abbrev pub repeat : ℕ → String → List String → List String
repeat zero s rest = rest
repeat (suc n) s rest = s ∷ repeat n s rest

abbrev pub prefix : ℕ → ℕ → List String
prefix k m = repeat k "present" (repeat m "missing" [])

-- the decision about such a bundle
abbrev pub decision_on : ℕ → ℕ → Reconciliation
decision_on zero m = record { policy = "verified-primary"; present = []; missing = range_from 0 m }
decision_on (suc k) zero = record {
  policy = "verified-recovery";
  present = range_from 0 (suc k);
  missing = [];
}
decision_on (suc k) (suc m) = record {
  policy = "partial";
  present = range_from 0 (suc k);
  missing = range_from (suc k) (suc m);
}

-- The positions of a state are not below the first.
first_index :
    (i j : ℕ) (wanted : String) (states : List String) (n : ℕ)
    → i < j
    → same_indices (indices_from j wanted states) (range_from i (suc n)) ≡ false
first_index i j wanted [] n h = refl
first_index i j wanted (s ∷ states) n h =
    ground (arith, h, first_index i (suc j) wanted states n (omega arith))

missing_only :
    (i : ℕ) (states : List String)
    → any (λ s. not (s == "present" || s == "missing")) states ≡ false
    → indices_from i "present" states ≡ []
    → states ≡ repeat (length states) "missing" []
missing_only i [] v h = refl
missing_only i (s ∷ states) v h =
    ground (arith, v, h, eq_iff s "missing", missing_only (suc i) states (ground (arith, v)))

-- are the positions of "present", from `i` on, those of a start of the bundle?
abbrev leads : ℕ → List String → Bool
leads i states =
    same_indices (indices_from i "present" states)
      (range_from i (length (indices_from i "present" states)))

missing_first :
    (i : ℕ) (states : List String) (is : List ℕ)
    → indices_from (suc i) "present" states ≡ is
    → any (λ s. not (s == "present" || s == "missing")) states ≡ false
    → same_indices is (range_from i (length is)) ≡ true
    → states ≡ repeat (length states) "missing" []
missing_first i states [] e v h = missing_only (suc i) states v e
missing_first i states (j ∷ is) e v h = absurd (
    ground (
      arith,
      h,
      subst (λ x. same_indices x (range_from i (suc (length is))) ≡ false) e
          (first_index i (suc i) "present" states (length is) (omega arith)),
    ))

split_states :
    (i : ℕ) (states : List String)
    → any (λ s. not (s == "present" || s == "missing")) states ≡ false
    → leads i states ≡ true
    → (k : ℕ) × (m : ℕ) × (states ≡ prefix k m)
split_states i [] v h = (0, 0, refl)
split_states i (s ∷ states) v h = elim (Bool-cases (s == "present")) [
  | inl e ↦
      (let (k, m, p) = split_states (suc i) states (ground (arith, v)) (ground (arith, h, e)) in
        (suc k, m, ground (arith, eq_iff s "present", e, p)))
  | inr e ↦
      (let p =
          missing_first i states (indices_from (suc i) "present" states) refl (ground (arith, v))
            (ground (arith, h, e)) in
        (0, suc (length states), ground (arith, eq_iff s "missing", v, e, p)))
]

valid_of_prefix : (k m : ℕ) → any (λ s. not (s == "present" || s == "missing")) (prefix k m) ≡ false
valid_of_prefix zero zero = refl
valid_of_prefix zero (suc m) = valid_of_prefix zero m
valid_of_prefix (suc k) m = valid_of_prefix k m

present_in_prefix : (i k m : ℕ) → indices_from i "present" (prefix k m) ≡ range_from i k
present_in_prefix i zero zero = refl
present_in_prefix i zero (suc m) = present_in_prefix (suc i) zero m
present_in_prefix i (suc k) m = ap (λ is. i ∷ is) (present_in_prefix (suc i) k m)

missing_in_prefix : (i k m : ℕ) → indices_from i "missing" (prefix k m) ≡ range_from (i + k) m
missing_in_prefix i zero zero = refl
missing_in_prefix i zero (suc m) =
    let e : i ≡ i + 0 = omega arith in
    subst (λ j. i ∷ indices_from (suc i) "missing" (prefix zero m) ≡ range_from j (suc m)) e
      (ap (λ is. i ∷ is)
        (missing_in_prefix (suc i) zero m ∙ ap (λ j. range_from j m) (omega arith)))
missing_in_prefix i (suc k) m =
    missing_in_prefix (suc i) k m ∙ ap (λ j. range_from j m) (omega arith)

same_range :
    (i n : ℕ) → same_indices (range_from i n) (range_from i (length (range_from i n))) ≡ true
same_range i zero = refl
same_range i (suc n) = ground (arith, same_range (suc i) n)

leads-prefix : (k m : ℕ) → leads 0 (prefix k m) ≡ true
leads-prefix k m = rw (present_in_prefix 0 k m) (same_range 0 k)

reconcile_prefix : (k m : ℕ) → reconcile_bundle (prefix k m) ≡ decision_on k m
unfolding reconcile_bundle
reconcile_prefix k m =
    ground
      (arith, valid_of_prefix k m, leads-prefix k m, present_in_prefix 0 k m, missing_from_start)
  where
    missing_from_start : indices_from 0 "missing" (prefix k m) ≡ range_from k m
    missing_from_start = missing_in_prefix 0 k m ∙ ap (λ j. range_from j m) (omega arith)

-- `reconcile_bundle` accepts exactly the states in which some first actions of the bundle are present
-- and all the others are missing: it names the positions of each, with the policy verified-primary if
-- none is present, else verified-recovery if none is missing, else partial. For all other states the
-- policy is unknown, with every position missing.
pub reconcile_exact :
    (states : List String)
    → ((k : ℕ) × (m : ℕ) × (states ≡ prefix k m) × (reconcile_bundle states ≡ decision_on k m))
      ⊎ (((k m : ℕ) → states ≢ prefix k m) × (reconcile_bundle states ≡ unknown states))
unfolding reconcile_bundle
reconcile_exact states =
    elim (Bool-cases (any (λ s. not (s == "present" || s == "missing")) states)) [
      | inl i ↦ inr (
        λ k m e. absurd (
            ground (
              arith,
              i,
              subst (λ x. any (λ s. not (s == "present" || s == "missing")) x ≡ false) (sym e)
                  (valid_of_prefix k m),
            )),
        ground (arith, i),
      )
      | inr v ↦ elim (Bool-cases (leads 0 states)) [
        | inl l ↦
            (let (k, m, e) = split_states 0 states v l in
              inl (k, m, e, ap reconcile_bundle e ∙ reconcile_prefix k m))
        | inr l ↦ inr (
          λ k m e.
              absurd (ground (arith, l, subst (λ x. leads 0 x ≡ true) (sym e) (leads-prefix k m))),
          ground (arith, v, l),
        )
      ]
    ]
