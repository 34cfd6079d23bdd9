-- ===== src/Coordination/Graph/Start.antt =====
-- coordination/graph.py: the state in which the loop of `_validate_hierarchy` starts.
use mininet_ai.Prelude.{
  ℕ, suc, ◌+◌, ◌≤◌, ◌≡◌, refl, String, Bool, true, not, List, [], ◌∷◌, ◌++◌, map, ◌==◌, nat_beq,
  keep, contains, count, Bool-cases, ap, if◌then◌else◌, inl, inr, arith, eq_iff, eq_refl, All,
}
use mininet_ai.Prelude.Dict.{lookup, insert}
use mininet_ai.Prelude.Sorting.{str_leb, sort, count-sort}
use mininet_ai.Coordination.Graph.{CoordinationEdge, no_duplicates, incoming_of, count_incoming}
use mininet_ai.Coordination.Graph.Counts.{is, open_edge, count_once}
use mininet_ai.Coordination.Graph.Runs.{
  incoming_of-insert, open_into, IsTopological, open_into_mono, IsRun,
}

pub contains-count :
    (xs : List String) (a : String) → contains xs a ≡ not (nat_beq (count (is a) xs) 0)
contains-count [] a = refl
contains-count (x ∷ xs) a = ground (arith, contains-count xs a)

pub All-contains {κ} :
    (P : String → Type κ) (xs : List String)
    → ((a : String) → contains xs a ≡ true → P a)
    → All P xs
All-contains P [] h = tt
All-contains P (x ∷ xs) h =
    (h x (ground (arith, eq_refl x)), All-contains P xs (λ a m. h a (ground (arith, m))))

no_duplicates-count :
    (xs : List String) → ((a : String) → count (is a) xs ≤ 1) → no_duplicates xs ≡ true
no_duplicates-count [] h = refl
no_duplicates-count (x ∷ xs) h =
    ground (
      arith,
      h x,
      eq_refl x,
      contains-count xs x,
      no_duplicates-count xs (λ a. ground (arith, h a)),
    )

count-keep :
    (test : String → Bool) (xs : List String) (a : String)
    → count (is a) (keep test xs) ≡ (if test a then count (is a) xs else 0)
count-keep test [] a = ground arith
count-keep test (x ∷ xs) a = elim (Bool-cases (x == a)) [
  | inl e ↦ ground (arith, count-keep test xs a, e, ap test ((eq_iff x a).0 e))
  | inr e ↦ ground (arith, count-keep test xs a, e)
]

incoming_of-count_incoming :
    (edges : List CoordinationEdge) (a : String) (incoming : List (String × ℕ))
    → incoming_of (count_incoming edges incoming) a
      ≡ incoming_of incoming a + count (open_edge [] a) edges
unfolding count_incoming
incoming_of-count_incoming [] a incoming = omega arith
incoming_of-count_incoming (e ∷ es) a incoming = ground (
  arith,
  incoming_of-count_incoming es a (insert e.target (suc (incoming_of incoming e.target)) incoming),
  incoming_of-insert e.target a (suc (incoming_of incoming e.target)) incoming,
  eq_iff e.target a,
)

incoming_of-map : (agents : List String) (a : String) → incoming_of (map (λ b. (b, 0)) agents) a ≡ 0
unfolding lookup
incoming_of-map [] a = refl
incoming_of-map (b ∷ agents) a = ground (arith, incoming_of-map agents a)

module _ (agents : List String) (edges : List CoordinationEdge)
    (distinct : no_duplicates agents ≡ true) where
  abbrev pub first_incoming : List (String × ℕ)
  first_incoming = count_incoming edges (map (λ a. (a, 0)) agents)

  abbrev pub first_ready : List String
  first_ready = sort str_leb (keep (λ a. nat_beq (incoming_of first_incoming a) 0) agents)

  first_incoming_of : (a : String) → incoming_of first_incoming a ≡ open_into agents edges [] a
  first_incoming_of a = ground (
    arith,
    incoming_of-count_incoming edges a (map (λ b. (b, 0)) agents),
    incoming_of-map agents a,
  )

  count-first_ready :
      (a : String)
      → count (is a) first_ready
        ≡ (if nat_beq (open_into agents edges [] a) 0 then count (is a) agents else 0)
  count-first_ready a = ground (
    arith,
    count-sort str_leb (is a) (keep (λ b. nat_beq (incoming_of first_incoming b) 0) agents),
    count-keep (λ b. nat_beq (incoming_of first_incoming b) 0) agents a,
    first_incoming_of a,
  )

  first_ready_known :
      (a : String)
      → contains first_ready a ≡ true
      → (contains agents a ≡ true) × (open_into agents edges [] a ≡ 0)
  first_ready_known a m = (
    ground (arith, m, contains-count first_ready a, contains-count agents a, count-first_ready a),
    ground (arith, m, contains-count first_ready a, count-first_ready a),
  )

  IsTopological-open :
      (earlier xs : List String)
      → All (λ a. open_into agents edges [] a ≡ 0) xs
      → IsTopological agents edges earlier xs
  IsTopological-open earlier [] h = tt
  IsTopological-open earlier (x ∷ xs) h = (
    ground (arith, h.0, open_into_mono agents edges [] earlier x (λ s m. ground (arith, m))),
    IsTopological-open (earlier ++ x ∷ []) xs h.1,
  )

  pub first-IsRun : IsRun agents edges [] first_ready [] first_incoming
  first-IsRun = record {
    left = λ a m. ground (arith, first_incoming_of a);
    queued = λ a m.
        ground
          (arith, contains-count first_ready a, contains-count agents a, count-first_ready a, m);
    once =
        no_duplicates-count first_ready
          (λ a. ground (arith, count-first_ready a, count_once agents a distinct));
    known = All-contains _ first_ready (λ a m. (first_ready_known a m).0);
    ordered =
        IsTopological-open [] first_ready
          (All-contains _ first_ready (λ a m. (first_ready_known a m).1));
    visited_queued = λ a m. ground (arith, m);
  }
