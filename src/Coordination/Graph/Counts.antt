-- ===== src/Coordination/Graph/Counts.antt =====
-- coordination/graph.py: counts of edges, and lists of agents without duplicates.
use mininet_ai.Prelude.{
  ◌+◌, ◌≡◌, refl, ◌∙◌, String, Bool, true, false, not, ◌&&◌, ◌||◌, List, [], ◌∷◌, ◌++◌, map, ◌==◌,
  keep, contains, length, count, count-le-length, Bool-cases, subst, if◌then◌else◌, inl, inr, arith,
  eq_iff, eq_refl, All,
}
use mininet_ai.Prelude.Sorting.{str_leb, count-sort}
use mininet_ai.Coordination.Graph.{CoordinationEdge, targets_of, no_duplicates}

abbrev pub is : String → String → Bool
is a t = t == a

-- the edges into an agent from agents that are not visited
abbrev pub open_edge : List String → String → CoordinationEdge → Bool
open_edge visited a e = e.target == a && not (contains visited e.source)

-- the edges from one agent into another
abbrev pub between : String → String → CoordinationEdge → Bool
between s a e = e.source == s && e.target == a

pub contains-append :
    (xs ys : List String) (a : String) → contains (xs ++ ys) a ≡ (contains xs a || contains ys a)
contains-append [] ys a = refl
contains-append (x ∷ xs) ys a = ground (arith, contains-append xs ys a)

pub count-targets_of :
    (edges : List CoordinationEdge) (s a : String)
    → count (is a) (targets_of edges s) ≡ count (between s a) edges
unfolding targets_of
count-targets_of edges s a = count-sort str_leb (is a) _ ∙ go edges
  where
    go :
        (es : List CoordinationEdge)
        → count (is a) (map (λ e. e.target) (keep (λ e. e.source == s) es)) ≡ count (between s a) es
    go [] = refl
    go (e ∷ es) = ground (arith, go es)

-- The open edges of an agent lose those from the agent that is visited next.
pub count-open_edge :
    (edges : List CoordinationEdge) (visited : List String) (s a : String)
    → contains visited s ≡ false
    → count (open_edge visited a) edges
      ≡ count (open_edge (visited ++ s ∷ []) a) edges + count (between s a) edges
count-open_edge [] visited s a h = omega arith
count-open_edge (e ∷ es) visited s a h = ground (
  arith,
  h,
  count-open_edge es visited s a h,
  contains-append visited (s ∷ []) e.source,
  eq_iff e.source s,
  eq_iff s e.source,
)

pub no_duplicates-append :
    (xs : List String) (a : String)
    → no_duplicates (xs ++ a ∷ []) ≡ (no_duplicates xs && not (contains xs a))
no_duplicates-append [] a = refl
no_duplicates-append (x ∷ xs) a =
    ground (arith, no_duplicates-append xs a, contains-append xs (a ∷ []) x, eq_iff a x, eq_iff x a)

-- An agent of a list without duplicates occurs once.
pub count_once :
    (agents : List String) (a : String)
    → no_duplicates agents ≡ true
    → count (is a) agents ≡ (if contains agents a then 1 else 0)
count_once [] a h = refl
count_once (x ∷ xs) a h = ground (arith, h, count_once xs a, eq_iff x a)

count-or :
    (agents xs : List String) (x : String)
    → contains xs x ≡ false
    → count (contains (x ∷ xs)) agents ≡ count (is x) agents + count (contains xs) agents
count-or [] xs x h = omega arith
count-or (y ∷ ys) xs x h = ground (arith, h, count-or ys xs x h, eq_iff y x, eq_iff x y)

-- A list of agents without duplicates is as long as the number of agents that are in it.
pub count-contains :
    (agents xs : List String)
    → no_duplicates agents ≡ true
    → no_duplicates xs ≡ true
    → All (λ a. contains agents a ≡ true) xs
    → count (contains xs) agents ≡ length xs
count-contains [] [] d e h = refl
count-contains (y ∷ ys) [] d e h = ground (arith, count-contains ys [] (ground (arith, d)) e tt)
count-contains agents (x ∷ xs) d e h = ground (
  arith,
  count-or agents xs x,
  count_once agents x d,
  count-contains agents xs d (ground (arith, e)) h.1,
  h.0,
  e,
)

pub count-all :
    (test : String → Bool) (xs : List String)
    → count test xs ≡ length xs
    → (a : String) → contains xs a ≡ true
    → test a ≡ true
count-all test [] h a m = ground (arith, m)
count-all test (x ∷ xs) h a m = elim (Bool-cases (test x)) [
  | inl t ↦ elim (Bool-cases (x == a)) [
    | inl e ↦ subst (λ y. test y ≡ true) ((eq_iff x a).0 e) t
    | inr e ↦ count-all test xs (ground (arith, h, t)) a (ground (arith, m, e))
  ]
  | inr t ↦ absurd (ground (arith, h, t, count-le-length test xs))
]

pub count_of_all :
    (test : String → Bool) (xs : List String)
    → ((a : String) → contains xs a ≡ true → test a ≡ true)
    → count test xs ≡ length xs
count_of_all test [] h = refl
count_of_all test (x ∷ xs) h =
    ground (
      arith,
      h x (ground (arith, eq_refl x)),
      count_of_all test xs (λ a m. h a (ground (arith, m))),
    )
