-- ===== src/Coordination/Graph/Runs.antt =====
-- coordination/graph.py: the loop of `_validate_hierarchy`.
use mininet_ai.Prelude.{
  ℕ, zero, suc, ◌+◌, ◌-◌, ◌≤◌, ◌≡◌, refl, sym, ◌∙◌, String, true, false, some, List, [], ◌∷◌, ◌++◌,
  ◌==◌, nat_beq, append-nil, append_assoc, contains, length, length-append, count, count-le-length,
  Bool-cases, subst, ap, if◌then◌else◌, inl, inr, arith, eq_iff, eq_refl, All, All-append,
}
use mininet_ai.Prelude.Dict.{insert, lookup-insert}
use mininet_ai.Coordination.Graph.{
  CoordinationEdge, targets_of, no_duplicates, incoming_of, release, visit, before,
}
use mininet_ai.Coordination.Graph.Counts.{
  is, open_edge, contains-append, count-targets_of, count-open_edge, no_duplicates-append,
  count-contains,
}

pub incoming_of-insert :
    (t a : String) (n : ℕ) (incoming : List (String × ℕ))
    → incoming_of (insert t n incoming) a ≡ (if t == a then n else incoming_of incoming a)
incoming_of-insert t a n incoming = ground (arith, lookup-insert t a n incoming)

no_duplicates-middle :
    (xs : List String) (a : String) (ys : List String)
    → no_duplicates (xs ++ a ∷ ys) ≡ true
    → contains xs a ≡ false
no_duplicates-middle [] a ys h = refl
no_duplicates-middle (x ∷ xs) a ys h = ground (
  arith,
  h,
  no_duplicates-middle xs a ys,
  contains-append xs (a ∷ ys) x,
  eq_iff x a,
  eq_iff a x,
  eq_refl a,
)

module _ (agents : List String) (edges : List CoordinationEdge) where
  abbrev pub open_into : List String → String → ℕ
  open_into visited a = count (open_edge visited a) edges

  -- what `incoming` holds for an agent, while the targets `ts` are still to be released
  abbrev pub owed : List String → List String → String → ℕ
  owed visited ts a = open_into visited a + count (is a) ts

  -- each agent comes after all that have an edge into it
  abbrev pub IsTopological : List String → List String → Type 0
  IsTopological earlier [] = Unit
  IsTopological earlier (a ∷ later) =
      (open_into earlier a ≡ 0) × IsTopological (earlier ++ a ∷ []) later

  -- The loop, with `queue` the agents that are visited and then those that are ready.
  pub record IsRun (visited queue ts : List String) (incoming : List (String × ℕ)) : Type 0 where
    pub left : (a : String) → contains agents a ≡ true → incoming_of incoming a ≡ owed visited ts a
    pub queued :
        (a : String) → contains agents a ≡ true → contains queue a ≡ nat_beq (owed visited ts a) 0
    pub once : no_duplicates queue ≡ true
    pub known : All (λ a. contains agents a ≡ true) queue
    pub ordered : IsTopological [] queue
    pub visited_queued : (a : String) → contains visited a ≡ true → contains queue a ≡ true

  IsTopological-append :
      (earlier xs : List String) (a : String)
      → IsTopological earlier xs
      → open_into (earlier ++ xs) a ≡ 0
      → IsTopological earlier (xs ++ a ∷ [])
  IsTopological-append earlier [] a h e =
      (subst (λ l. open_into l a ≡ 0) (append-nil earlier) e, tt)
  IsTopological-append earlier (x ∷ xs) a h e = (
    h.0,
    IsTopological-append (earlier ++ x ∷ []) xs a h.1
        (subst (λ l. open_into l a ≡ 0) (sym (append_assoc earlier (x ∷ []) xs)) e),
  )

  -- More agents visited leave no more edges open.
  pub open_into_mono :
      (v w : List String) (a : String)
      → ((s : String) → contains v s ≡ true → contains w s ≡ true)
      → open_into w a ≤ open_into v a
  open_into_mono v w a h = go edges
    where
      go : (es : List CoordinationEdge) → count (open_edge w a) es ≤ count (open_edge v a) es
      go [] = omega arith
      go (e ∷ es) = ground (arith, go es, h e.source)

  -- One target is released.
  release_later :
      (visited queue ts : List String) (t : String) (incoming : List (String × ℕ))
      → IsRun visited queue (t ∷ ts) incoming
      → contains agents t ≡ true
      → nat_beq (incoming_of incoming t - 1) 0 ≡ false
      → IsRun visited queue ts (insert t (incoming_of incoming t - 1) incoming)
  release_later visited queue ts t incoming r k e = record {
    left = λ a m. ground (
      arith,
      incoming_of-insert t a (incoming_of incoming t - 1) incoming,
      r.left a m,
      r.left t k,
      eq_iff t a,
    );
    queued = λ a m. ground (arith, r.queued a m, r.left t k, e, eq_iff t a);
    once = r.once;
    known = r.known;
    ordered = r.ordered;
    visited_queued = r.visited_queued;
  }

  release_now :
      (visited queue ts : List String) (t : String) (incoming : List (String × ℕ))
      → IsRun visited queue (t ∷ ts) incoming
      → contains agents t ≡ true
      → nat_beq (incoming_of incoming t - 1) 0 ≡ true
      → IsRun visited (queue ++ t ∷ []) ts (insert t (incoming_of incoming t - 1) incoming)
  release_now visited queue ts t incoming r k e = record {
    left = λ a m. ground (
      arith,
      incoming_of-insert t a (incoming_of incoming t - 1) incoming,
      r.left a m,
      r.left t k,
      eq_iff t a,
    );
    queued = λ a m.
        ground (arith, contains-append queue (t ∷ []) a, r.queued a m, r.left t k, e, eq_iff t a);
    once = ground (arith, no_duplicates-append queue t, r.once, r.queued t k, eq_refl t);
    known = All-append _ queue (t ∷ []) r.known (k, tt);
    ordered =
        IsTopological-append [] queue t r.ordered (
          ground
            (arith, open_into_mono visited queue t r.visited_queued, r.left t k, e, eq_refl t));
    visited_queued = λ a m. ground (arith, contains-append queue (t ∷ []) a, r.visited_queued a m);
  }

  release-IsRun :
      (visited ts ready : List String) (incoming : List (String × ℕ))
      → IsRun visited (visited ++ ready) ts incoming
      → All (λ t. contains agents t ≡ true) ts
      → IsRun visited (visited ++ (release ts incoming ready).1) [] (release ts incoming ready).0
  unfolding release
  release-IsRun visited [] ready incoming r k = r
  release-IsRun visited (t ∷ ts) ready incoming r k =
      elim (Bool-cases (nat_beq (incoming_of incoming t - 1) 0)) [
        | inl e ↦
            rw (e, release)
              (release-IsRun visited ts (ready ++ t ∷ []) _
                (subst (λ q. IsRun visited q ts (insert t (incoming_of incoming t - 1) incoming))
                  (append_assoc visited ready (t ∷ []))
                  (release_now visited (visited ++ ready) ts t incoming r k.0 e))
                k.1)
        | inr e ↦
            rw (e, release)
              (release-IsRun visited ts ready _
                (release_later visited (visited ++ ready) ts t incoming r k.0 e) k.1)
      ]

  -- An agent is visited, and its targets are to be released.
  visit_one :
      (visited ready : List String) (s : String) (incoming : List (String × ℕ))
      → IsRun visited (visited ++ s ∷ ready) [] incoming
      → IsRun (visited ++ s ∷ []) ((visited ++ s ∷ []) ++ ready) (targets_of edges s) incoming
  visit_one visited ready s incoming r =
      subst (λ q. IsRun (visited ++ s ∷ []) q (targets_of edges s) incoming)
        (sym (append_assoc visited (s ∷ []) ready))
        (record {
          left = λ a m. r.left a m ∙ same_owed a;
          queued = λ a m. r.queued a m ∙ ap (λ n. nat_beq n 0) (same_owed a);
          once = r.once;
          known = r.known;
          ordered = r.ordered;
          visited_queued = λ a m.
              ground (
                arith,
                contains-append visited (s ∷ []) a,
                contains-append visited (s ∷ ready) a,
                m,
              );
        })
    where
      same_owed : (a : String) → owed visited [] a ≡ owed (visited ++ s ∷ []) (targets_of edges s) a
      same_owed a = ground (
        arith,
        count-open_edge edges visited s a (no_duplicates-middle visited s ready r.once),
        count-targets_of edges s a,
      )

  module _ (distinct : no_duplicates agents ≡ true)
      (targets : (s : String) → All (λ t. contains agents t ≡ true) (targets_of edges s)) where
    -- The loop ends within the fuel, with all that was ready visited.
    pub visit_ends :
        (fuel : ℕ) (incoming : List (String × ℕ)) (visited ready : List String)
        → IsRun visited (visited ++ ready) [] incoming
        → length agents ≤ fuel + length visited
        → (order : List String) × (after : List (String × ℕ)) × (visit edges fuel incoming ready
            ≡ some order)
          × IsRun (visited ++ order) (visited ++ order) [] after
    unfolding visit
    visit_ends fuel incoming visited [] r f = (
      [],
      incoming,
      refl,
      subst (λ l. IsRun l (visited ++ []) [] incoming) (sym (append-nil visited)) r,
    )
    visit_ends zero incoming visited (s ∷ ready) r f = absurd (
        ground (
          arith,
          f,
          count-contains agents (visited ++ s ∷ ready) distinct r.once r.known,
          count-le-length (contains (visited ++ s ∷ ready)) agents,
          length-append visited (s ∷ ready),
        ))
    visit_ends (suc fuel) incoming visited (s ∷ ready) r f =
        let released = release (targets_of edges s) incoming ready in
        let (order, after, e, r') =
          visit_ends fuel released.0 (visited ++ s ∷ []) released.1
            (release-IsRun (visited ++ s ∷ []) (targets_of edges s) ready incoming
              (visit_one visited ready s incoming r) (targets s))
            (ground (arith, f, length-append visited (s ∷ []))) in
        (
          s ∷ order,
          after,
          ap (before s) e,
          subst (λ l. IsRun l l [] after) (append_assoc visited (s ∷ []) order) r',
        )
