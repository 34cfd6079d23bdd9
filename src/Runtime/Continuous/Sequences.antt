-- ===== src/Runtime/Continuous/Sequences.antt =====
-- runtime/continuous.py: the last sequence numbers of the sources, after `_dispatch`.
use mininet_ai.Prelude.{
  ℕ, ◌≤◌, String, ◌≡◌, refl, Option, none, some, List, arith, ◌==◌, eq_iff, leb, if◌then◌else◌,
  Bool-cases, Option-cases, inl, inr,
}
use mininet_ai.Prelude.Dict.{lookup, insert, lookup-insert}
use mininet_ai.Runtime.Continuous.Types.{
  RuntimeEvent, Payloads, WorkItem, ContinuousRuntime, DeploymentPlan,
}
use mininet_ai.Runtime.Continuous.Enqueue.{report_issue}
use mininet_ai.Runtime.Continuous.Dispatch.{
  dispatch, find_matches, is_stale, count_received, note_sequence, take_matches,
}
use mininet_ai.Runtime.Continuous.Matching.{matches-IsQuiet}

-- The last sequence number of a source is this one or a later one.
abbrev pub Knows : String → ℕ → List (String × ℕ) → Type 0
Knows source n sequences = (m : ℕ) × (lookup source sequences ≡ some m) × (n ≤ m)

-- `_last_sequences` after `_dispatch`
abbrev pub sequences_after :
    {J : Type 0} → Payloads J → RuntimeEvent J → List (String × ℕ) → List (String × ℕ)
sequences_after payloads event sequences =
    if is_stale payloads event sequences
    then sequences
    else insert event.source event.sequence sequences

module _ {J : Type 0} (payloads : Payloads J) (plan : DeploymentPlan) where
  take_matches-sequences :
      (event : RuntimeEvent J) (s : ContinuousRuntime J)
      (found : Option (List (WorkItem J) × ContinuousRuntime J))
      → find_matches payloads plan event s ≡ found
      → (take_matches payloads event s found).last_sequences ≡ s.last_sequences
  unfolding report_issue
  take_matches-sequences event s none e = refl
  take_matches-sequences event s (some (items, t)) e =
      (matches-IsQuiet payloads plan event s items t e).sequences_same

  pub dispatch-sequences :
      (event : RuntimeEvent J) (s : ContinuousRuntime J)
      → (dispatch payloads plan event s).last_sequences
        ≡ sequences_after payloads event s.last_sequences
  unfolding dispatch report_issue
  dispatch-sequences event s = elim (Bool-cases (is_stale payloads event s.last_sequences)) [
    | inl e ↦ rw (dispatch, e) refl
    | inr e ↦
        rw (dispatch, e)
          (let noted = note_sequence payloads event (count_received payloads s) in
            take_matches-sequences event noted (find_matches payloads plan event noted) refl)
  ]

  -- After `_dispatch` the last number of the source is that of the event or a later one.
  pub sequences_after-learns :
      (event : RuntimeEvent J) (sequences : List (String × ℕ))
      → Knows event.source event.sequence (sequences_after payloads event sequences)
  sequences_after-learns event sequences = elim (Option-cases (lookup event.source sequences)) [
    | inl e ↦ (
      event.sequence,
      ground (
        arith,
        e,
        lookup-insert event.source event.source event.sequence sequences,
        eq_iff event.source event.source,
      ),
      omega arith,
    )
    | inr (m, e) ↦ elim (Bool-cases (leb event.sequence m)) [
      | inl f ↦ (m, ground (arith, e, f), ground (arith, f))
      | inr f ↦ (
        event.sequence,
        ground (
          arith,
          e,
          f,
          lookup-insert event.source event.source event.sequence sequences,
          eq_iff event.source event.source,
        ),
        omega arith,
      )
    ]
  ]

  module _ (source : String) (n : ℕ) where
    pub sequences_after-Knows :
        (event : RuntimeEvent J) (sequences : List (String × ℕ))
        → Knows source n sequences
        → Knows source n (sequences_after payloads event sequences)
    sequences_after-Knows event sequences (m, at, low) =
        elim (Bool-cases (event.source == source)) [
          | inr e ↦ (
            m,
            ground (arith, e, at, lookup-insert event.source source event.sequence sequences),
            low,
          )
          | inl e ↦ elim (Bool-cases (leb event.sequence m)) [
            | inl f ↦ (m, ground (arith, e, f, at, eq_iff event.source source), low)
            | inr f ↦ (
              event.sequence,
              ground (
                arith,
                e,
                f,
                at,
                eq_iff event.source source,
                lookup-insert event.source source event.sequence sequences,
              ),
              ground (arith, f, low),
            )
          ]
        ]
