-- ===== src/Runtime/State/Snapshot.antt =====
-- runtime/state.py: what `snapshot` shows of the entries.
use text.Mathlib.TextPositions.{compare_refl}
use mininet_ai.Prelude.{
  String, ◌≡◌, refl, ◌∙◌, ap, Option, none, some, List, [], ◌∷◌, map, arith, ◌==◌, eq_iff,
  if◌then◌else◌, Bool-cases, inl, inr,
}
use mininet_ai.Runtime.State.{
  Scope, run_scope, deployment_scope, SharedStateAccess, SharedStateEntry, SharedStateSnapshot, ok,
  namespace_text, Item, Identity, same_id, Entries, lookup, insert, Store, lookup-insert, place,
  sorted, visible_entries, entry_of, scope_snapshot, values_for, snapshot, id_leb, limit_in,
}

module _ {J T : Type 0} where
  -- the dictionary has one entry for a place
  abbrev pub Distinct : Entries J T → Type 0
  Distinct [] = Unit
  Distinct ((i, x) ∷ es) = (lookup i es ≡ none) × Distinct es

  -- `values[key]` of a snapshot
  abbrev pub entry_at :
      String → List (String × SharedStateEntry J T) → Option (SharedStateEntry J T)
  entry_at k [] = none
  entry_at k ((j, e) ∷ rest) = if j == k then some e else entry_at k rest

  -- what a place shows: an entry that is not deleted
  abbrev pub shown : Option (Item J T) → Option (SharedStateEntry J T)
  shown none = none
  shown (some x) = if x.deleted then none else some (entry_of x)

  lookup-place :
      (i j : Identity) (x : Item J T) (es : Entries J T)
      → lookup j (place i x es) ≡ (if same_id i j then some x else lookup j es)
  unfolding place lookup
  lookup-place i j x [] = refl
  lookup-place i j x ((k, y) ∷ es) = ground (
    arith,
    lookup-place i j x es,
    eq_iff i.0 k.0,
    eq_iff i.1 k.1,
    eq_iff i.0 j.0,
    eq_iff i.1 j.1,
    eq_iff k.0 j.0,
    eq_iff k.1 j.1,
    compare_refl i.0,
    compare_refl i.1,
  )

  lookup-sorted : (i : Identity) (es : Entries J T) → lookup i (sorted es) ≡ lookup i es
  unfolding sorted lookup
  lookup-sorted i [] = refl
  lookup-sorted i ((j, x) ∷ es) =
      lookup-place j i x (sorted es)
      ∙ ap (λ o. if same_id j i then some x else o) (lookup-sorted i es)

  Distinct-place :
      (i : Identity) (x : Item J T) (es : Entries J T)
      → lookup i es ≡ none
      → Distinct es
      → Distinct (place i x es)
  unfolding place
  Distinct-place i x [] h d = (h, tt)
  Distinct-place i x ((k, y) ∷ es) h d = elim (Bool-cases (id_leb i k)) [
    | inl e ↦ rw e (h, d)
    | inr e ↦ rw e (
      unfold lookup in
          ground (
            arith,
            lookup-place i k x es,
            eq_iff i.0 k.0,
            eq_iff i.1 k.1,
            eq_iff k.0 i.0,
            eq_iff k.1 i.1,
            d.0,
          ),
      Distinct-place i x es (unfold lookup in ground arith) d.1,
    )
  ]

  Distinct-sorted : (es : Entries J T) → Distinct es → Distinct (sorted es)
  unfolding sorted
  Distinct-sorted [] d = tt
  Distinct-sorted ((i, x) ∷ es) d =
      Distinct-place i x (sorted es) (lookup-sorted i es ∙ d.0) (Distinct-sorted es d.1)

  pub Distinct-insert :
      (i : Identity) (x : Item J T) (es : Entries J T) → Distinct es → Distinct (insert i x es)
  unfolding insert
  Distinct-insert i x [] d = (unfold lookup in refl, tt)
  Distinct-insert i x ((k, y) ∷ es) d = elim (Bool-cases (same_id k i)) [
    | inl e ↦ rw e d
    | inr e ↦ rw e (
      ground (
        arith,
        lookup-insert i k x es,
        eq_iff i.0 k.0,
        eq_iff i.1 k.1,
        eq_iff k.0 i.0,
        eq_iff k.1 i.1,
        d.0,
      ),
      Distinct-insert i x es d.1,
    )
  ]

  -- what the comprehension shows at a key is what its place shows
  visible_entries-lookup :
      (ns k : String) (es : Entries J T)
      → Distinct es
      → entry_at k (visible_entries ns es) ≡ shown (lookup (ns, k) es)
  unfolding visible_entries lookup
  visible_entries-lookup ns k [] d = refl
  visible_entries-lookup ns k ((i, x) ∷ es) d = ground (
    arith,
    visible_entries-lookup ns k es d.1,
    eq_iff i.0 ns,
    eq_iff i.1 k,
    eq_iff ns i.0,
    eq_iff k i.1,
    d.0,
  )

  -- the part of a snapshot that belongs to a scope
  abbrev pub section_of : Scope → SharedStateSnapshot J T → List (String × SharedStateEntry J T)
  section_of run_scope snap = snap.run
  section_of deployment_scope snap = snap.deployment

  contents : SharedStateAccess → Scope → Entries J T → List (String × SharedStateEntry J T)
  contents access s es = elim (limit_in s access.limits) [
    | none ↦ []
    | some _ ↦ visible_entries (namespace_text access s) (sorted es)
  ]

  values_for-contents :
      (access : SharedStateAccess) (s : Scope) (es : Entries J T)
      → values_for access s es ≡ ok (contents access s es)
  unfolding contents scope_snapshot
  values_for-contents access s es = ground arith

  contents-lookup :
      (access : SharedStateAccess) (s : Scope) (k : String) (es : Entries J T)
      → Distinct es
      → entry_at k (contents access s es) ≡ elim (limit_in s access.limits) [
        | none ↦ none
        | some _ ↦ shown (lookup (namespace_text access s, k) es)
      ]
  unfolding contents
  contents-lookup access s k es d = ground (
    arith,
    visible_entries-lookup (namespace_text access s) k (sorted es) (Distinct-sorted es d),
    lookup-sorted (namespace_text access s, k) es,
  )

  -- An access sees, at each key of a scope, the entry that is not deleted at that place, if the
  -- scope is allowed, and nothing otherwise. The call itself never raises.
  pub snapshot_shows :
      (access : SharedStateAccess) (st : Store J T)
      → Distinct st.entries
      → (snap : SharedStateSnapshot J T) × (snapshot access st ≡ ok snap)
        × ((s : Scope) (k : String)
            → entry_at k (section_of s snap) ≡ elim (limit_in s access.limits) [
              | none ↦ none
              | some _ ↦ shown (lookup (namespace_text access s, k) st.entries)
            ])
  snapshot_shows access st d = (
    record {
      allowed_scopes = map (λ p. p.0) access.limits;
      run = contents access run_scope st.entries;
      deployment = contents access deployment_scope st.entries;
    },
    unfold snapshot in
        ground (
          arith,
          values_for-contents access run_scope st.entries,
          values_for-contents access deployment_scope st.entries,
        ),
    elim [
      | run_scope ↦ λ k. contents-lookup access run_scope k st.entries d
      | deployment_scope ↦ λ k. contents-lookup access deployment_scope k st.entries d
    ],
  )
