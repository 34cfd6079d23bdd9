-- ===== src/Runtime/State/Sqlite/Reads.antt =====
-- mininet_ai/runtime/state.py: `snapshot` of the SQLite form against `snapshot` of the form in
-- memory.
use mininet_ai.Prelude.{
  ℕ, suc, String, ◌≡◌, refl, sym, ap, ◌∙◌, subst, Bool, true, false, Option, none, some, List, [],
  ◌∷◌, map, keep, All, All-map, All-keep, arith, ◌⊎◌, inl, inr, eq_iff, Bool-cases, Option-cases,
}
use mininet_ai.Prelude.Sorting as Sorting
use mininet_ai.Prelude.Sorting.{sort, keep-sort}
use mininet_ai.Prelude.Order.{str_leb_trans, str_leb_total, str_leb_antisym}
use mininet_ai.Runtime.State.{
  Scope, run_scope, deployment_scope, SharedStateAccess, SharedStateEntry, read_failed, ok, err,
  namespace, namespace_text, Item, Identity, Entries, is_active, str_leb, id_leb, place, sorted,
  entry_of, visible_entries, scope_snapshot, values_for, snapshot, Store, same_scope, limit_in,
}
use mininet_ai.Runtime.State.Sqlite.{
  Row, Database, is_live, select_live, parse_time, read_rows, read_scopes, entries_of,
  snapshot as sqlite_snapshot,
}
use mininet_ai.Runtime.State.Sqlite.Table.{Represents, row_for, by_row}

abbrev by_id : {J T : Type 0} → Identity × Item J T → Identity × Item J T → Bool
by_id p q = id_leb p.0 q.0

abbrev by_key : {J T : Type 0} → Identity × Item J T → Identity × Item J T → Bool
by_key p q = str_leb p.0.1 q.0.1

id_leb_total : (i j : Identity) → id_leb i j ≡ false → id_leb j i ≡ true
id_leb_total i j h =
    ground (arith, eq_iff i.0 j.0, eq_iff j.0 i.0, str_leb_total i.0 j.0, str_leb_total i.1 j.1)

id_leb_trans : (i j k : Identity) → id_leb i j ≡ true → id_leb j k ≡ true → id_leb i k ≡ true
id_leb_trans i j k g h = ground (
  arith,
  eq_iff i.0 j.0,
  eq_iff j.0 k.0,
  eq_iff i.0 k.0,
  str_leb_trans i.0 j.0 k.0,
  str_leb_trans i.1 j.1 k.1,
  str_leb_antisym i.0 j.0,
)

module _ {J T : Type 0} where
  agree :
      (ns : String) (p q : Identity × Item J T)
      → is_active ns p ≡ true
      → is_active ns q ≡ true
      → by_key p q ≡ by_id p q
  agree ns p q g h = ground (arith, eq_iff p.0.0 ns, eq_iff q.0.0 ns, eq_iff p.0.0 q.0.0)

  place-eq :
      (i : Identity) (x : Item J T) (es : Entries J T)
      → place i x es ≡ Sorting.place by_id (i, x) es
  unfolding place Sorting.place
  place-eq i x [] = refl
  place-eq i x (e ∷ es) = rw (place-eq i x es) refl

  sorted-eq : (es : Entries J T) → sorted es ≡ sort by_id es
  unfolding sorted sort
  sorted-eq [] = refl
  sorted-eq (e ∷ es) = place-eq e.0 e.1 (sorted es) ∙ ap (Sorting.place by_id e) (sorted-eq es)

  abbrev show : Identity × Item J T → String × SharedStateEntry J T
  show (i, x) = (i.1, entry_of x)

  visible-eq :
      (ns : String) (es : Entries J T) → visible_entries ns es ≡ map show (keep (is_active ns) es)
  unfolding visible_entries
  visible-eq ns [] = refl
  visible-eq ns (e ∷ es) = elim (Bool-cases (is_active ns e)) [
    | inl h ↦ rw h (ap (λ l. show e ∷ l) (visible-eq ns es))
    | inr h ↦ rw h (visible-eq ns es)
  ]

  kept_sorted-eq :
      (ns : String) (es : Entries J T)
      → keep (is_active ns) (sort by_id es) ≡ sort by_key (keep (is_active ns) es)
  kept_sorted-eq ns es =
      keep-sort by_id by_key (is_active ns) (agree ns) (λ p q. id_leb_total p.0 q.0)
        (λ p q r. id_leb_trans p.0 q.0 r.0) es

  -- What is shown of the sorted entries is the entries of the namespace in the order of their keys.
  visible_sorted-eq :
      (ns : String) (es : Entries J T)
      → visible_entries ns (sorted es) ≡ map show (sort by_key (keep (is_active ns) es))
  visible_sorted-eq ns es =
      ap (visible_entries ns) (sorted-eq es)
      ∙ visible-eq ns (sort by_id es)
      ∙ ap (map show) (kept_sorted-eq ns es)

  values_for-eq :
      (access : SharedStateAccess) (s : Scope) (es : Entries J T)
      → values_for access s es
        ≡ ok (elim (limit_in s access.limits) [
          | none ↦ []
          | some _ ↦ visible_entries (namespace_text access s) (sorted es)
        ])
  unfolding scope_snapshot namespace
  values_for-eq access s es = elim (Option-cases (limit_in s access.limits)) [
    | inl e ↦ rw (e, values_for) refl
    | inr (n, e) ↦ rw (e, values_for, scope_snapshot, namespace, e) refl
  ]

same_scope_refl : (s : Scope) → same_scope s s ≡ true
same_scope_refl run_scope = refl
same_scope_refl deployment_scope = refl

limits-limit : (l : List (Scope × ℕ)) → All (λ p. (n : ℕ) × (limit_in p.0 l ≡ some n)) l
limits-limit [] = tt
limits-limit ((s, n) ∷ l) = (
  (n, rw (same_scope_refl s) refl),
  All-map _ _ l
      (λ p h. elim (Bool-cases (same_scope s p.0)) [
        | inl e ↦ (n, rw e refl)
        | inr e ↦ (h.0, rw e h.1)
      ])
      (limits-limit l),
)

-- The scopes that an access lists are those that it allows.
limits-namespace :
    (access : SharedStateAccess)
    → All (λ p. namespace access p.0 ≡ ok (namespace_text access p.0)) access.limits
unfolding namespace
limits-namespace access =
    All-map _ _ access.limits (λ p h. rw (h.1, namespace) refl) (limits-limit access.limits)

module _ {J T : Type 0} (dumps : J → String) (isoformat : T → String) where
  keep-Represents :
      (ns : String) (rows : List Row) (es : Entries J T)
      → Represents dumps isoformat rows es
      → Represents dumps isoformat (keep (is_live ns) rows) (keep (is_active ns) es)
  keep-Represents ns [] [] h = tt
  keep-Represents ns [] (e ∷ es) h = absurd h
  keep-Represents ns (r ∷ rows) [] h = absurd h
  keep-Represents ns (r ∷ rows) (e ∷ es) h =
      by_row dumps isoformat
        (λ q.
          Represents dumps isoformat (keep (is_live ns) (q ∷ rows)) (keep (is_active ns) (e ∷ es)))
        r e h.0
        (elim (Bool-cases (is_active ns e)) [
          | inl b ↦ rw b (refl, keep-Represents ns rows es h.1)
          | inr b ↦ rw b (keep-Represents ns rows es h.1)
        ])

  abbrev by_row_key : Row → Row → Bool
  by_row_key q r = str_leb q.key r.key

  place-Represents :
      (s : Scope) (e : Identity × Item J T) (rows : List Row) (es : Entries J T)
      → Represents dumps isoformat rows es
      → Represents dumps isoformat
          (Sorting.place by_row_key (row_for dumps isoformat s e.0 e.1) rows)
          (Sorting.place by_key e es)
  unfolding Sorting.place
  place-Represents s e [] [] h = (refl, tt)
  place-Represents s e [] (f ∷ es) h = absurd h
  place-Represents s e (r ∷ rows) [] h = absurd h
  place-Represents s e (r ∷ rows) (f ∷ es) h =
      by_row dumps isoformat
        (λ q.
          Represents dumps isoformat
            (Sorting.place by_row_key (row_for dumps isoformat s e.0 e.1) (q ∷ rows))
            (Sorting.place by_key e (f ∷ es)))
        r f h.0
        (elim (Bool-cases (by_key e f)) [
          | inl b ↦ rw b (refl, (refl, h.1))
          | inr b ↦ rw b (refl, place-Represents s e rows es h.1)
        ])

  sort-Represents :
      (rows : List Row) (es : Entries J T)
      → Represents dumps isoformat rows es
      → Represents dumps isoformat (sort by_row_key rows) (sort by_key es)
  unfolding sort
  sort-Represents [] [] h = tt
  sort-Represents [] (e ∷ es) h = absurd h
  sort-Represents (r ∷ rows) [] h = absurd h
  sort-Represents (r ∷ rows) (e ∷ es) h =
      by_row dumps isoformat
        (λ q. Represents dumps isoformat (sort by_row_key (q ∷ rows)) (sort by_key (e ∷ es))) r e
        h.0
        (place-Represents r.scope e (sort by_row_key rows) (sort by_key es)
          (sort-Represents rows es h.1))

  module _ (loads : String → Option J) (parse : String → Option T)
      (loads-dumps : (v : J) → loads (dumps v) ≡ some v)
      (parse-isoformat : (t : T) → parse (isoformat t) ≡ some t) where
    abbrev IsKept : Identity × Item J T → Type 0
    IsKept e = e.1.deleted ≡ false

    read_rows-eq :
        (rows : List Row) (es : Entries J T)
        → Represents dumps isoformat rows es
        → All IsKept es
        → read_rows loads parse rows ≡ ok (map show es)
    unfolding read_rows
    read_rows-eq [] [] h a = refl
    read_rows-eq [] (e ∷ es) h a = absurd h
    read_rows-eq (r ∷ rows) [] h a = absurd h
    read_rows-eq (r ∷ rows) (e ∷ es) h a =
        by_row dumps isoformat (λ q. read_rows loads parse (q ∷ rows) ≡ ok (map show (e ∷ es))) r e
          h.0
          (rw
            (
              a.0,
              loads-dumps e.1.value,
              parse_time,
              parse-isoformat e.1.updated_at,
              read_rows-eq rows es h.1 a.1,
            )
            refl)

    -- the SELECT of a namespace, with its values and times parsed
    select_live-eq :
        (ns : String) (rows : List Row) (es : Entries J T)
        → Represents dumps isoformat rows es
        → read_rows loads parse (select_live ns rows) ≡ ok (visible_entries ns (sorted es))
    select_live-eq ns rows es h =
        read_rows-eq (select_live ns rows) (sort by_key (keep (is_active ns) es))
          (sort-Represents (keep (is_live ns) rows) (keep (is_active ns) es)
            (keep-Represents ns rows es h))
          (subst (All IsKept) (kept_sorted-eq ns es)
            (All-map _ _ _ (λ e a. ground arith) (All-keep (is_active ns) (sort by_id es))))
        ∙ ap ok (sym (visible_sorted-eq ns es))

    module _ (access : SharedStateAccess) (faults : ℕ → Bool) where
      abbrev shown_in : Entries J T → Scope × ℕ → Scope × List (String × SharedStateEntry J T)
      shown_in es (s, n) = (s, visible_entries (namespace_text access s) (sorted es))

      read_scopes-eq :
          (k : ℕ) (rows : List Row) (es : Entries J T) (limits : List (Scope × ℕ))
          → Represents dumps isoformat rows es
          → All (λ p. namespace access p.0 ≡ ok (namespace_text access p.0)) limits
          → (read_scopes loads parse access faults k rows limits ≡ ok (map (shown_in es) limits))
            ⊎ ((read_scopes loads parse access faults k rows limits ≡ err read_failed)
                × ((i : ℕ) × (faults i ≡ true)))
      unfolding read_scopes
      read_scopes-eq k rows es [] h a = inl refl
      read_scopes-eq k rows es ((s, n) ∷ limits) h a = elim (Bool-cases (faults k)) [
        | inl f ↦ inr (rw (a.0, f) refl, (k, f))
        | inr f ↦ elim (read_scopes-eq (suc k) rows es limits h a.1) [
          | inl e ↦ inl (rw (a.0, f, select_live-eq (namespace_text access s) rows es h, e) refl)
          | inr (e, g) ↦
              inr (rw (a.0, f, select_live-eq (namespace_text access s) rows es h, e) refl, g)
        ]
      ]

      entries_of-eq :
          (s : Scope) (es : Entries J T) (limits : List (Scope × ℕ))
          → entries_of loads parse s (map (shown_in es) limits) ≡ elim (limit_in s limits) [
            | none ↦ []
            | some _ ↦ visible_entries (namespace_text access s) (sorted es)
          ]
      entries_of-eq s es [] = refl
      entries_of-eq run_scope es ((run_scope, n) ∷ limits) = refl
      entries_of-eq run_scope es ((deployment_scope, n) ∷ limits) =
          entries_of-eq run_scope es limits
      entries_of-eq deployment_scope es ((run_scope, n) ∷ limits) =
          entries_of-eq deployment_scope es limits
      entries_of-eq deployment_scope es ((deployment_scope, n) ∷ limits) = refl

      -- Where JSON and ISO texts parse to what they were made of, `snapshot` of an open table is
      -- `snapshot` of the dictionary that its rows represent, in the same order; or it answers
      -- `state.read.failed` because a statement raised.
      pub snapshot_refines :
          (db : Database) (store : Store J T)
          → db.is_open ≡ true
          → Represents dumps isoformat db.rows store.entries
          → (sqlite_snapshot loads parse faults access db ≡ snapshot access store)
            ⊎ ((sqlite_snapshot loads parse faults access db ≡ err read_failed)
                × ((k : ℕ) × (faults k ≡ true)))
      unfolding sqlite_snapshot snapshot
      snapshot_refines db store o h =
          elim (read_scopes-eq 0 db.rows store.entries access.limits h (limits-namespace access)) [
            | inl e ↦ inl (
                rw
                  (
                    o,
                    e,
                    entries_of-eq run_scope store.entries access.limits,
                    entries_of-eq deployment_scope store.entries access.limits,
                    values_for-eq access run_scope store.entries,
                    values_for-eq access deployment_scope store.entries,
                  )
                  refl)
            | inr (e, f) ↦ inr (rw (o, e) refl, f)
          ]
