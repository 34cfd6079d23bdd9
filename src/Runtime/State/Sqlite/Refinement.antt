-- ===== src/Runtime/State/Sqlite/Refinement.antt =====
-- mininet_ai/runtime/state.py: `apply` of the SQLite form against `apply` of the form in memory.
use mininet_ai.Prelude.{
  ℕ, suc, String, ◌≡◌, refl, sym, ap, ◌∙◌, subst, Bool, true, false, Option, List, [], ◌∷◌, ◌⊎◌,
  inl, inr, Bool-cases,
}
use mininet_ai.Runtime.State.{
  SharedStateUpdate, SharedStateChange, SharedStateAccess, StateError, write_failed, Result, ok,
  err, ◌>>◌, Item, Entries, lookup, validate_updates, next_version, item_of, change_of, apply_one,
  apply_to, collect, apply, Store,
}
use mininet_ai.Runtime.State.Steps.{id_of}
use mininet_ai.Runtime.State.Sqlite.{
  Row, Database, upsert, next_row_version, check_one, run_statement, row_of, row_change, apply_rows,
  commit, require_open, apply as sqlite_apply,
}
use mininet_ai.Runtime.State.Sqlite.Table.{Represents, upsert-Represents}
use mininet_ai.Runtime.State.Sqlite.Rounds.{Fault, Follows-cases, Found, check_one-Follows}

module _ {J T : Type 0} (null : J) (dumps : J → String) (isoformat : T → String) (faults : ℕ → Bool)
    (access : SharedStateAccess) where
  -- what the loops answer: the same changes, entries and readings, or the same refusal
  abbrev Alike :
      Result (List (SharedStateChange J) × (List Row × ℕ)) × ℕ
      → Result (List (SharedStateChange J) × Entries J T) × ℕ
      → Type 0
  Alike (ok (cs, (rows, k)), n) (ok (ds, es), m) =
      (cs ≡ ds) × Represents dumps isoformat rows es × (n ≡ m)
  Alike (ok _, n) (err d, m) = ⊥
  Alike (err e, n) (ok _, m) = ⊥
  Alike (err e, n) (err d, m) = (e ≡ d) × (n ≡ m)

  -- a statement of the loop raised
  abbrev Failed : {A : Type 0} → Result A × ℕ → Type 0
  Failed (ok _, n) = ⊥
  Failed (err e, n) = Fault faults e

  by_answer : {A : Type 0} {x : Result A × ℕ} (x' : Result A × ℕ) → x ≡ x' → Failed x' → Failed x
  by_answer x' e f = subst Failed (sym e) f

  by_answers :
      {x : Result (List (SharedStateChange J) × (List Row × ℕ)) × ℕ}
      {y : Result (List (SharedStateChange J) × Entries J T) × ℕ}
      (x' : Result (List (SharedStateChange J) × (List Row × ℕ)) × ℕ)
      (y' : Result (List (SharedStateChange J) × Entries J T) × ℕ)
      → x ≡ x'
      → y ≡ y'
      → Alike x' y' ⊎ Failed x'
      → Alike x y ⊎ Failed x
  by_answers {x = x} {y = y} x' y' e f h =
      subst (λ w. Alike w y ⊎ Failed w) (sym e) (subst (λ w. Alike x' w ⊎ Failed x') (sym f) h)

  Alike-collect :
      (change : SharedStateChange J) (x : Result (List (SharedStateChange J) × (List Row × ℕ)) × ℕ)
      (y : Result (List (SharedStateChange J) × Entries J T) × ℕ)
      → Alike x y ⊎ Failed x
      → Alike (collect change x.0, x.1) (collect change y.0, y.1) ⊎ Failed (collect change x.0, x.1)
  Alike-collect change (ok (cs, (rows, k)), n) (ok (ds, es), m) (inl h) =
      inl (ap (λ l. change ∷ l) h.0, h.1, h.2)
  Alike-collect change (ok _, n) (err d, m) (inl h) = absurd h
  Alike-collect change (err e, n) (ok _, m) (inl h) = absurd h
  Alike-collect change (err e, n) (err d, m) (inl h) = inl h
  Alike-collect change (ok _, n) y (inr h) = absurd h
  Alike-collect change (err e, n) y (inr h) = inr h

  -- The row that is written is that of the item that is written, and the changes are the same.
  written-Represents :
      (now : T) (rows : List Row) (es : Entries J T) (u : SharedStateUpdate J)
      (found : String × Option Row × ℕ) (done : SharedStateChange J × Entries J T)
      → Represents dumps isoformat rows es
      → Found null dumps isoformat faults access now rows es u found done
      → Represents dumps isoformat
          (upsert (row_of null dumps isoformat access now found.0 u found.1) rows)
          done.1
  written-Represents now rows es u (ns, row, next) (change, es') h c =
      rw (c.0, c.1, c.3)
        (upsert-Represents dumps isoformat u.scope (id_of access u)
          (item_of access now u (lookup (id_of access u) es)) rows es h)

  row_change-eq :
      (u : SharedStateUpdate J) (row : Option Row) (current : Option (Item J T))
      → next_row_version row ≡ next_version current
      → row_change null dumps isoformat u row ≡ change_of null u current
  row_change-eq u row current e = rw e refl

  apply_rows-refused :
      (clock : ℕ → T) (k n : ℕ) (rows : List Row) (u : SharedStateUpdate J)
      (us : List (SharedStateUpdate J)) (e : StateError)
      → check_one access faults k rows u ≡ err e
      → apply_rows null dumps isoformat clock access faults k n rows (u ∷ us) ≡ (err e, n)
  unfolding apply_rows
  apply_rows-refused clock k n rows u us e a = rw (a, apply_rows) refl

  apply_rows-failed :
      (clock : ℕ → T) (k n : ℕ) (rows : List Row) (u : SharedStateUpdate J)
      (us : List (SharedStateUpdate J)) (ns : String) (row : Option Row) (next : ℕ)
      → check_one access faults k rows u ≡ ok (ns, row, next)
      → faults next ≡ true
      → apply_rows null dumps isoformat clock access faults k n rows (u ∷ us)
        ≡ (err write_failed, suc n)
  unfolding apply_rows
  apply_rows-failed clock k n rows u us ns row next a f = rw (a, apply_rows, f) refl

  apply_rows-done :
      (clock : ℕ → T) (k n : ℕ) (rows : List Row) (u : SharedStateUpdate J)
      (us : List (SharedStateUpdate J)) (ns : String) (row : Option Row) (next : ℕ)
      (change : SharedStateChange J)
      → check_one access faults k rows u ≡ ok (ns, row, next)
      → faults next ≡ false
      → row_change null dumps isoformat u row ≡ change
      → let written = row_of null dumps isoformat access (clock n) ns u row in
        let rest =
          apply_rows null dumps isoformat clock access faults
            (suc next)
            (suc n)
            (upsert written rows)
            us in
        apply_rows null dumps isoformat clock access faults k n rows (u ∷ us)
        ≡ (collect change rest.0, rest.1)
  unfolding apply_rows
  apply_rows-done clock k n rows u us ns row next change a f c = rw (a, apply_rows, f, ← c) refl

  apply_to-refused :
      (clock : ℕ → T) (n : ℕ) (es : Entries J T) (u : SharedStateUpdate J)
      (us : List (SharedStateUpdate J)) (e : StateError)
      → apply_one null access (clock n) es u ≡ err e
      → apply_to null clock access n es (u ∷ us) ≡ (err e, n)
  unfolding apply_to
  apply_to-refused clock n es u us e b = rw (b, apply_to) refl

  apply_to-done :
      (clock : ℕ → T) (n : ℕ) (es es' : Entries J T) (u : SharedStateUpdate J)
      (us : List (SharedStateUpdate J)) (change : SharedStateChange J)
      → apply_one null access (clock n) es u ≡ ok (change, es')
      → let rest = apply_to null clock access (suc n) es' us in
        apply_to null clock access n es (u ∷ us) ≡ (collect change rest.0, rest.1)
  unfolding apply_to
  apply_to-done clock n es es' u us change b = rw (b, apply_to) refl

  apply_rows-Alike :
      (clock : ℕ → T) (k n : ℕ) (rows : List Row) (es : Entries J T)
      (us : List (SharedStateUpdate J))
      → Represents dumps isoformat rows es
      → let x = apply_rows null dumps isoformat clock access faults k n rows us in
        Alike x (apply_to null clock access n es us) ⊎ Failed x
  unfolding apply_rows apply_to
  apply_rows-Alike clock k n rows es [] h = inl (refl, h, refl)
  apply_rows-Alike clock k n rows es (u ∷ us) h =
      let round = check_one-Follows null dumps isoformat faults access (clock n) k rows es u h in
      elim (Follows-cases faults (Found null dumps isoformat faults access (clock n) rows es u)
        (check_one access faults k rows u) (apply_one null access (clock n) es u) round) [
          | inl (e, a, b) ↦
              by_answers (err e, n) (err e, n) (apply_rows-refused clock k n rows u us e a)
                (apply_to-refused clock n es u us e b) (inl (refl, refl))
          | inr (inl (a, f)) ↦ inr (
              by_answer (err write_failed, n)
                (apply_rows-refused clock k n rows u us write_failed a) (refl, f))
          | inr (inr ((ns, row, next), (change, es'), a, b, c)) ↦ elim (Bool-cases (faults next)) [
            | inl f ↦ inr (
                by_answer (err write_failed, suc n)
                  (apply_rows-failed clock k n rows u us ns row next a f) (refl, (next, f)))
            | inr f ↦
                let written = row_of null dumps isoformat access (clock n) ns u row in
                let kept =
                  written-Represents (clock n) rows es u (ns, row, next) (change, es') h c in
                let rest =
                  apply_rows null dumps isoformat clock access faults (suc next) (suc n)
                    (upsert written rows) us in
                let rest' = apply_to null clock access (suc n) es' us in
                by_answers (collect change rest.0, rest.1) (collect change rest'.0, rest'.1)
                  (apply_rows-done clock k n rows u us ns row next change a f
                    (row_change-eq u row (lookup (id_of access u) es) c.1 ∙ sym c.2))
                  (apply_to-done clock n es es' u us change b)
                  (Alike-collect change rest rest'
                    (apply_rows-Alike clock (suc next) (suc n) (upsert written rows) es' us kept))
          ]
        ]

  -- the answers and the states of the two, from the table of `db`: equal answers, or a failure
  abbrev pub Refines :
      Database
      → Result (List (SharedStateChange J)) × Database
      → Result (List (SharedStateChange J)) × Store J T
      → Type 0
  Refines db answered wanted =
      ((answered.0 ≡ wanted.0)
        × (answered.1.is_open ≡ true)
        × (answered.1.readings ≡ wanted.1.readings)
        × Represents dumps isoformat answered.1.rows wanted.1.entries)
      ⊎ ((answered.0 ≡ err write_failed)
          × ((k : ℕ) × (faults k ≡ true))
          × (answered.1.is_open ≡ true)
          × (answered.1.rows ≡ db.rows))

  -- the end of `apply` in memory
  abbrev settle :
      Store J T
      → Result (List (SharedStateChange J) × Entries J T) × ℕ
      → Result (List (SharedStateChange J)) × Store J T
  settle store (staged, n) = elim staged [
    | err e ↦ (err e, record store { readings = n })
    | ok (changes, entries) ↦ (ok changes, record { entries = entries; readings = n })
  ]

  commit-Refines :
      (db : Database) (store : Store J T)
      (x : Result (List (SharedStateChange J) × (List Row × ℕ)) × ℕ)
      (y : Result (List (SharedStateChange J) × Entries J T) × ℕ)
      → db.is_open ≡ true
      → Represents dumps isoformat db.rows store.entries
      → Alike x y ⊎ Failed x
      → Refines db (commit null dumps isoformat faults db x) (settle store y)
  commit-Refines db store (ok (cs, (rows, k)), n) (ok (ds, es), m) o h (inl a) =
      elim (Bool-cases (faults k)) [
        | inl f ↦ rw f (inr (refl, (k, f), o, refl))
        | inr f ↦ rw f (inl (ap ok a.0, o, a.2, a.1))
      ]
  commit-Refines db store (ok x, n) (err d, m) o h (inl a) = absurd a
  commit-Refines db store (err e, n) (ok y, m) o h (inl a) = absurd a
  commit-Refines db store (err e, n) (err d, m) o h (inl a) = inl (ap err a.0, o, a.1, h)
  commit-Refines db store (ok x, n) y o h (inr f) = absurd f
  commit-Refines db store (err e, n) y o h (inr f) = inr (ap err f.0, f.1, o, refl)

  start-Refines :
      (db : Database) (store : Store J T) (checked : Result (Unit {0}))
      (x : Result (List (SharedStateChange J) × (List Row × ℕ)) × ℕ)
      (y : Result (List (SharedStateChange J) × Entries J T) × ℕ)
      → db.is_open ≡ true
      → db.readings ≡ store.readings
      → Represents dumps isoformat db.rows store.entries
      → Alike x y ⊎ Failed x
      → Refines db
          (elim (checked >> require_open db >> run_statement faults 0) [
            | err e ↦ (err e, db)
            | ok _ ↦ commit null dumps isoformat faults db x
          ])
          (elim checked [ err e ↦ (err e, store) | ok _ ↦ settle store y ])
  start-Refines db store (err e) x y o n h a = inl (refl, o, n, h)
  start-Refines db store (ok _) x y o n h a = elim (Bool-cases (faults 0)) [
    | inl f ↦ rw (o, f) (inr (refl, (0, f), o, refl))
    | inr f ↦ rw (o, f) (commit-Refines db store x y o h a)
  ]

  -- `apply` of an open table whose rows are those of the entries answers as `apply` of the dictionary
  -- does, reads the clock as often, and leaves rows for the entries that the other leaves; or it answers
  -- `state.write.failed` because a statement raised, and leaves the rows that it found.
  pub apply-Refines :
      (clock : ℕ → T) (us : List (SharedStateUpdate J)) (db : Database) (store : Store J T)
      → db.is_open ≡ true
      → db.readings ≡ store.readings
      → Represents dumps isoformat db.rows store.entries
      → Refines db
          (sqlite_apply null dumps isoformat clock faults access us db)
          (apply null clock access us store)
  unfolding sqlite_apply apply
  apply-Refines clock us db store o n h =
      start-Refines db store (validate_updates access us)
        (apply_rows null dumps isoformat clock access faults 1 db.readings db.rows us)
        (apply_to null clock access store.readings store.entries us) o n h
        (subst
          (λ m.
            let x = apply_rows null dumps isoformat clock access faults 1 db.readings db.rows us in
            Alike x (apply_to null clock access m store.entries us) ⊎ Failed x)
          n (apply_rows-Alike clock 1 db.readings db.rows store.entries us h))
