-- ===== src/Runtime/State/Sqlite/Table.antt =====
-- mininet_ai/runtime/state.py: the table of the SQLite form against the dictionary of the form in
-- memory.
use mininet_ai.Prelude.{
  String, ◌≡◌, refl, sym, subst, Option, none, some, List, [], ◌∷◌, inl, inr, if◌then◌else◌,
  Bool-cases,
}
use mininet_ai.Runtime.State.{
  Scope, Item, Identity, same_id, Entries, lookup, insert, active, version_in, deleted_in,
  next_version,
}
use mininet_ai.Runtime.State.Sqlite.{
  Row, select_row, count_live, upsert, row_version, row_deleted, next_row_version,
}

module _ {J T : Type 0} (dumps : J → String) (isoformat : T → String) where
  -- the row of an item: the value of a deleted item is not kept
  abbrev pub row_for : Scope → Identity → Item J T → Row
  row_for s i x = record {
    namespace = i.0;
    scope = s;
    key = i.1;
    value_json = if x.deleted then none else some (dumps x.value);
    version = x.version;
    deleted = x.deleted;
    updated_by = x.updated_by;
    updated_at = isoformat x.updated_at;
  }

  -- the rows are those of the items, one for one
  abbrev pub Represents : List Row → Entries J T → Type 0
  Represents [] [] = Unit
  Represents [] (e ∷ es) = ⊥
  Represents (r ∷ rows) [] = ⊥
  Represents (r ∷ rows) (e ∷ es) = (r ≡ row_for r.scope e.0 e.1) × Represents rows es

  -- a row that was selected, and the item that was looked up
  abbrev pub Agrees : Option Row → Option (Item J T) → Type 0
  Agrees row current =
      (row_version row ≡ version_in current)
      × (row_deleted row ≡ deleted_in current)
      × (next_row_version row ≡ next_version current)

  -- The rows that hold of the first item's row hold of the first row.
  pub by_row :
      (P : Row → Type 0) (r : Row) (e : Identity × Item J T)
      → r ≡ row_for r.scope e.0 e.1
      → P (row_for r.scope e.0 e.1)
      → P r
  by_row P r e h p = subst P (sym h) p

  pub select-Agrees :
      (ns key : String) (rows : List Row) (es : Entries J T)
      → Represents rows es
      → Agrees (select_row ns key rows) (lookup (ns, key) es)
  unfolding select_row lookup
  select-Agrees ns key [] [] h = (refl, refl, refl)
  select-Agrees ns key [] (e ∷ es) h = absurd h
  select-Agrees ns key (r ∷ rows) [] h = absurd h
  select-Agrees ns key (r ∷ rows) (e ∷ es) h =
      by_row (λ q. Agrees (select_row ns key (q ∷ rows)) (lookup (ns, key) (e ∷ es))) r e h.0
        (elim (Bool-cases (same_id e.0 (ns, key))) [
          | inl b ↦ rw b (refl, refl, refl)
          | inr b ↦ rw b (select-Agrees ns key rows es h.1)
        ])

  pub count-active :
      (ns : String) (rows : List Row) (es : Entries J T)
      → Represents rows es
      → count_live ns rows ≡ active ns es
  count-active ns [] [] h = refl
  count-active ns [] (e ∷ es) h = absurd h
  count-active ns (r ∷ rows) [] h = absurd h
  count-active ns (r ∷ rows) (e ∷ es) h =
      by_row (λ q. count_live ns (q ∷ rows) ≡ active ns (e ∷ es)) r e h.0
        (rw (count-active ns rows es h.1) refl)

  pub upsert-Represents :
      (s : Scope) (i : Identity) (x : Item J T) (rows : List Row) (es : Entries J T)
      → Represents rows es
      → Represents (upsert (row_for s i x) rows) (insert i x es)
  unfolding upsert insert
  upsert-Represents s i x [] [] h = (refl, tt)
  upsert-Represents s i x [] (e ∷ es) h = absurd h
  upsert-Represents s i x (r ∷ rows) [] h = absurd h
  upsert-Represents s i x (r ∷ rows) (e ∷ es) h =
      by_row (λ q. Represents (upsert (row_for s i x) (q ∷ rows)) (insert i x (e ∷ es))) r e h.0
        (elim (Bool-cases (same_id e.0 i)) [
          | inl b ↦ rw b (refl, h.1)
          | inr b ↦ rw b (refl, upsert-Represents s i x rows es h.1)
        ])
