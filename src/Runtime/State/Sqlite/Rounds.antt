-- ===== src/Runtime/State/Sqlite/Rounds.antt =====
-- mininet_ai/runtime/state.py: a round of the loop of `apply` on the table against a round on the
-- dictionary.
use mininet_ai.Prelude.{
  ℕ, suc, String, ◌≡◌, refl, sym, ap, subst, Bool, true, false, Option, none, some, List, ◌⊎◌, inl,
  inr, if◌then◌else◌, Bool-cases, leb,
}
use mininet_ai.Runtime.State.{
  Scope, SharedStateUpdate, SharedStateChange, SharedStateAccess, StateError, write_failed,
  scope_forbidden, Result, ok, err, ◌>>=◌, ◌>>◌, namespace, namespace_text, Item, Entries, lookup,
  insert, active, version_in, deleted_in, next_version, check_expected, check_presence, item_of,
  change_of, apply_one, limit_in, limit_of, entry_missing, capacity_exceeded, is_delete,
}
use mininet_ai.Runtime.State.Steps.{id_of}
use mininet_ai.Runtime.State.Sqlite.{
  Row, select_row, count_live, row_version, row_deleted, next_row_version, check_row, check_one,
  run_statement,
}
use mininet_ai.Runtime.State.Sqlite.Table.{Represents, select-Agrees, count-active}

-- A statement that raises.
abbrev pub Fault : (ℕ → Bool) → StateError → Type 0
Fault faults e = (e ≡ write_failed) × ((k : ℕ) × (faults k ≡ true))

-- The first answer is as the second, up to a statement that raises.
abbrev pub Follows : {A B : Type 0} → (ℕ → Bool) → (A → B → Type 0) → Result A → Result B → Type 0
Follows faults r (ok x) (ok y) = r x y
Follows faults r (ok x) (err d) = ⊥
Follows faults r (err e) (ok y) = Fault faults e
Follows faults r (err e) (err d) = (e ≡ d) ⊎ Fault faults e

module _ (faults : ℕ → Bool) where
  Follows-Fault :
      {A B : Type 0} (r : A → B → Type 0) (e : StateError) (m : Result B)
      → Fault faults e
      → Follows faults r (err e) m
  Follows-Fault r e (ok y) f = f
  Follows-Fault r e (err d) f = inr f

  Follows-bind :
      {A B C D : Type 0} (r : A → B → Type 0) (q : C → D → Type 0) (m : Result A) (n : Result B)
      (f : A → Result C) (g : B → Result D)
      → Follows faults r m n
      → ((x : A) (y : B) → r x y → Follows faults q (f x) (g y))
      → Follows faults q (m >>= f) (n >>= g)
  Follows-bind r q (ok x) (ok y) f g h k = k x y h
  Follows-bind r q (ok x) (err d) f g h k = absurd h
  Follows-bind r q (err e) (ok y) f g h k = Follows-Fault q e (g y) h
  Follows-bind r q (err e) (err d) f g h k = h

  Follows-same :
      {A C D : Type 0} (q : C → D → Type 0) (m n : Result A) (f : A → Result C) (g : A → Result D)
      → m ≡ n
      → ((x : A) → Follows faults q (f x) (g x))
      → Follows faults q (m >>= f) (n >>= g)
  Follows-same {A = A} q m n f g e h =
      subst (λ n. Follows faults q (m >>= f) (n >>= g)) e (by_answer m)
    where
      by_answer : (m : Result A) → Follows faults q (m >>= f) (m >>= g)
      by_answer (ok x) = h x
      by_answer (err e) = inl refl

  Follows-run_statement :
      {A B : Type 0} (q : A → B → Type 0) (k : ℕ) (f : Result A) (n : Result B)
      → Follows faults q f n
      → Follows faults q (run_statement faults k >> f) n
  Follows-run_statement q k f n h = elim (Bool-cases (faults k)) [
    | inl e ↦ rw e (Follows-Fault q write_failed n (refl, (k, e)))
    | inr e ↦ rw e h
  ]

  -- The answers of the two, when the first follows the second.
  pub Follows-cases :
      {A B : Type 0} (r : A → B → Type 0) (m : Result A) (n : Result B)
      → Follows faults r m n
      → ((e : StateError) × (m ≡ err e) × (n ≡ err e))
        ⊎ (((m ≡ err write_failed) × ((k : ℕ) × (faults k ≡ true)))
            ⊎ ((x : A) × (y : B) × (m ≡ ok x) × (n ≡ ok y) × r x y))
  Follows-cases r (ok x) (ok y) h = inr (inr (x, y, refl, refl, h))
  Follows-cases r (ok x) (err d) h = absurd h
  Follows-cases r (err e) (ok y) h = inr (inl (ap err h.0, h.1))
  Follows-cases r (err e) (err d) (inl h) = inl (e, refl, ap err (sym h))
  Follows-cases r (err e) (err d) (inr h) = inr (inl (ap err h.0, h.1))

module _ {J T : Type 0} (null : J) (dumps : J → String) (isoformat : T → String) (faults : ℕ → Bool)
    (access : SharedStateAccess) where
  -- The checks of a row are those of an item.
  check_row-Follows :
      (k : ℕ) (ns : String) (rows : List Row) (es : Entries J T) (u : SharedStateUpdate J)
      (row : Option Row) (current : Option (Item J T))
      → row_deleted row ≡ deleted_in current
      → count_live ns rows ≡ active ns es
      → Follows faults
          (λ _ _. Unit)
          (check_row access faults k ns rows u row)
          (check_presence access u ns es current)
  unfolding check_row
  check_row-Follows k ns rows es u row current d c =
      rw (d, c)
        (by_tests (deleted_in current) (is_delete u.operation)
          (leb (limit_of access u.scope) (active ns es)))
    where
      by_tests :
          (gone delete full : Bool)
          → Follows faults
              (λ _ _. Unit)
              (if gone
                then (if delete
                    then err entry_missing
                    else run_statement faults k
                      >> (if full then err capacity_exceeded else ok (suc k)))
                else ok k)
              (if gone
                then (if delete
                    then err entry_missing
                    else if full
                    then err capacity_exceeded
                    else ok tt)
                else ok tt)
      by_tests false delete full = tt
      by_tests true true full = inl refl
      by_tests true false true = Follows-run_statement faults _ k _ _ (inl refl)
      by_tests true false false = Follows-run_statement faults _ k _ _ tt

  abbrev IsNamespace : Scope → String → String → Type 0
  IsNamespace s x y = (x ≡ namespace_text access s) × (y ≡ namespace_text access s)

  namespace-Follows :
      (s : Scope) → Follows faults (IsNamespace s) (namespace access s) (namespace access s)
  unfolding namespace
  namespace-Follows s = by_limit (limit_in s access.limits)
    where
      by_limit :
          (limit : Option ℕ)
          → let answer : Result String = elim limit [
            | none ↦ err scope_forbidden
            | some _ ↦ ok (namespace_text access s)
          ] in
            Follows faults (IsNamespace s) answer answer
      by_limit none = inl refl
      by_limit (some _) = (refl, refl)

  -- what a round on the table has found, and what a round on the dictionary answers
  abbrev pub Found :
      T
      → List Row
      → Entries J T
      → SharedStateUpdate J
      → String × Option Row × ℕ
      → SharedStateChange J × Entries J T
      → Type 0
  Found now rows es u (ns, row, next) (change, es') =
      let current = lookup (id_of access u) es in
      (ns ≡ namespace_text access u.scope)
      × (next_row_version row ≡ next_version current)
      × (change ≡ change_of null u current)
      × (es' ≡ insert (id_of access u) (item_of access now u current) es)

  pub check_one-Follows :
      (now : T) (k : ℕ) (rows : List Row) (es : Entries J T) (u : SharedStateUpdate J)
      → Represents dumps isoformat rows es
      → Follows faults
          (Found now rows es u)
          (check_one access faults k rows u)
          (apply_one null access now es u)
  unfolding check_one apply_one
  check_one-Follows now k rows es u h =
      let ns = namespace_text access u.scope in
      let row = select_row ns u.key rows in
      let current = lookup (id_of access u) es in
      let a = select-Agrees dumps isoformat ns u.key rows es h in
      let checks =
        check_row-Follows (suc k) ns rows es u row current a.1
          (count-active dumps isoformat ns rows es h) in
      let written = insert (id_of access u) (item_of access now u current) es in
      let found : (next : ℕ)
          → Found now rows es u (ns, row, next) (change_of null u current, written) =
        λ next. (refl, a.2, refl, refl) in
      let rounds =
        Follows-same faults (Found now rows es u)
          (check_expected u (row_version row) (row_deleted row))
          (check_expected u (version_in current) (deleted_in current))
          (λ _. check_row access faults (suc k) ns rows u row >>= λ next. ok (ns, row, next))
          (λ _. check_presence access u ns es current >> ok (change_of null u current, written))
          (rw (a.0, a.1) refl)
          λ _.
            Follows-bind faults (λ _ _. Unit) (Found now rows es u)
              (check_row access faults (suc k) ns rows u row)
              (check_presence access u ns es current) (λ next. ok (ns, row, next))
              (λ _. ok (change_of null u current, written)) checks λ next _ _. found next in
      Follows-bind faults (IsNamespace u.scope) (Found now rows es u) _ _ _ _
        (namespace-Follows u.scope)
        λ x y p. rw (p.0, p.1) (Follows-run_statement faults (Found now rows es u) k _ _ rounds)
