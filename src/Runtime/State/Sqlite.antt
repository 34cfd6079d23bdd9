-- ===== src/Runtime/State/Sqlite.antt =====
-- mininet_ai/runtime/state.py: the SQLite form of the shared state, `SQLiteSharedStateStore`.
-- The table is a list of rows in the order of their insertion, at most one for a namespace and key.
-- A statement may raise `sqlite3.Error`: `faults k` says whether the k-th statement of a call does.
-- A rollback is taken to go through. `dumps`, `loads`, `isoformat` and `parse` are Python's and
-- pydantic's; the clock is as for the form in memory.
pub mod Table
pub mod Rounds
pub mod Refinement
pub mod Reads
mod Tests
use mininet_ai.Prelude.{
  ℕ, suc, ◌+◌, String, Bool, true, false, not, ◌&&◌, Option, none, some, List, [], ◌∷◌, map, ◌==◌,
  leb, keep, count, if◌then◌else◌,
}
use mininet_ai.Prelude.Sorting.{sort}
use mininet_ai.Runtime.State.{
  Scope, run_scope, deployment_scope, SharedStateUpdate, SharedStateChange, SharedStateEntry,
  SharedStateAccess, state_closed, read_failed, write_failed, type_error, entry_missing,
  capacity_exceeded, Result, ok, err, ◌>>=◌, ◌>>◌, same_scope, namespace, validate_updates,
  check_expected, limit_of, is_delete, collect, str_leb, SharedStateSnapshot,
}

-- a row of the table `shared_state`
pub record Row : Type 0 where
  pub namespace : String
  pub scope : Scope
  pub key : String
  pub value_json : Option String
  pub version : ℕ
  pub deleted : Bool
  pub updated_by : String
  pub updated_at : String

-- `_connection is not None`, the rows that are committed, and how often the clock was read
pub record Database : Type 0 where
  pub is_open : Bool
  pub rows : List Row
  pub readings : ℕ

-- SELECT … WHERE namespace = ? AND key = ?
unfoldable pub select_row : String → String → List Row → Option Row
select_row ns key [] = none
select_row ns key (r ∷ rows) =
    if r.namespace == ns && r.key == key then some r else select_row ns key rows

-- WHERE namespace = ? AND deleted = 0
abbrev pub is_live : String → Row → Bool
is_live ns r = r.namespace == ns && not r.deleted

-- SELECT COUNT(*)
abbrev pub count_live : String → List Row → ℕ
count_live ns = count (is_live ns)

-- INSERT … ON CONFLICT(namespace, key) DO UPDATE
unfoldable pub upsert : Row → List Row → List Row
upsert new [] = new ∷ []
upsert new (r ∷ rows) =
    if r.namespace == new.namespace && r.key == new.key
    then record new { namespace = r.namespace; key = r.key } ∷ rows
    else r ∷ upsert new rows

-- SELECT … WHERE namespace = ? AND deleted = 0 ORDER BY key
abbrev pub select_live : String → List Row → List Row
select_live ns rows = sort (λ q r. str_leb q.key r.key) (keep (is_live ns) rows)

-- `int(row[1]) if row is not None else None`, `bool(row[2]) … else True`, `(version or 0) + 1`
abbrev pub row_version : Option Row → Option ℕ
row_version none = none
row_version (some r) = some r.version

abbrev pub row_deleted : Option Row → Bool
row_deleted none = true
row_deleted (some r) = r.deleted

abbrev pub next_row_version : Option Row → ℕ
next_row_version none = 1
next_row_version (some r) = r.version + 1

-- one statement of a transaction
abbrev pub run_statement : (ℕ → Bool) → ℕ → Result (Unit {0})
run_statement faults k = if faults k then err write_failed else ok tt

-- `_require_open`
abbrev pub require_open : Database → Result (Unit {0})
require_open db = if db.is_open then ok tt else err state_closed

-- `with self._lock: …` of `close`; the lock on the file is not part of the model
abbrev pub close : Database → Database
close db = record db { is_open = false }

-- The two checks after `_check_expected`, from the statement `k` on: the next statement's number.
unfoldable pub check_row :
    {J : Type 0}
    → SharedStateAccess
    → (ℕ → Bool)
    → ℕ
    → String
    → List Row
    → SharedStateUpdate J
    → Option Row
    → Result ℕ
check_row access faults k ns rows u row =
    if row_deleted row
    then (if is_delete u.operation
        then err entry_missing
        else run_statement faults k
          >> (if leb (limit_of access u.scope) (count_live ns rows)
              then err capacity_exceeded
              else ok (suc k)))
    else ok k

-- a round of the loop of `apply`, up to the reading of the clock: the namespace, the row that is
-- there, and the number of the next statement
unfoldable pub check_one :
    {J : Type 0}
    → SharedStateAccess
    → (ℕ → Bool)
    → ℕ
    → List Row
    → SharedStateUpdate J
    → Result (String × Option Row × ℕ)
unfolding namespace check_row
check_one access faults k rows u = do
  ns ← namespace access u.scope
  run_statement faults k
  let row = select_row ns u.key rows
  check_expected u (row_version row) (row_deleted row)
  next ← check_row access faults (suc k) ns rows u row
  ok (ns, row, next)

module _ {J T : Type 0} (null : J) (dumps : J → String) (isoformat : T → String) where
  -- the values of the INSERT
  abbrev pub row_of : SharedStateAccess → T → String → SharedStateUpdate J → Option Row → Row
  row_of access now ns u row = record {
    namespace = ns;
    scope = u.scope;
    key = u.key;
    value_json = if is_delete u.operation then none else some (dumps u.value);
    version = next_row_version row;
    deleted = is_delete u.operation;
    updated_by = access.agent_id;
    updated_at = isoformat now;
  }

  -- `changes.append(…)`
  abbrev pub row_change : SharedStateUpdate J → Option Row → SharedStateChange J
  row_change u row = record {
    scope = u.scope;
    operation = u.operation;
    key = u.key;
    version = next_row_version row;
    value = if is_delete u.operation then null else u.value;
  }

  -- the loop of `apply`: the changes, the rows and the next statement, and how often the clock was
  -- read then
  unfoldable pub apply_rows :
      (ℕ → T)
      → SharedStateAccess
      → (ℕ → Bool)
      → ℕ
      → ℕ
      → List Row
      → List (SharedStateUpdate J)
      → Result (List (SharedStateChange J) × (List Row × ℕ)) × ℕ
  apply_rows clock access faults k n rows [] = (ok ([], (rows, k)), n)
  apply_rows clock access faults k n rows (u ∷ us) = elim (check_one access faults k rows u) [
    | err e ↦ (err e, n)
    | ok (ns, row, next) ↦
        let (rest, n') =
          apply_rows clock access faults (suc next) (suc n)
            (upsert (row_of access (clock n) ns u row) rows) us in
        elim (run_statement faults next) [
          | err e ↦ (err e, suc n)
          | ok _ ↦ (collect (row_change u row) rest, n')
        ]
  ]

  -- COMMIT, or the rollback
  abbrev pub commit :
      (ℕ → Bool)
      → Database
      → Result (List (SharedStateChange J) × (List Row × ℕ)) × ℕ
      → Result (List (SharedStateChange J)) × Database
  commit faults db (err e, n) = (err e, record db { readings = n })
  commit faults db (ok (changes, (rows, k)), n) =
      if faults k
      then (err write_failed, record db { readings = n })
      else (ok changes, record db { rows = rows; readings = n })

  unfoldable pub apply :
      (ℕ → T)
      → (ℕ → Bool)
      → SharedStateAccess
      → List (SharedStateUpdate J)
      → Database
      → Result (List (SharedStateChange J)) × Database
  unfolding apply_rows
  apply clock faults access updates db =
      elim (validate_updates access updates >> require_open db >> run_statement faults 0) [
        | err e ↦ (err e, db)
        | ok _ ↦ commit faults db (apply_rows clock access faults 1 db.readings db.rows updates)
      ]

module _ {J T : Type 0} (loads : String → Option J) (parse : String → Option T) where
  -- `json.loads` of a text, and of None
  abbrev pub load : Option String → Result J
  load none = err type_error
  load (some text) = elim (loads text) [ none ↦ err read_failed | some v ↦ ok v ]

  abbrev pub parse_time : String → Result T
  parse_time text = elim (parse text) [ none ↦ err read_failed | some t ↦ ok t ]

  unfoldable pub read_rows : List Row → Result (List (String × SharedStateEntry J T))
  read_rows [] = ok []
  read_rows (r ∷ rows) = do
    v ← load r.value_json
    t ← parse_time r.updated_at
    rest ← read_rows rows
    ok (
        (
          r.key,
          record { value = v; version = r.version; updated_by = r.updated_by; updated_at = t },
        )
        ∷ rest)

  -- the loop of `snapshot`: the entries of each scope of `access.limits`
  unfoldable pub read_scopes :
      SharedStateAccess
      → (ℕ → Bool)
      → ℕ
      → List Row
      → List (Scope × ℕ)
      → Result (List (Scope × List (String × SharedStateEntry J T)))
  unfolding namespace read_rows
  read_scopes access faults k rows [] = ok []
  read_scopes access faults k rows ((s, limit) ∷ limits) = do
    ns ← namespace access s
    if faults k then err read_failed else ok tt
    entries ← read_rows (select_live ns rows)
    rest ← read_scopes access faults (suc k) rows limits
    ok ((s, entries) ∷ rest)

  -- `values.get(scope, {})`; the scopes of `limits` differ
  abbrev pub entries_of :
      Scope
      → List (Scope × List (String × SharedStateEntry J T))
      → List (String × SharedStateEntry J T)
  entries_of s [] = []
  entries_of s ((t, entries) ∷ rest) = if same_scope t s then entries else entries_of s rest

  unfoldable pub snapshot :
      (ℕ → Bool) → SharedStateAccess → Database → Result (SharedStateSnapshot J T)
  unfolding read_scopes
  snapshot faults access db = do
    require_open db
    values ← read_scopes access faults 0 db.rows access.limits
    ok (record {
      allowed_scopes = map (λ p. p.0) access.limits;
      run = entries_of run_scope values;
      deployment = entries_of deployment_scope values;
    })
