-- ===== src/Runtime/State.antt =====
-- mininet_ai/runtime/state.py: the in-memory shared state, `InMemorySharedStateStore`.
-- The state of the store is `_entries` and how often the clock was read: the clock is a callback
-- of the caller, and its n-th reading is `clock n`. A method runs with the lock held, so a call is
-- one step. `J` is `JsonValue`, `T` is the type of time stamps.
mod Contracts
mod Dictionary
pub mod Steps
pub mod Versions
pub mod Concurrency
pub mod Capacity
pub mod Snapshot
pub mod Reads
pub mod Sqlite
mod Tests
pub use Contracts.{
  Scope, run_scope, deployment_scope, Operation, set_op, delete_op, SharedStateUpdate,
  SharedStateChange, SharedStateEntry, SharedStateAccess, StateError, scope_forbidden,
  duplicate_update, version_required, version_conflict, entry_missing, capacity_exceeded,
  state_closed, read_failed, write_failed, type_error, Result, ok, err, ◌>>=◌, ◌>>◌, same_scope,
  limit_in, namespace_text,
}
unfoldable pub use Contracts.{namespace}
pub use Dictionary.{
  Item, Identity, same_id, same_id_iff, Entries, is_active, active, weight, lookup-insert,
  active-insert,
}
unfoldable pub use Dictionary.{lookup, insert}
use Prim.Native.String.{compare}
use text.Mathlib.Text.{is_le}
use mininet_ai.Prelude.{
  ℕ, suc, ◌+◌, String, Bool, true, false, not, ◌&&◌, ◌||◌, Option, none, some, List, [], ◌∷◌, map,
  ◌==◌, leb, nat_beq, any, if◌then◌else◌,
}

-- `identity in identities`, of the pairs of scope and key seen so far
abbrev pub seen : Scope → String → List (Scope × String) → Bool
seen s k = any (λ p. same_scope p.0 s && p.1 == k)

-- the loop of `_validate_updates`
unfoldable pub validate_from :
    {J : Type 0}
    → SharedStateAccess
    → List (Scope × String)
    → List (SharedStateUpdate J)
    → Result (Unit {0})
validate_from access identities [] = ok tt
validate_from access identities (u ∷ us) = do
  _ ← namespace access u.scope
  if seen u.scope u.key identities
      then err duplicate_update
      else validate_from access ((u.scope, u.key) ∷ identities) us

unfoldable pub validate_updates :
    {J : Type 0} → SharedStateAccess → List (SharedStateUpdate J) → Result (Unit {0})
unfolding validate_from
validate_updates access = validate_from access []

-- `_check_expected`, at the version that is visible: none for an entry that is deleted or missing
abbrev pub check_visible : Option ℕ → Option ℕ → Result (Unit {0})
check_visible none none = ok tt
check_visible none (some v) = err version_required
check_visible (some e) none = if nat_beq e 0 then ok tt else err version_conflict
check_visible (some e) (some v) = if nat_beq e v then ok tt else err version_conflict

abbrev pub check_expected : {J : Type 0} → SharedStateUpdate J → Option ℕ → Bool → Result (Unit {0})
check_expected u current_version deleted =
    check_visible u.expected_version (if deleted then none else current_version)

module _ {J T : Type 0} where
  -- `current[1] if current is not None else None`, and `current[2] … else True`
  abbrev pub version_in : Option (Item J T) → Option ℕ
  version_in none = none
  version_in (some x) = some x.version

  abbrev pub deleted_in : Option (Item J T) → Bool
  deleted_in none = true
  deleted_in (some x) = x.deleted

  -- `(version or 0) + 1`
  abbrev pub next_version : Option (Item J T) → ℕ
  next_version none = 1
  next_version (some x) = x.version + 1

abbrev pub is_delete : Operation → Bool
is_delete delete_op = true
is_delete set_op = false

-- `access.limits[update.scope]`; the scope was found to be allowed
abbrev pub limit_of : SharedStateAccess → Scope → ℕ
limit_of access s = elim (limit_in s access.limits) [ none ↦ 0 | some n ↦ n ]

module _ {J T : Type 0} where
  -- The two checks after `_check_expected`: what is deleted has to be there, and what is new has to
  -- fit.
  abbrev pub check_presence :
      SharedStateAccess
      → SharedStateUpdate J
      → String
      → Entries J T
      → Option (Item J T)
      → Result (Unit {0})
  check_presence access u ns entries current =
      if deleted_in current
      then (if is_delete u.operation
          then err entry_missing
          else if leb (limit_of access u.scope) (active ns entries)
          then err capacity_exceeded
          else ok tt)
      else ok tt

  -- the item that is stored
  abbrev pub item_of : SharedStateAccess → T → SharedStateUpdate J → Option (Item J T) → Item J T
  item_of access now u current = record {
    value = u.value;
    version = next_version current;
    deleted = is_delete u.operation;
    updated_by = access.agent_id;
    updated_at = now;
  }

-- `changes.append(…)`, for the changes that come after
abbrev pub collect : {C E : Type 0} → C → Result (List C × E) → Result (List C × E)
collect change (ok (rest, entries)) = ok (change ∷ rest, entries)
collect change (err e) = err e

module _ {J T : Type 0} (null : J) where
  -- the change that is reported
  abbrev pub change_of : SharedStateUpdate J → Option (Item J T) → SharedStateChange J
  change_of u current = record {
    scope = u.scope;
    operation = u.operation;
    key = u.key;
    version = next_version current;
    value = if is_delete u.operation then null else u.value;
  }

  -- one round of the loop of `_apply_to`, at the time `now`
  unfoldable pub apply_one :
      SharedStateAccess
      → T
      → Entries J T
      → SharedStateUpdate J
      → Result (SharedStateChange J × Entries J T)
  unfolding namespace
  apply_one access now entries u = do
    ns ← namespace access u.scope
    let current = lookup (ns, u.key) entries
    check_expected u (version_in current) (deleted_in current)
    check_presence access u ns entries current
    ok (change_of u current, insert (ns, u.key) (item_of access now u current) entries)

  -- the loop of `_apply_to`: its result, and how often the clock was read then
  unfoldable pub apply_to :
      (ℕ → T)
      → SharedStateAccess
      → ℕ
      → Entries J T
      → List (SharedStateUpdate J)
      → Result (List (SharedStateChange J) × Entries J T) × ℕ
  apply_to clock access n entries [] = (ok ([], entries), n)
  apply_to clock access n entries (u ∷ us) = elim (apply_one access (clock n) entries u) [
    | err e ↦ (err e, n)
    | ok (change, entries') ↦
        let (rest, n') = apply_to clock access (suc n) entries' us in (collect change rest, n')
  ]

pub record Store (J T : Type 0) : Type 0 where
  pub entries : Entries J T
  pub readings : ℕ

abbrev pub empty_store : {J T : Type 0} → Store J T
empty_store = record { entries = []; readings = 0 }

module _ {J T : Type 0} (null : J) (clock : ℕ → T) where
  -- `apply`: the staged copy replaces `_entries` only if every update went through
  unfoldable pub apply :
      SharedStateAccess
      → List (SharedStateUpdate J)
      → Store J T
      → Result (List (SharedStateChange J)) × Store J T
  apply access updates store = elim (validate_updates access updates) [
    | err e ↦ (err e, store)
    | ok _ ↦
        let (staged, n) = apply_to null clock access store.readings store.entries updates in
        elim staged [
          | err e ↦ (err e, record store { readings = n })
          | ok (changes, entries) ↦ (ok changes, record { entries = entries; readings = n })
        ]
  ]

-- Python's order of texts, and of pairs of texts
abbrev pub str_leb : String → String → Bool
str_leb a b = is_le (compare a b)

abbrev pub id_leb : Identity → Identity → Bool
id_leb i j = if i.0 == j.0 then str_leb i.1 j.1 else str_leb i.0 j.0

pub record SharedStateSnapshot (J T : Type 0) : Type 0 where
  pub allowed_scopes : List Scope
  pub run : List (String × SharedStateEntry J T)
  pub deployment : List (String × SharedStateEntry J T)

module _ {J T : Type 0} where
  -- `sorted(self._entries.items())`: the identities differ, so they decide the order
  unfoldable pub place : Identity → Item J T → Entries J T → Entries J T
  place i x [] = (i, x) ∷ []
  place i x ((j, y) ∷ rest) = if id_leb i j then (i, x) ∷ (j, y) ∷ rest else (j, y) ∷ place i x rest

  unfoldable pub sorted : Entries J T → Entries J T
  unfolding place
  sorted [] = []
  sorted ((i, x) ∷ rest) = place i x (sorted rest)

  abbrev pub entry_of : Item J T → SharedStateEntry J T
  entry_of x = record {
    value = x.value;
    version = x.version;
    updated_by = x.updated_by;
    updated_at = x.updated_at;
  }

  -- the dictionary comprehension of `_scope_snapshot`
  unfoldable pub visible_entries : String → Entries J T → List (String × SharedStateEntry J T)
  visible_entries ns [] = []
  visible_entries ns ((i, x) ∷ rest) =
      let tail = visible_entries ns rest in
      if i.0 == ns && not x.deleted then (i.1, entry_of x) ∷ tail else tail

  unfoldable pub scope_snapshot :
      SharedStateAccess → Scope → Entries J T → Result (List (String × SharedStateEntry J T))
  unfolding namespace
  scope_snapshot access s entries = do
    ns ← namespace access s
    ok (visible_entries ns (sorted entries))

  -- `values.get(scope, {})`, where `values` has an entry for each scope in `limits`
  abbrev pub values_for :
      SharedStateAccess → Scope → Entries J T → Result (List (String × SharedStateEntry J T))
  values_for access s entries = elim (limit_in s access.limits) [
    | none ↦ ok []
    | some _ ↦ scope_snapshot access s entries
  ]

  unfoldable pub snapshot : SharedStateAccess → Store J T → Result (SharedStateSnapshot J T)
  snapshot access store = do
    run ← values_for access run_scope store.entries
    deployment ← values_for access deployment_scope store.entries
    ok (record {
      allowed_scopes = map (λ p. p.0) access.limits;
      run = run;
      deployment = deployment;
    })
