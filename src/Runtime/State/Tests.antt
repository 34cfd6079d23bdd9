-- ===== src/Runtime/State/Tests.antt =====
-- Runs of the shared state at fixed inputs, and the theorems applied there. A JSON value is a text,
-- with the empty text for null, and the clock counts.
use mininet_ai.Prelude.{
  ℕ, ◌+◌, ◌≤◌, ◌≡◌, refl, Option, none, some, List, [], ◌∷◌, map, All, arith, eq_iff, String,
}
use mininet_ai.Runtime.State.{
  Scope, run_scope, deployment_scope, set_op, delete_op, SharedStateUpdate, SharedStateChange,
  SharedStateAccess, SharedStateSnapshot, Result, ok, err, scope_forbidden, duplicate_update,
  version_required, version_conflict, entry_missing, capacity_exceeded, StateError, namespace,
  namespace_text, Identity, lookup, insert, active, limit_in, validate_updates, apply_one, apply_to,
  apply, Store, empty_store, snapshot,
}
use mininet_ai.Runtime.State.Versions.{version_at, hits, apply_versions}
use mininet_ai.Runtime.State.Concurrency.{
  IsCurrent, change_at, apply_reads_before, stale_update_rejected,
}
use mininet_ai.Runtime.State.Capacity.{IsForeign, apply_keeps_capacity, apply_isolated}
use mininet_ai.Runtime.State.Snapshot.{Distinct, entry_at, section_of, shown, snapshot_shows}
use mininet_ai.Runtime.State.Reads.{ShowsUpdate, read_your_writes}

abbrev clock : ℕ → ℕ
clock n = n + 100

abbrev alice : SharedStateAccess
alice = record {
  run_id = "r1";
  deployment = "edge";
  agent_id = "alice";
  limits = (run_scope, 2) ∷ (deployment_scope, 1) ∷ [];
}

abbrev bob : SharedStateAccess
bob = record { run_id = "r1"; deployment = "core"; agent_id = "bob"; limits = (run_scope, 2) ∷ [] }

abbrev set_run : String → String → Option ℕ → SharedStateUpdate String
set_run k v e = record {
  scope = run_scope;
  operation = set_op;
  key = k;
  value = v;
  expected_version = e;
}

abbrev delete_run : String → Option ℕ → SharedStateUpdate String
delete_run k e = record {
  scope = run_scope;
  operation = delete_op;
  key = k;
  value = "";
  expected_version = e;
}

abbrev set_edge : String → String → SharedStateUpdate String
set_edge k v = record {
  scope = deployment_scope;
  operation = set_op;
  key = k;
  value = v;
  expected_version = none;
}

abbrev first_batch : List (SharedStateUpdate String)
first_batch = set_run "path" "a" none ∷ set_edge "load" "7" ∷ []

abbrev first : Result (List (SharedStateChange String)) × Store String ℕ
first = apply "" clock alice first_batch empty_store

abbrev first_changes : List (SharedStateChange String)
first_changes =
    record { scope = run_scope; operation = set_op; key = "path"; version = 1; value = "a" }
    ∷ record {
      scope = deployment_scope;
      operation = set_op;
      key = "load";
      version = 1;
      value = "7";
    }
    ∷ []

first_applies : first.0 ≡ ok first_changes
unfolding apply apply_to apply_one validate_updates namespace lookup insert
first_applies = refl

-- every refusal of `apply`
refusals :
    ((apply "" clock bob (set_edge "load" "8" ∷ []) first.1).0 ≡ err scope_forbidden)
    × ((apply "" clock bob (set_run "x" "1" none ∷ set_run "x" "2" none ∷ []) first.1).0
        ≡ err duplicate_update)
    × ((apply "" clock bob (set_run "path" "b" none ∷ []) first.1).0 ≡ err version_required)
    × ((apply "" clock bob (set_run "path" "b" (some 2) ∷ []) first.1).0 ≡ err version_conflict)
    × ((apply "" clock bob (delete_run "x" none ∷ []) first.1).0 ≡ err entry_missing)
    × ((apply "" clock alice (set_edge "more" "8" ∷ []) first.1).0 ≡ err capacity_exceeded)
unfolding apply apply_to apply_one validate_updates namespace lookup insert
refusals = (refl, refl, refl, refl, refl, refl)

-- a deletion leaves a tombstone, and the version goes on from it
tombstone :
    version_at
      ("run:r1", "path")
      (apply "" clock bob
        (set_run "path" "c" (some 0) ∷ [])
        (apply "" clock bob (delete_run "path" (some 1) ∷ []) first.1).1).1.entries
    ≡ 3
unfolding apply apply_to apply_one validate_updates namespace lookup insert
tombstone = refl

-- Two runs can share a namespace: the text does not tell a run's deployment from a run whose
-- identifier holds the separator.
abbrev nested : SharedStateAccess
nested = record bob { run_id = "r1:deployment:edge" }

namespace_collision : namespace nested run_scope ≡ namespace alice deployment_scope
unfolding namespace
namespace_collision = refl

apply_versions_example :
    ((e : StateError) → first.0 ≡ err e → first.1.entries ≡ [])
    × ((changes : List (SharedStateChange String)) (i : Identity)
        → first.0 ≡ ok changes
        → version_at i first.1.entries
          ≡ version_at {J = String} {T = ℕ} i [] + hits alice i first_batch)
apply_versions_example = apply_versions "" clock alice first_batch empty_store

apply_reads_before_example :
    All (IsCurrent "" alice (empty_store {J = String} {T = ℕ}).entries) first_batch
    × (first_changes
        ≡ map (change_at "" alice (empty_store {J = String} {T = ℕ}).entries) first_batch)
apply_reads_before_example =
    apply_reads_before "" clock alice first_batch empty_store first_changes first_applies

abbrev second_batch : List (SharedStateUpdate String)
second_batch = set_run "path" "b" (some 1) ∷ []

second_applies :
    (apply "" clock alice second_batch first.1).0
    ≡ ok (
        record { scope = run_scope; operation = set_op; key = "path"; version = 2; value = "b" }
        ∷ [])
unfolding apply apply_to apply_one validate_updates namespace lookup insert
second_applies = refl

stale_update_rejected_example :
    (apply "" clock bob
      (delete_run "path" (some 1) ∷ [])
      (apply "" clock alice second_batch first.1).1).0
    ≡ err version_conflict
unfolding apply apply_to apply_one validate_updates namespace lookup insert
stale_update_rejected_example =
    stale_update_rejected "" clock alice bob second_batch (delete_run "path" (some 1)) first.1
      (record { scope = run_scope; operation = set_op; key = "path"; version = 2; value = "b" }
        ∷ [])
      1 second_applies (omega arith) refl (omega arith) refl refl

apply_keeps_capacity_example : active "run:r1:deployment:edge" first.1.entries ≤ 1
apply_keeps_capacity_example =
    apply_keeps_capacity "" clock alice first_batch empty_store deployment_scope 1 (omega arith)
      (omega arith)

-- The access of bob does not allow the scope of his deployment.
core-IsForeign : IsForeign bob ("run:r1:deployment:core", "load")
core-IsForeign run_scope limit h = λ e. ground (arith, eq_iff "run:r1:deployment:core" "run:r1")
core-IsForeign deployment_scope limit h = absurd (ground (arith, h))

apply_isolated_example :
    let place : Identity = ("run:r1:deployment:core", "load") in
    lookup place
      (apply "" clock bob (set_run "seen" "x" none ∷ set_edge "load" "9" ∷ []) first.1).1.entries
    ≡ lookup place first.1.entries
apply_isolated_example =
    apply_isolated "" clock bob (set_run "seen" "x" none ∷ set_edge "load" "9" ∷ []) first.1
      ("run:r1:deployment:core", "load") core-IsForeign

first-Distinct : Distinct first.1.entries
unfolding apply apply_to apply_one validate_updates namespace lookup insert
first-Distinct = (refl, (refl, tt))

snapshot_shows_example :
    (snap : SharedStateSnapshot String ℕ) × (snapshot bob first.1 ≡ ok snap)
    × ((s : Scope) (k : String)
        → entry_at k (section_of s snap) ≡ elim (limit_in s bob.limits) [
          | none ↦ none
          | some _ ↦ shown (lookup (namespace_text bob s, k) first.1.entries)
        ])
snapshot_shows_example = snapshot_shows bob first.1 first-Distinct

read_your_writes_example :
    (snap : SharedStateSnapshot String ℕ) × (snapshot alice first.1 ≡ ok snap)
    × All (ShowsUpdate "" clock alice [] snap) first_batch
read_your_writes_example =
    read_your_writes "" clock alice first_batch empty_store first_changes tt first_applies
