-- ===== src/Runtime/State/Sqlite/Tests.antt =====
-- Runs of the SQLite form at fixed inputs, and the theorems applied there. Values and times are
-- texts, and their JSON and ISO forms are taken to be those texts.
use mininet_ai.Prelude.{
  ℕ, ◌≡◌, ◌⊎◌, refl, String, Bool, true, false, Option, none, some, List, [], ◌∷◌, nat_beq,
}
use mininet_ai.Prelude.Sorting.{sort}
use mininet_ai.Runtime.State.{
  run_scope, deployment_scope, set_op, delete_op, SharedStateUpdate, SharedStateAccess, err,
  version_conflict, state_closed, write_failed, read_failed, namespace, lookup, insert,
  validate_updates, apply, apply_to, apply_one, snapshot, Store, empty_store,
}
use mininet_ai.Runtime.State.Sqlite.{
  Database, Row, select_row, upsert, check_row, check_one, apply_rows, close, read_rows,
  read_scopes, apply as sqlite_apply, snapshot as sqlite_snapshot,
}
use mininet_ai.Runtime.State.Sqlite.Refinement.{Refines, apply-Refines}
use mininet_ai.Runtime.State.Sqlite.Reads.{snapshot_refines}

abbrev text : String → String
text s = s

abbrev clock : ℕ → String
clock n = "2026-01-01"

abbrev no_fault : ℕ → Bool
no_fault k = false

abbrev fault_at : ℕ → ℕ → Bool
fault_at n k = nat_beq n k

abbrev alice : SharedStateAccess
alice = record {
  run_id = "r1";
  deployment = "edge";
  agent_id = "alice";
  limits = (run_scope, 2) ∷ (deployment_scope, 1) ∷ [];
}

abbrev set_run : String → String → Option ℕ → SharedStateUpdate String
set_run k v e = record {
  scope = run_scope;
  operation = set_op;
  key = k;
  value = v;
  expected_version = e;
}

abbrev delete_run : String → SharedStateUpdate String
delete_run k = record {
  scope = run_scope;
  operation = delete_op;
  key = k;
  value = "";
  expected_version = some 1;
}

abbrev new_database : Database
new_database = record { is_open = true; rows = []; readings = 0 }

abbrev new_store : Store String String
new_store = empty_store

abbrev batch : List (SharedStateUpdate String)
batch = set_run "path" "b" none ∷ set_run "load" "7" none ∷ []

abbrev path_row : Row
path_row = record {
  namespace = "run:r1";
  scope = run_scope;
  key = "path";
  value_json = some "b";
  version = 1;
  deleted = false;
  updated_by = "alice";
  updated_at = "2026-01-01";
}

abbrev table : Database
table = record { is_open = true; rows = path_row ∷ []; readings = 1 }

abbrev memory : Store String String
memory = record {
  entries =
      (
        ("run:r1", "path"),
        record {
          value = "b";
          version = 1;
          deleted = false;
          updated_by = "alice";
          updated_at = "2026-01-01";
        },
      )
      ∷ [];
  readings = 1;
}

first_row :
    (sqlite_apply "" text text clock no_fault alice (set_run "path" "b" none ∷ []) new_database).1
    ≡ table
unfolding sqlite_apply apply_rows check_one check_row upsert select_row namespace validate_updates
first_row = refl

-- BEGIN, and three statements for each new key; the commit is the eighth.
commit_fails :
    (sqlite_apply "" text text clock (fault_at 7) alice batch new_database).0 ≡ err write_failed
unfolding sqlite_apply apply_rows check_one check_row upsert select_row namespace validate_updates
commit_fails = refl

batch_fits :
    (sqlite_apply "" text text clock (fault_at 8) alice batch new_database).0
    ≡ (apply "" clock alice batch new_store).0
unfolding sqlite_apply apply_rows check_one check_row upsert select_row namespace validate_updates
    apply apply_to apply_one lookup insert
batch_fits = refl

stale_version :
    (sqlite_apply "" text text clock no_fault alice (set_run "path" "c" (some 4) ∷ []) table).0
    ≡ err version_conflict
unfolding sqlite_apply apply_rows check_one check_row upsert select_row namespace validate_updates
stale_version = refl

closed_refuses :
    (sqlite_apply "" text text clock no_fault alice batch (close table)).0 ≡ err state_closed
unfolding sqlite_apply validate_updates namespace
closed_refuses = refl

second_read_fails :
    sqlite_snapshot (λ s. some s) (λ s. some s) (fault_at 1) alice table ≡ err read_failed
unfolding sqlite_snapshot read_scopes read_rows namespace sort
second_read_fails = refl

abbrev delete_and_set : List (SharedStateUpdate String)
delete_and_set = delete_run "path" ∷ set_run "hops" "3" none ∷ []

apply-Refines_example :
    Refines "" text text
      (fault_at 9)
      alice
      table
      (sqlite_apply "" text text clock (fault_at 9) alice delete_and_set table)
      (apply "" clock alice delete_and_set memory)
apply-Refines_example =
    apply-Refines "" text text (fault_at 9) alice clock delete_and_set table memory refl refl
      (refl, tt)

snapshot_refines_example :
    (sqlite_snapshot (λ s. some s) (λ s. some s) (fault_at 2) alice table ≡ snapshot alice memory)
    ⊎ ((sqlite_snapshot (λ s. some s) (λ s. some s) (fault_at 2) alice table ≡ err read_failed)
        × ((k : ℕ) × (fault_at 2 k ≡ true)))
snapshot_refines_example =
    snapshot_refines text text (λ s. some s) (λ s. some s) (λ v. refl) (λ t. refl) alice
      (fault_at 2) table memory refl (refl, tt)
