-- ===== src/Runtime/Ledger/Tests.antt =====
-- Runs of the ledger at fixed inputs, and the theorems applied there. A JSON object and a time stamp are
-- numbers.
use mininet_ai.Prelude.{
  ℕ, ◌≡◌, refl, String, true, false, none, some, nat_beq, ◌==◌, if◌then◌else◌, List, [], ◌∷◌, ◌++◌,
  inr,
}
use mininet_ai.Prelude.Int.{pos}
use mininet_ai.Prelude.Sorting.{sort, place}
use mininet_ai.Runtime.Ledger.{
  Codec, validate_all, action, RunManifest, LedgerEntry, LedgerRecord, new_ledger, rows_of,
  limit_to, create_run, get_run, append, records, LedgerOp, create_op, append_op, run_op, run_ops,
}
use mininet_ai.Runtime.Ledger.Numbers.{AreNumbered, records_numbered}
use mininet_ai.Runtime.Ledger.Pages.{drop, records_page}
use mininet_ai.Runtime.Ledger.Histories.{history_append_only, run_created_once}

abbrev manifest : String → RunManifest ℕ ℕ
manifest run = record {
  run_id = run;
  plan_digest = "sha256";
  substrate = "fake";
  created_at = 0;
  specification = 0;
  deployment_plan = 0;
  plugins = [];
  configuration = 0;
}

abbrev entry : String → ℕ → LedgerEntry ℕ ℕ
entry run n = record {
  run_id = run;
  category = action;
  entry_type = "capability.started";
  recorded_at = n;
  correlation_id = none;
  causation_id = none;
  entry_data = n;
}

-- two runs, with an append that SQLite fails and one to a run that does not exist
abbrev calls : List (LedgerOp ℕ ℕ)
calls =
    create_op false (manifest "r1")
    ∷ create_op false (manifest "r2")
    ∷ append_op false (entry "r1" 5)
    ∷ append_op true (entry "r1" 6)
    ∷ append_op false (entry "r2" 7)
    ∷ append_op false (entry "r3" 8)
    ∷ append_op false (entry "r1" 9)
    ∷ []

-- The text of a manifest is its run here, that of a record its number, in the run "r1".
abbrev manifests : Codec (RunManifest ℕ ℕ)
manifests = record { dump = λ m. m.run_id; parse = λ run. some (manifest run) }

abbrev texts : Codec (LedgerRecord ℕ ℕ)
texts = record {
  dump = λ r. if nat_beq r.sequence 1 then "1" else "2";
  parse = λ text.
      if text == "1"
      then some (record { entry = entry "r1" 5; sequence = 1 })
      else if text == "2"
      then some (record { entry = entry "r1" 9; sequence = 2 })
      else none;
}

abbrev numbered : LedgerEntry ℕ ℕ → ℕ → LedgerRecord ℕ ℕ
numbered e n = record { entry = e; sequence = n }

second_page :
    records texts false "r1" (pos 1) (some 3) (run_ops calls new_ledger)
    ≡ inr (numbered (entry "r1" 9) 2 ∷ [])
unfolding records validate_all run_ops run_op create_run append sort place
second_page = refl

records_numbered_example : AreNumbered (run_ops calls new_ledger)
records_numbered_example = records_numbered calls

records_page_example :
    records texts false "r1" (pos 1) (some 3) (run_ops calls new_ledger)
    ≡ inr (limit_to (some 3) (drop 1 (rows_of "r1" (run_ops calls new_ledger).rows)))
unfolding run_ops run_op create_run append
records_page_example = records_page texts calls "r1" 1 (some 3) (refl, (refl, tt)) refl refl refl

history_append_only_example :
    (more : List (LedgerRecord ℕ ℕ)) × (rows_of "r1"
        (run_ops (append_op false (entry "r1" 3) ∷ []) (run_ops calls new_ledger)).rows
      ≡ rows_of "r1" (run_ops calls new_ledger).rows ++ more)
history_append_only_example =
    history_append_only (append_op false (entry "r1" 3) ∷ []) "r1" (run_ops calls new_ledger)

run_created_once_example :
    get_run manifests false "r1" (run_ops calls (create_run false (manifest "r1") new_ledger).1)
    ≡ inr (manifest "r1")
unfolding run_ops run_op create_run append
run_created_once_example =
    run_created_once manifests (manifest "r1") calls new_ledger refl refl refl
