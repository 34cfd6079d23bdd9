-- ===== src/Runtime/Ledger/Histories.antt =====
-- runtime/ledger.py: what is in the ledger stays as it is.
use mininet_ai.Prelude.{
  ◌+◌, ◌≡◌, sym, ◌∙◌, String, Bool, true, false, not, ◌&&◌, none, some, List, [], ◌∷◌, ◌++◌, ◌==◌,
  any, find, if◌then◌else◌, inr, length, append-nil, append_assoc, arith, eq_refl, ap,
}
use mininet_ai.Runtime.Ledger.{
  RunManifest, LedgerEntry, LedgerRecord, RunLedger, Codec, new_ledger, has_run, rows_of,
  create_run, get_run, append, next_record, close, LedgerOp, create_op, append_op, close_op, run_op,
  run_ops,
}
use mininet_ai.Runtime.Ledger.Numbers.{rows_of-append, next_sequence, AreNumbered, records_numbered}

module _ {J T : Type 0} where
  -- `append` by its outcomes: what was there stays first
  append_grows :
      (broken : Bool) (entry : LedgerEntry J T) (ledger : RunLedger J T)
      → (more : List (LedgerRecord J T)) × ((append broken entry ledger).1.rows
          ≡ ledger.rows ++ more)
  unfolding append
  append_grows broken entry ledger = (
    if ledger.is_open && not broken && has_run ledger.runs entry.run_id
        then next_record entry ledger.rows ∷ []
        else [],
    ground (arith, append-nil ledger.rows),
  )

  run_op_grows :
      (op : LedgerOp J T) (ledger : RunLedger J T)
      → (more : List (LedgerRecord J T)) × ((run_op op ledger).rows ≡ ledger.rows ++ more)
  unfolding run_op close create_run
  run_op_grows (create_op broken m) ledger = ([], ground (arith, append-nil ledger.rows))
  run_op_grows (append_op broken e) ledger = append_grows broken e ledger
  run_op_grows close_op ledger = ([], sym (append-nil ledger.rows))

  run_ops_grow :
      (ops : List (LedgerOp J T)) (ledger : RunLedger J T)
      → (more : List (LedgerRecord J T)) × ((run_ops ops ledger).rows ≡ ledger.rows ++ more)
  unfolding run_ops
  run_ops_grow [] ledger = ([], sym (append-nil ledger.rows))
  run_ops_grow (op ∷ ops) ledger =
      let (more, e) = run_op_grows op ledger in
      let (later, e') = run_ops_grow ops (run_op op ledger) in
      (more ++ later, e' ∙ ap (λ xs. xs ++ later) e ∙ append_assoc ledger.rows more later)

  -- Whatever calls follow, the history of a run only grows at its end: no record is changed, removed or
  -- put in between.
  pub history_append_only :
      (ops : List (LedgerOp J T)) (run : String) (ledger : RunLedger J T)
      → (more : List (LedgerRecord J T)) × (rows_of run (run_ops ops ledger).rows
          ≡ rows_of run ledger.rows ++ more)
  history_append_only ops run ledger =
      let (more, e) = run_ops_grow ops ledger in
      (rows_of run more, ap (rows_of run) e ∙ rows_of-append run ledger.rows more)

  find-append :
      (run : String) (xs ys : List (RunManifest J T)) (m : RunManifest J T)
      → find (λ x. x.run_id == run) xs ≡ some m
      → find (λ x. x.run_id == run) (xs ++ ys) ≡ some m
  find-append run [] ys m h = ground (arith, h)
  find-append run (x ∷ xs) ys m h = ground (arith, h, find-append run xs ys m)

  run_op_keeps_run :
      (run : String) (m : RunManifest J T) (op : LedgerOp J T) (ledger : RunLedger J T)
      → find (λ x. x.run_id == run) ledger.runs ≡ some m
      → find (λ x. x.run_id == run) (run_op op ledger).runs ≡ some m
  unfolding run_op close create_run append
  run_op_keeps_run run m (create_op broken n) ledger h =
      ground (arith, h, find-append run ledger.runs (n ∷ []) m)
  run_op_keeps_run run m (append_op broken e) ledger h = ground (arith, h)
  run_op_keeps_run run m close_op ledger h = h

  run_ops_keep_run :
      (run : String) (m : RunManifest J T) (ops : List (LedgerOp J T)) (ledger : RunLedger J T)
      → find (λ x. x.run_id == run) ledger.runs ≡ some m
      → find (λ x. x.run_id == run) (run_ops ops ledger).runs ≡ some m
  unfolding run_ops
  run_ops_keep_run run m [] ledger h = h
  run_ops_keep_run run m (op ∷ ops) ledger h =
      run_ops_keep_run run m ops (run_op op ledger) (run_op_keeps_run run m op ledger h)

  find-unless :
      (run : String) (xs : List (RunManifest J T)) (m : RunManifest J T)
      → any (λ x. x.run_id == run) xs ≡ false
      → (m.run_id == run) ≡ true
      → find (λ x. x.run_id == run) (xs ++ m ∷ []) ≡ some m
  find-unless run [] m h e = ground (arith, e)
  find-unless run (x ∷ xs) m h e = ground (arith, h, find-unless run xs m (ground (arith, h)) e)

  created :
      (m : RunManifest J T) (ledger : RunLedger J T)
      → (create_run false m ledger).0 ≡ none
      → find (λ x. x.run_id == m.run_id) (create_run false m ledger).1.runs ≡ some m
  unfolding create_run
  created m ledger h = ground (arith, h, eq_refl m.run_id, find-unless m.run_id ledger.runs m)

  -- Once `create_run` has succeeded for a manifest, `get_run` of its run returns that manifest after any
  -- later calls, as long as the ledger is open and SQLite does not fail; pydantic is taken to read the
  -- text of this manifest back.
  pub run_created_once :
      (codec : Codec (RunManifest J T)) (m : RunManifest J T) (ops : List (LedgerOp J T))
      (ledger : RunLedger J T)
      → codec.parse (codec.dump m) ≡ some m
      → (create_run false m ledger).0 ≡ none
      → (run_ops ops (create_run false m ledger).1).is_open ≡ true
      → get_run codec false m.run_id (run_ops ops (create_run false m ledger).1) ≡ inr m
  unfolding get_run
  run_created_once codec m ops ledger law h o =
      let kept =
        run_ops_keep_run m.run_id m ops (create_run false m ledger).1 (created m ledger h) in
      ground (arith, o, kept, law)

  append_succeeds :
      (broken : Bool) (entry : LedgerEntry J T) (record_made : LedgerRecord J T)
      (ledger : RunLedger J T)
      → (append broken entry ledger).0 ≡ inr record_made
      → (record_made ≡ next_record entry ledger.rows)
        × ((append broken entry ledger).1.rows ≡ ledger.rows ++ record_made ∷ [])
        × (has_run ledger.runs entry.run_id ≡ true)
  unfolding append
  append_succeeds broken entry record_made ledger h = ground (arith, h)

  rows_of_own :
      (entry : LedgerEntry J T) (r : LedgerRecord J T)
      → r.entry ≡ entry
      → rows_of entry.run_id (r ∷ []) ≡ r ∷ []
  rows_of_own entry r e = ground (arith, ap (λ x. x.run_id) e, eq_refl entry.run_id)

  appended :
      (broken : Bool) (entry : LedgerEntry J T) (record_made : LedgerRecord J T)
      (ledger : RunLedger J T)
      → AreNumbered ledger
      → (append broken entry ledger).0 ≡ inr record_made
      → (record_made.entry ≡ entry)
        × (record_made.sequence ≡ 1 + length (rows_of entry.run_id ledger.rows))
        × (rows_of entry.run_id (append broken entry ledger).1.rows
            ≡ rows_of entry.run_id ledger.rows ++ record_made ∷ [])
        × (has_run ledger.runs entry.run_id ≡ true)
  appended broken entry record_made ledger n h =
      let (made, stored, known) = append_succeeds broken entry record_made ledger h in
      (
        ap (λ r. r.entry) made,
        ap (λ r. r.sequence) made ∙ next_sequence entry ledger.rows (n entry.run_id),
        ap (rows_of entry.run_id) stored
            ∙ rows_of-append entry.run_id ledger.rows (record_made ∷ [])
            ∙ ap (λ ys. rows_of entry.run_id ledger.rows ++ ys)
                (rows_of_own entry record_made (ap (λ r. r.entry) made)),
        known,
      )

  -- In any ledger that calls on a new one make: if `append` returns a record, the run of the entry exists,
  -- the record holds the entry and, as its number, one more than the history of the run had records, and
  -- it is the last of the history then.
  pub append_records :
      (ops : List (LedgerOp J T)) (broken : Bool) (entry : LedgerEntry J T)
      (record_made : LedgerRecord J T)
      → (append broken entry (run_ops ops new_ledger)).0 ≡ inr record_made
      → (record_made.entry ≡ entry)
        × (record_made.sequence ≡ 1 + length (rows_of entry.run_id (run_ops ops new_ledger).rows))
        × (rows_of entry.run_id (append broken entry (run_ops ops new_ledger)).1.rows
            ≡ rows_of entry.run_id (run_ops ops new_ledger).rows ++ record_made ∷ [])
        × (has_run (run_ops ops new_ledger).runs entry.run_id ≡ true)
  append_records ops broken entry record_made h =
      appended broken entry record_made (run_ops ops new_ledger) (records_numbered ops) h
