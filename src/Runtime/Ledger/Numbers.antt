-- ===== src/Runtime/Ledger/Numbers.antt =====
-- runtime/ledger.py: the records of a run are numbered from one, without a gap.
use mininet_ai.Prelude.{
  ℕ, suc, ◌+◌, ◌≡◌, refl, String, Bool, List, [], ◌∷◌, ◌++◌, ◌==◌, ◌⊎◌, inl, inr, length,
  append-nil, arith, eq_iff, eq_refl, Bool-cases, subst,
}
use mininet_ai.Runtime.Ledger.{
  RunManifest, LedgerEntry, LedgerRecord, RunLedger, new_ledger, rows_of, max_sequence, create_run,
  append, next_record, close, LedgerOp, create_op, append_op, close_op, run_op, run_ops,
}

module _ {J T : Type 0} where
  -- numbered from `k` on
  abbrev pub IsNumbered : ℕ → List (LedgerRecord J T) → Type 0
  IsNumbered k [] = Unit
  IsNumbered k (r ∷ rs) = (r.sequence ≡ k) × IsNumbered (suc k) rs

  pub rows_of-append :
      (run : String) (xs ys : List (LedgerRecord J T))
      → rows_of run (xs ++ ys) ≡ rows_of run xs ++ rows_of run ys
  rows_of-append run [] ys = refl
  rows_of-append run (x ∷ xs) ys = elim (Bool-cases (x.entry.run_id == run)) [
    | inl e ↦ rw (e, rows_of-append run xs ys) refl
    | inr e ↦ rw (e, rows_of-append run xs ys) refl
  ]

  -- The largest number is that of the last record.
  max_sequence_numbered :
      (k : ℕ) (rs : List (LedgerRecord J T))
      → IsNumbered (suc k) rs
      → (max_sequence rs ≡ k + length rs) ⊎ ((rs ≡ []) × (max_sequence rs ≡ 0))
  max_sequence_numbered k [] h = inr (refl, refl)
  max_sequence_numbered k (r ∷ rs) h =
      inl (ground (arith, h.0, max_sequence_numbered (suc k) rs h.1))

  IsNumbered-append :
      (k : ℕ) (rs : List (LedgerRecord J T)) (r : LedgerRecord J T)
      → IsNumbered k rs
      → r.sequence ≡ k + length rs
      → IsNumbered k (rs ++ r ∷ [])
  IsNumbered-append k [] r h e = (omega arith, tt)
  IsNumbered-append k (x ∷ rs) r h e = (h.0, IsNumbered-append (suc k) rs r h.1 (omega arith))

  pub next_sequence :
      (entry : LedgerEntry J T) (rows : List (LedgerRecord J T))
      → IsNumbered 1 (rows_of entry.run_id rows)
      → (next_record entry rows).sequence ≡ 1 + length (rows_of entry.run_id rows)
  next_sequence entry rows h = ground (arith, max_sequence_numbered 0 (rows_of entry.run_id rows) h)

  -- the records of each run are numbered from one
  abbrev pub AreNumbered : RunLedger J T → Type 0
  AreNumbered ledger = (run : String) → IsNumbered 1 (rows_of run ledger.rows)

  appended :
      (entry : LedgerEntry J T) (rows : List (LedgerRecord J T))
      → ((run : String) → IsNumbered 1 (rows_of run rows))
      → (run : String) → IsNumbered 1 (rows_of run (rows ++ next_record entry rows ∷ []))
  appended entry rows h run = elim (Bool-cases (entry.run_id == run)) [
    | inl e ↦
        subst (λ x. IsNumbered 1 (rows_of x (rows ++ next_record entry rows ∷ [])))
          ((eq_iff entry.run_id run).0 e)
          (rw (rows_of-append entry.run_id rows (next_record entry rows ∷ []), eq_refl entry.run_id)
            (IsNumbered-append 1 (rows_of entry.run_id rows) (next_record entry rows)
              (h entry.run_id) (next_sequence entry rows (h entry.run_id))))
    | inr e ↦
        rw (rows_of-append run rows (next_record entry rows ∷ []), e, append-nil (rows_of run rows))
          (h run)
  ]

  append-AreNumbered :
      (broken : Bool) (entry : LedgerEntry J T) (ledger : RunLedger J T)
      → AreNumbered ledger
      → AreNumbered (append broken entry ledger).1
  unfolding append
  append-AreNumbered broken entry ledger h run =
      ground (arith, h run, appended entry ledger.rows h run)

  create_run-AreNumbered :
      (broken : Bool) (m : RunManifest J T) (ledger : RunLedger J T)
      → AreNumbered ledger
      → AreNumbered (create_run broken m ledger).1
  unfolding create_run
  create_run-AreNumbered broken m ledger h run = ground (arith, h run)

  run_op-AreNumbered :
      (op : LedgerOp J T) (ledger : RunLedger J T)
      → AreNumbered ledger
      → AreNumbered (run_op op ledger)
  unfolding run_op close
  run_op-AreNumbered (create_op broken m) ledger h = create_run-AreNumbered broken m ledger h
  run_op-AreNumbered (append_op broken e) ledger h = append-AreNumbered broken e ledger h
  run_op-AreNumbered close_op ledger h = h

  run_ops-AreNumbered :
      (ops : List (LedgerOp J T)) (ledger : RunLedger J T)
      → AreNumbered ledger
      → AreNumbered (run_ops ops ledger)
  unfolding run_ops
  run_ops-AreNumbered [] ledger h = h
  run_ops-AreNumbered (op ∷ ops) ledger h =
      run_ops-AreNumbered ops (run_op op ledger) (run_op-AreNumbered op ledger h)

  -- After any calls on a new ledger, also those that fail, the records of each run are numbered from one
  -- on, without a gap, in the order of the appends.
  pub records_numbered : (ops : List (LedgerOp J T)) → AreNumbered (run_ops ops new_ledger)
  records_numbered ops = run_ops-AreNumbered ops new_ledger (λ run. tt)
