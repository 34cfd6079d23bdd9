-- ===== src/Runtime/Ledger.antt =====
-- mininet_ai/runtime/ledger.py: `SQLiteRunLedger`, the manifests and the records of runs.
-- The two tables are lists of rows, in the order of insertion; a statement does what SQLite documents.
-- `broken` says whether a statement of the call raises `sqlite3.Error`: the transaction leaves the
-- tables as they were then. A row holds what its JSON text was dumped from: the text is `dump` of it, and
-- a read validates the text again. pydantic's dump and validation are a parameter, `Codec`. `J` is the
-- type of JSON objects, `T` that of time stamps. Opening the file is not modelled.
pub mod Numbers
pub mod Pages
pub mod Histories
mod Tests
use mininet_ai.Prelude.{
  ℕ, zero, suc, ◌+◌, ◌-◌, String, Bool, true, false, not, ◌&&◌, ◌||◌, Option, none, some, List, [],
  ◌∷◌, ◌++◌, map, ◌==◌, ltb, leb, nat_beq, any, find, keep, if◌then◌else◌, ◌⊎◌, inl, inr,
}
use mininet_ai.Prelude.Int.{ℤ, pos, negsuc}
use mininet_ai.Prelude.Sorting.{sort}

pub data LedgerCategory : Type 0 where
  run_lifecycle runtime_event audit_event invocation action metric state : LedgerCategory

pub record PluginManifest : Type 0 where
  pub group : String
  pub name : String
  pub version : Option String
  pub source_digest : Option String

pub record RunManifest (J T : Type 0) : Type 0 where
  pub run_id : String
  pub plan_digest : String
  pub substrate : String
  pub created_at : T
  pub specification : J
  pub deployment_plan : J
  pub plugins : List PluginManifest
  pub configuration : J

pub record LedgerEntry (J T : Type 0) : Type 0 where
  pub run_id : String
  pub category : LedgerCategory
  pub entry_type : String
  pub recorded_at : T
  pub correlation_id : Option String
  pub causation_id : Option String
  pub entry_data : J

-- a `LedgerRecord`: the entry, and the number that it is given
pub record LedgerRecord (J T : Type 0) : Type 0 where
  pub entry : LedgerEntry J T
  pub sequence : ℕ

-- The codes of `LedgerError`, and `ValueError`.
pub data LedgerError : Type 0 where
  closed run_duplicate run_unknown write_failed read_failed data_invalid value_error : LedgerError

-- `model_dump_json` and `model_validate_json` of a model; `none` is a `ValueError`
pub record Codec (X : Type 0) : Type 0 where
  pub dump : X → String
  pub parse : String → Option X

-- `model_validate_json` of the texts of some rows
unfoldable pub validate_all : {X : Type 0} → Codec X → List X → Option (List X)
validate_all codec [] = some []
validate_all codec (x ∷ xs) =
    let rest = validate_all codec xs in
    elim (codec.parse (codec.dump x)) [
      | none ↦ none
      | some y ↦ elim rest [ none ↦ none | some ys ↦ some (y ∷ ys) ]
    ]

pub record RunLedger (J T : Type 0) : Type 0 where
  pub is_open : Bool
  pub runs : List (RunManifest J T)
  pub rows : List (LedgerRecord J T)

abbrev pub is_zero : Option ℕ → Bool
is_zero (some zero) = true
is_zero _ = false

module _ {J T : Type 0} where
  abbrev pub new_ledger : RunLedger J T
  new_ledger = record { is_open = true; runs = []; rows = [] }

  -- `SELECT 1 FROM runs WHERE run_id = ?`
  abbrev pub has_run : List (RunManifest J T) → String → Bool
  has_run runs run = any (λ m. m.run_id == run) runs

  -- the records of one run
  abbrev pub rows_of : String → List (LedgerRecord J T) → List (LedgerRecord J T)
  rows_of run rows = keep (λ r. r.entry.run_id == run) rows

  -- `COALESCE(MAX(sequence), 0)` of some records
  abbrev pub max_sequence : List (LedgerRecord J T) → ℕ
  max_sequence [] = 0
  max_sequence (r ∷ rs) =
      let rest = max_sequence rs in if leb rest r.sequence then r.sequence else rest

  -- `create_run`: the error that it raises, and the ledger after it
  unfoldable pub create_run :
      Bool → RunManifest J T → RunLedger J T → Option LedgerError × RunLedger J T
  create_run broken manifest ledger =
      if not ledger.is_open
      then (some closed, ledger)
      else if broken
      then (some write_failed, ledger)
      else if has_run ledger.runs manifest.run_id
      then (some run_duplicate, ledger)
      else (none, record ledger { runs = ledger.runs ++ manifest ∷ [] })

  unfoldable pub get_run :
      Codec (RunManifest J T) → Bool → String → RunLedger J T → LedgerError ⊎ RunManifest J T
  get_run codec broken run ledger =
      if not ledger.is_open
      then inl closed
      else if broken
      then inl read_failed
      else elim (find (λ m. m.run_id == run) ledger.runs) [
        | none ↦ inl run_unknown
        | some manifest ↦ elim (codec.parse (codec.dump manifest)) [
          | none ↦ inl data_invalid
          | some read ↦ inr read
        ]
      ]

  -- the record that `append` makes of an entry
  abbrev pub next_record : LedgerEntry J T → List (LedgerRecord J T) → LedgerRecord J T
  next_record entry rows = record {
    entry = entry;
    sequence = max_sequence (rows_of entry.run_id rows) + 1;
  }

  unfoldable pub append :
      Bool → LedgerEntry J T → RunLedger J T → (LedgerError ⊎ LedgerRecord J T) × RunLedger J T
  append broken entry ledger =
      if not ledger.is_open
      then (inl closed, ledger)
      else if broken
      then (inl write_failed, ledger)
      else if has_run ledger.runs entry.run_id
      then (
        inr (next_record entry ledger.rows),
        record ledger { rows = ledger.rows ++ next_record entry ledger.rows ∷ [] },
      )
      else (inl run_unknown, ledger)

  -- `LIMIT`
  abbrev pub take : ℕ → List (LedgerRecord J T) → List (LedgerRecord J T)
  take zero rs = []
  take (suc n) [] = []
  take (suc n) (r ∷ rs) = r ∷ take n rs

  abbrev pub limit_to : Option ℕ → List (LedgerRecord J T) → List (LedgerRecord J T)
  limit_to none rs = rs
  limit_to (some n) rs = take n rs

  -- the query of `records`: after the cursor, in the order of the numbers
  abbrev pub select_records :
      String → ℕ → Option ℕ → List (LedgerRecord J T) → List (LedgerRecord J T)
  select_records run after limit rows = limit_to limit (
      sort (λ r s. leb r.sequence s.sequence)
        (keep (λ r. r.entry.run_id == run && ltb after r.sequence) rows))

  -- `records`, with a limit that is not negative
  unfoldable pub records :
      Codec (LedgerRecord J T)
      → Bool
      → String
      → ℤ
      → Option ℕ
      → RunLedger J T
      → LedgerError ⊎ List (LedgerRecord J T)
  unfolding validate_all
  records codec broken run (negsuc n) limit ledger = inl value_error
  records codec broken run (pos after) limit ledger =
      if is_zero limit
      then inl value_error
      else if not ledger.is_open
      then inl closed
      else if broken
      then inl read_failed
      else if has_run ledger.runs run
      then elim (validate_all codec (select_records run after limit ledger.rows)) [
        | none ↦ inl read_failed
        | some read ↦ inr read
      ]
      else inl run_unknown

  unfoldable pub close : RunLedger J T → RunLedger J T
  close ledger = record ledger { is_open = false }

-- a call that may change the ledger, with whether SQLite raises
pub data LedgerOp (J T : Type 0) : Type 0 where
  create_op : Bool → RunManifest J T → LedgerOp J T
  append_op : Bool → LedgerEntry J T → LedgerOp J T
  close_op : LedgerOp J T

module _ {J T : Type 0} where
  unfoldable pub run_op : LedgerOp J T → RunLedger J T → RunLedger J T
  run_op (create_op broken m) ledger = (create_run broken m ledger).1
  run_op (append_op broken e) ledger = (append broken e ledger).1
  run_op close_op ledger = close ledger

  unfoldable pub run_ops : List (LedgerOp J T) → RunLedger J T → RunLedger J T
  run_ops [] ledger = ledger
  run_ops (op ∷ ops) ledger = run_ops ops (run_op op ledger)
