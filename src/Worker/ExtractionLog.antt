-- ===== src/Worker/ExtractionLog.antt =====
-- `persist_extraction_log` of worker/persistence.py and `process_extraction_log` of
-- worker/processor.py. The table is a parameter, with what PostgreSQL documents of the statement
-- and the unique request id of sql/003_extraction_log.sql.
pub mod Once
use mathlib.Core.Option
use flight_pulse.Base.{
  ℕ, ◌+◌, String, ◌≡◌, Bool, true, ◌||◌, Option, none, some, List, [], ◌∷◌, ◌++◌, if◌then◌else◌,
  ◌==◌, string_eq, nat_eq, option_eq, list_eq,
}
use flight_pulse.Base.Result.{Result, ok, err}
use flight_pulse.Ingestion.Schemas.{ExtractionLogEntry}
use flight_pulse.Worker.Persistence.{
  DatabaseError, PersistError, unavailable, uncaught, translate, committed, commit_raised, Faults,
}
use flight_pulse.Worker.Processor.{
  Backoff, DeadLetter, write_to_dead_letter, compute_backoff_seconds,
}

-- INSERT ... ON CONFLICT (request_id) DO NOTHING
pub record LogTable : Type 1 where
  pub Log : Type 0
  pub has : Log → String → Bool
  pub insert : ExtractionLogEntry → Log → Log
  pub insert_old : (e : ExtractionLogEntry) (t : Log) → has t e.request_id ≡ true → insert e t ≡ t
  pub insert_has :
      (e : ExtractionLogEntry) (t : Log) (i : String)
      → has (insert e t) i ≡ (i == e.request_id || has t i)

module _ (db : LogTable) where
  -- Call 0 opens a connection, call 1 executes the statement.
  unfoldable pub persist_extraction_log :
      Faults → ExtractionLogEntry → db.Log → Result PersistError Unit × db.Log
  unfolding translate
  persist_extraction_log faults entry t = elim (faults.raises 0) [
    | some e ↦ (err (translate e), t)
    | none ↦ elim (faults.raises 1) [
      | some e ↦ (err (translate e), t)
      | none ↦ elim faults.commit [
        | committed ↦ (ok tt, db.insert entry t)
        | commit_raised e applied ↦ (err (translate e), if applied then db.insert entry t else t)
      ]
    ]
  ]

-- What the job returns or raises.
pub data LogResult : Type 0 where
  logged : String → LogResult
  dead_lettered : LogResult
  retry : ℕ → LogResult
  raised : DatabaseError → LogResult
  push_failed : LogResult

unfoldable pub log_result : Backoff → ℕ → ExtractionLogEntry → Result PersistError Unit → LogResult
log_result settings attempt entry (ok _) = logged entry.request_id
log_result settings attempt entry (err unavailable) =
    retry (compute_backoff_seconds settings attempt)
log_result settings attempt entry (err (uncaught e)) = raised e

pub record LogWorld (db : LogTable) (P : Type 0) : Type 0 where
  pub log : db.Log
  pub dead_letters : List (DeadLetter P)

module _ {P : Type 0} (db : LogTable) where
  unfoldable pub process_extraction_log :
      (P → Result String ExtractionLogEntry)
      → Backoff
      → Faults
      → ℕ
      → P
      → LogWorld db P
      → LogResult × LogWorld db P
  unfolding write_to_dead_letter
  process_extraction_log validate settings faults attempt payload w = elim (validate payload) [
    | err reason ↦
        let letter : DeadLetter P = record { reason = reason; batch = payload } in
        let (returns, letters) = write_to_dead_letter faults.push letter w.dead_letters in
        (if returns then dead_lettered else push_failed, record w { dead_letters = letters })
    | ok entry ↦
        let (result, log) = persist_extraction_log db faults entry w.log in
        (log_result settings attempt entry result, record w { log = log })
  ]
