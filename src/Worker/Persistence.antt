-- ===== src/Worker/Persistence.antt =====
-- worker/persistence.py: a batch is written in chunks inside one transaction. Which database calls
-- raise is a parameter. The pool is made on first use and kept, which no result shows.
pub mod Statement
pub mod Insertion
pub mod Redelivery
use flight_pulse.Base.{
  ℕ, ◌+◌, Bool, Option, none, some, List, [], ◌∷◌, map, if◌then◌else◌, length, string_eq, nat_eq,
  option_eq, list_eq,
}
use flight_pulse.Base.Result.{Result, ok, err}
use flight_pulse.Base.Chunks.{chunk}
use flight_pulse.Base.Sorting.{sort_by}
use flight_pulse.Base.Text.{string_ord}
use flight_pulse.Ingestion.Schemas.{TelemetryEvent, ExtractionLogEntry}
use flight_pulse.Worker.Database.{Row, Database}

-- What a database call raises: `psycopg.OperationalError`, `PoolTimeout` or `OSError`, or another
-- exception.
pub data DatabaseError : Type 0 where
  operational pool_timeout os_error other_error : DatabaseError

-- What `persist_batch` raises.
pub data PersistError : Type 0 where
  unavailable : PersistError
  uncaught : DatabaseError → PersistError

-- `except (psycopg.OperationalError, PoolTimeout, OSError)`
unfoldable pub translate : DatabaseError → PersistError
translate other_error = uncaught other_error
translate _ = unavailable

-- The end of the transaction: a commit that raises may have taken effect or not.
pub data Commit : Type 0 where
  committed : Commit
  commit_raised : DatabaseError → Bool → Commit

-- The push of a dead letter to Redis: one that raises may have taken effect or not.
pub data Push : Type 0 where
  pushed : Push
  push_raised : Bool → Push

-- What fails in an attempt: call 0 opens a connection, call n + 1 executes the n-th statement.
pub record Faults : Type 0 where
  pub raises : ℕ → Option DatabaseError
  pub commit : Commit
  pub push : Push

-- `_INSERT_CHUNK_SIZE`
abbrev pub insert_chunk_size : ℕ
insert_chunk_size = 2000

unfoldable pub event_to_row : {F : Type 0} → TelemetryEvent F → Row F
event_to_row e = record {
  ingestion_id = e.ingestion_id;
  source = e.source;
  icao24 = e.icao24;
  collector_id = e.collector_id;
  payload = e;
  ingested_at = e.ingested_at;
}

-- `rows`, sorted by the first column
unfoldable pub sorted_rows : {F : Type 0} → List (TelemetryEvent F) → List (Row F)
unfolding event_to_row
sorted_rows {F} events = sort_by (λ (r : Row F). r.ingestion_id) (map event_to_row events)

module _ {F : Type 0} (db : Database F) (faults : Faults) where
  -- The end of `async with pool.connection()`; `before` is the table if nothing was committed.
  unfoldable pub finish : ℕ → db.Table → db.Table → Result PersistError ℕ × db.Table
  unfolding translate
  finish newly_inserted before working = elim faults.commit [
    | committed ↦ (ok newly_inserted, working)
    | commit_raised e applied ↦ (err (translate e), if applied then working else before)
  ]

  -- The loop over the chunks: the number of the call, the rows counted, the table at the start of
  -- the transaction and the table in it. An exception rolls back.
  unfoldable pub insert_chunks :
      List (List (Row F)) → ℕ → ℕ → db.Table → db.Table → Result PersistError ℕ × db.Table
  unfolding finish translate
  insert_chunks [] call newly_inserted before working = finish newly_inserted before working
  insert_chunks (rows ∷ chunks) call newly_inserted before working =
      let (working', returned) = db.insert rows working in
      let rest =
        insert_chunks chunks (call + 1) (newly_inserted + length returned) before working' in
      elim (faults.raises call) [ some e ↦ (err (translate e), before) | none ↦ rest ]

  unfoldable pub persist_batch :
      List (TelemetryEvent F) → db.Table → Result PersistError ℕ × db.Table
  unfolding insert_chunks sorted_rows translate
  persist_batch [] t = (ok 0, t)
  persist_batch (event ∷ events) t =
      let chunks = chunk (sorted_rows (event ∷ events)) insert_chunk_size in
      elim (faults.raises 0) [
        | some e ↦ (err (translate e), t)
        | none ↦ insert_chunks chunks 1 0 t t
      ]
