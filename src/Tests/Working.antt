-- ===== src/Tests/Working.antt =====
-- worker/ on a table of rows. A float stands for whole metres, and a batch is its own payload.
use flight_pulse.Base.{
  ℕ, String, ◌≡◌, refl, Bool, true, ◌||◌, none, some, List, [], ◌∷◌, ◌++◌, arith, leb,
  if◌then◌else◌, All, filter, ◌==◌, contains, string_eq, nat_eq, option_eq, list_eq,
}
use flight_pulse.Base.Int.{pos}
use flight_pulse.Base.Result.{Result, ok, err}
use flight_pulse.Ingestion.Schemas.{TelemetryEvent, ExtractionLogEntry}
use flight_pulse.Worker.ExtractionLog.{LogTable, LogWorld}
use flight_pulse.Worker.ExtractionLog.Once.{any_logged, run_log_jobs, LoggedOnce, run_log_jobs_once}
use flight_pulse.Worker.Database.{Row, Database}
use flight_pulse.Worker.Database.Rows.{row_database}
use flight_pulse.Worker.Persistence.{
  pushed, push_raised, operational, committed, commit_raised, Faults, insert_chunk_size,
  event_to_row, persist_batch,
}
use flight_pulse.Worker.Persistence.Statement.{IsExecutable, chunks-IsExecutable}
use flight_pulse.Base.Chunks.{chunk}
use flight_pulse.Worker.Persistence.Insertion.{event_ids, no_faults, Persists, persist_batch_fine}
use flight_pulse.Worker.Persistence.Redelivery.{
  Atomic, deliver, Delivered, persist_batch-Atomic, deliver_once,
}
use flight_pulse.Worker.Processor.{Backoff, EventKey, key_eq, World, dedupe_events, prepare}
use flight_pulse.Worker.Processor.Dedupe.{first_events, DistinctKeys, keys, dedupe_events_first}
use flight_pulse.Worker.Processor.Identities.{event_ids-prepare}
use flight_pulse.Worker.Processor.Jobs.{run_jobs, Settled, run_jobs_once}
use flight_pulse.Worker.Processor.Attempts.{Attempt, run_attempts}
use flight_pulse.Worker.Processor.DeadLetters.{is_valid, letters_of, AllTold, run_attempts-letters}

abbrev event : String → String → TelemetryEvent ℕ
event icao24 ingestion_id = record {
  source = "opensky";
  icao24 = icao24;
  callsign = none;
  origin_country = none;
  time_position = none;
  last_contact = some (pos 1700000000);
  longitude = none;
  latitude = none;
  baro_altitude_m = some 0;
  geo_altitude_m = none;
  velocity_mps = none;
  true_track_deg = none;
  vertical_rate_mps = none;
  on_ground = none;
  ingested_at = "2024-01-01T00:00:00Z";
  ingestion_id = ingestion_id;
  collector_id = none;
}

abbrev batch : List (TelemetryEvent ℕ)
batch = event "4b1815" "id-2" ∷ event "3c6444" "id-1" ∷ event "4b1815" "id-3" ∷ []

abbrev rows : Database ℕ
rows = row_database

abbrev stored : List (Row ℕ)
stored = event_to_row (event "3c6444" "id-1") ∷ []

-- The first attempt commits without an answer, the second finds no connection, the third is fine.
abbrev attempts : List Faults
attempts =
    record { raises = λ _. none; commit = commit_raised operational true; push = pushed }
    ∷ record { raises = λ call. some operational; commit = committed; push = pushed }
    ∷ no_faults
    ∷ []

persist_batch_fine_example :
    (n : ℕ) × (t : List (Row ℕ)) × (persist_batch rows no_faults batch stored ≡ (ok n, t))
    × Persists rows batch stored t n
persist_batch_fine_example = persist_batch_fine rows batch stored

abbrev lost_answer : Faults
lost_answer = record { raises = λ _. none; commit = commit_raised operational true; push = pushed }

persist_batch-Atomic_example :
    Atomic rows stored
      (persist_batch rows no_faults batch stored)
      (persist_batch rows lost_answer batch stored)
persist_batch-Atomic_example = persist_batch-Atomic rows lost_answer batch stored

deliver_once_example :
    Delivered rows batch stored
      (deliver rows attempts batch stored).0
      (deliver rows attempts batch stored).1
deliver_once_example = deliver_once rows batch stored attempts

chunks-IsExecutable_example : All IsExecutable (chunk stored insert_chunk_size)
chunks-IsExecutable_example = chunks-IsExecutable stored

dedupe_events_first_example :
    (dedupe_events batch ≡ first_events [] batch)
    × DistinctKeys (keys (dedupe_events batch))
    × ((k : EventKey) → contains (keys (dedupe_events batch)) k ≡ contains (keys batch) k)
dedupe_events_first_example = dedupe_events_first batch

deduplicated : dedupe_events batch ≡ event "4b1815" "id-2" ∷ event "3c6444" "id-1" ∷ []
unfolding dedupe_events
deduplicated = refl

abbrev settings : Backoff
settings = record { base_seconds = 2; max_seconds = 60 }

abbrev at_most_zero : ℕ → Bool
at_most_zero metres = leb metres 0

-- An empty batch does not validate.
abbrev validate : List (TelemetryEvent ℕ) → Result String (List (TelemetryEvent ℕ))
validate [] = err "empty"
validate (e ∷ events) = ok (e ∷ events)

abbrev world : World rows (List (TelemetryEvent ℕ))
world = record { table = stored; dead_letters = [] }

run_jobs_once_example :
    let (results, w) = run_jobs rows validate at_most_zero settings attempts 1 batch world in
    Settled rows validate at_most_zero settings (prepare at_most_zero batch) world results w
run_jobs_once_example =
    run_jobs_once rows validate at_most_zero settings attempts 1 batch batch world refl

-- An invalid batch whose push fails after it took effect, so that arq runs it again, and a valid one.
abbrev mixed : List (Attempt (List (TelemetryEvent ℕ)))
mixed =
    record { number = 1; payload = []; faults = record no_faults { push = push_raised true } }
    ∷ record { number = 1; payload = batch; faults = no_faults }
    ∷ record { number = 2; payload = []; faults = no_faults }
    ∷ []

run_attempts-letters_example :
    let (results, w) = run_attempts rows validate at_most_zero settings mixed world in
    let valid = filter (is_valid rows validate at_most_zero settings) mixed in
    (w.dead_letters ≡ [] ++ letters_of rows validate at_most_zero settings mixed)
    × AllTold rows validate at_most_zero settings mixed results
    × (w.table ≡ (run_attempts rows validate at_most_zero settings valid world).1.table)
run_attempts-letters_example = run_attempts-letters rows validate at_most_zero settings mixed world

-- A log as the list of its entries.
abbrev log_ids : List ExtractionLogEntry → List String
log_ids [] = []
log_ids (e ∷ log) = e.request_id ∷ log_ids log

abbrev log_insert : ExtractionLogEntry → List ExtractionLogEntry → List ExtractionLogEntry
log_insert e log = if contains (log_ids log) e.request_id then log else e ∷ log

log_insert_has :
    (e : ExtractionLogEntry) (log : List ExtractionLogEntry) (i : String)
    → contains (log_ids (log_insert e log)) i ≡ (i == e.request_id || contains (log_ids log) i)
log_insert_has e log i = ground (arith, string_eq.beq_iff i e.request_id)

abbrev list_log : LogTable
list_log = record {
  Log = List ExtractionLogEntry;
  has = λ log. contains (log_ids log);
  insert = log_insert;
  insert_old = λ e log h. rw h refl;
  insert_has = log_insert_has;
}

abbrev entry : ExtractionLogEntry
entry = record {
  request_id = "r";
  source = "opensky";
  collector_id = none;
  collector_version = none;
  request_scope = none;
  extraction_started_at = "t1";
  extraction_completed_at = none;
  source_observation_time = none;
  record_count = some (pos 2);
  success = true;
  error_message = none;
}

abbrev log_world : LogWorld list_log ExtractionLogEntry
log_world = record { log = []; dead_letters = [] }

run_log_jobs_once_example :
    LoggedOnce list_log
      (λ e. ok e)
      settings
      entry
      log_world
      (any_logged (run_log_jobs list_log (λ e. ok e) settings attempts 1 entry log_world).0)
      (run_log_jobs list_log (λ e. ok e) settings attempts 1 entry log_world).1
run_log_jobs_once_example =
    run_log_jobs_once list_log (λ e. ok e) settings attempts 1 entry entry log_world refl

-- An id that the key decides.
abbrev id_of : EventKey → String
id_of k = k.icao24

event_ids-prepare_example :
    contains
      (event_ids (prepare at_most_zero (event "b" "b" ∷ event "a" "a" ∷ event "b" "b" ∷ [])))
      "a"
    ≡ true
event_ids-prepare_example =
    event_ids-prepare id_of at_most_zero (event "b" "b" ∷ event "a" "a" ∷ event "b" "b" ∷ []) "a"
      (refl, (refl, (refl, tt)))
