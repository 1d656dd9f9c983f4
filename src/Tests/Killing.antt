-- ===== src/Tests/Killing.antt =====
-- The worker scenario of replay/fault_injection.py against the worker.
use mathlib.Core.List.{Perm}
use mathlib.Core.List.Perm
use mathlib.Core.Path.{subst}
use flight_pulse.Base.Chunks.{chunk}
use flight_pulse.Base.Sorting.{sort_by}
use flight_pulse.Base.{
  ℕ, ◌+◌, ◌-◌, ◌≤◌, ◌<◌, String, ◌≡◌, refl, sym, ap, Bool, true, false, none, some, List, [], ◌∷◌,
  arith, ltb, leb, if◌then◌else◌, take, drop, string_eq, nat_eq, option_eq, list_eq,
}
use flight_pulse.Base.Result.{Result, ok, err}
use flight_pulse.Ingestion.Schemas.{TelemetryEvent}
use flight_pulse.Worker.Database.{Database}
use flight_pulse.Worker.Database.Rows.{row_database, insert_rows}
use flight_pulse.Worker.Persistence.{pushed, operational, commit_raised, Faults, persist_batch}
use flight_pulse.Worker.Persistence.Insertion.{no_faults}
use flight_pulse.Worker.Processor.{
  Backoff, World, process_telemetry_batch, job_result, prepare, dedupe_events, normalize_event,
}
use flight_pulse.Replay.FaultInjection.WorkerFailure as Killing
use flight_pulse.Replay.FaultInjection.WorkerFailure.{
  max_expected_recovery, process, StoredResult, Stored, datetime, stored, sum_newly_inserted_since,
  RedisError,
}
use flight_pulse.Replay.FaultInjection.WorkerFailure.Outcome as WorkerOutcome
use flight_pulse.Worker.Processor.Attempts.{Attempt, run_attempts}
use flight_pulse.Replay.FaultInjection.WorkerFailure.Accounting.{
  Recorded, none_left, recorded, unrecorded, earlier, completions, sum_newly_inserted_since-le,
}
use flight_pulse.Replay.FaultInjection.WorkerFailure.Gaps.{
  GapIsLate, CountsRows, KeepsResults, run_worker_failure_scenario-GapIsLate,
}
use flight_pulse.Tests.Faulting.{clock, ticks}

abbrev event : String → TelemetryEvent ℕ
event ingestion_id = record {
  source = "opensky";
  icao24 = ingestion_id;
  callsign = none;
  origin_country = none;
  time_position = none;
  last_contact = none;
  longitude = none;
  latitude = none;
  baro_altitude_m = none;
  geo_altitude_m = none;
  velocity_mps = none;
  true_track_deg = none;
  vertical_rate_mps = none;
  on_ground = none;
  ingested_at = "2024-01-01T00:00:00Z";
  ingestion_id = ingestion_id;
  collector_id = none;
}

abbrev rows : Database ℕ
rows = row_database

abbrev validate : List (TelemetryEvent ℕ) → Result String (List (TelemetryEvent ℕ))
validate events = ok events

abbrev at_most_zero : ℕ → Bool
at_most_zero metres = leb metres 0

abbrev backoff : Backoff
backoff = record { base_seconds = 2; max_seconds = 60 }

abbrev world : World rows (List (TelemetryEvent ℕ))
world = record { table = []; dead_letters = [] }

abbrev lost_answer : Faults
lost_answer = record { raises = λ _. none; commit = commit_raised operational true; push = pushed }

-- The commit of the first job's first attempt is not answered, so its retry finds no new row.
abbrev attempts : List (Attempt (List (TelemetryEvent ℕ)))
attempts =
    record { number = 1; payload = event "id-1" ∷ []; faults = lost_answer }
    ∷ record { number = 1; payload = event "id-2" ∷ []; faults = no_faults }
    ∷ record { number = 2; payload = event "id-1" ∷ []; faults = no_faults }
    ∷ []

-- A machine whose time zone is UTC.
abbrev utc : ℕ → ℕ
utc t = t

abbrev value : ℕ → Stored
value n = stored (record { finish_time = datetime 5000; newly_inserted = some n })

-- From before the start, at 2000.
abbrev stale : ℕ → Stored
stale n = stored (record { finish_time = datetime 1000; newly_inserted = some n })

abbrev results : List Stored
results = value 1 ∷ value 0 ∷ stale 7 ∷ []

kept : Recorded utc 2000 (run_attempts rows validate at_most_zero backoff attempts world).0 results
unfolding run_attempts process_telemetry_batch job_result persist_batch prepare dedupe_events chunk
    sort_by insert_rows normalize_event
kept = unrecorded (
    recorded (datetime 5000)
      (recorded (datetime 5000) (earlier (datetime 1000) (some 7) (omega arith) none_left)))

two_rows : rows.size (run_attempts rows validate at_most_zero backoff attempts world).1.table ≡ 2
unfolding run_attempts process_telemetry_batch persist_batch prepare dedupe_events chunk sort_by
    insert_rows normalize_event
two_rows = refl

sum_newly_inserted_since-le_example :
    let (rs, w) = run_attempts rows validate at_most_zero backoff attempts world in
    let (jobs, inserted) = sum_newly_inserted_since utc results 2000 in
    (jobs ≤ completions rs) × (rows.size world.table + inserted ≤ rows.size w.table)
sum_newly_inserted_since-le_example =
    sum_newly_inserted_since-le rows validate at_most_zero backoff attempts world results results
      utc 2000 kept (Perm.refl results)

abbrev killing : Killing.Setting
killing = record {
  processes =
      process 11 (some ("arq" ∷ "worker.consumer.WorkerSettings" ∷ []))
      ∷ process 12 none
      ∷ process 13 (some ("arq" ∷ "worker.consumer.WorkerSettings" ∷ []))
      ∷ [];
  psutil_raises = λ pid. false;
  baseline_count = some 0;
  scenario_start_epoch = 2000;
  timestamp = utc;
  in_progress_clock = clock 100;
  in_progress_keys = λ n. ok (if ltb n 2 then [] else "arq:in-progress:1" ∷ []);
  clock = clock 5000;
  count_before = some 0;
  count = λ n. some 2;
  result_keys = λ n. ok results;
  batches_sent = λ n. some 2;
  batches_reported = some 2;
  job_timeout_seconds = 90;
}

early : killing.clock.test 0 < Killing.watch_timeout killing
unfolding max_expected_recovery
early = omega arith

run_worker_failure_scenario-Judged_example :
    (r : Killing.Scenario) × (Killing.run_worker_failure_scenario killing 20000 ≡ some r)
    × WorkerOutcome.Judged killing 20000 r
run_worker_failure_scenario-Judged_example =
    WorkerOutcome.run_worker_failure_scenario-Judged killing 20000 (ticks 100) (ticks 5000) early

-- The last attempt ends between the two reads of each round: its result is of no new row.
abbrev early_attempts : List (Attempt (List (TelemetryEvent ℕ)))
early_attempts = take 2 attempts

abbrev late_attempts : List (Attempt (List (TelemetryEvent ℕ)))
late_attempts = drop 2 attempts

early_rows :
    rows.size (run_attempts rows validate at_most_zero backoff early_attempts world).1.table ≡ 2
unfolding run_attempts process_telemetry_batch persist_batch prepare dedupe_events chunk sort_by
    insert_rows normalize_event
early_rows = refl

counts :
    CountsRows rows validate at_most_zero backoff killing 20000 world
      (λ m. early_attempts)
      (λ m. late_attempts)
counts = record { baseline = refl; rounds = λ m. ap (λ n. some n) (sym early_rows) }

abbrev keys_of : Result RedisError (List Stored) → List Stored
keys_of (ok keys) = keys
keys_of (err e) = []

results_kept :
    KeepsResults rows validate at_most_zero backoff killing 20000 world
      (λ m. early_attempts)
      (λ m. late_attempts)
results_kept m keys read =
    (results, kept, subst (λ l. Perm l results) (ap keys_of read) (Perm.refl results))

run_worker_failure_scenario-GapIsLate_example :
    (r : Killing.Scenario) × (Killing.run_worker_failure_scenario killing 20000 ≡ some r)
    × GapIsLate rows validate at_most_zero backoff killing 20000 world
        (λ m. early_attempts)
        (λ m. late_attempts)
        r
run_worker_failure_scenario-GapIsLate_example =
    run_worker_failure_scenario-GapIsLate rows validate at_most_zero backoff killing 20000 world
      (λ m. early_attempts) (λ m. late_attempts) counts results_kept (ticks 100) (ticks 5000) early

-- Where the clock shows four seconds more than UTC, the results of this run are read as of before the start.
none_counted : sum_newly_inserted_since (λ t. t - 4000) results 2000 ≡ (0, 0)
unfolding sum_newly_inserted_since
none_counted = refl

counted_in_utc : sum_newly_inserted_since utc results 2000 ≡ (2, 1)
unfolding sum_newly_inserted_since
counted_in_utc = refl
