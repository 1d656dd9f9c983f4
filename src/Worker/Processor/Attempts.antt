-- ===== src/Worker/Processor/Attempts.antt =====
-- Attempts at any jobs of worker/processor.py, one after the other.
use flight_pulse.Base.{ℕ, String, Bool, List, [], ◌∷◌, string_eq, nat_eq, option_eq, list_eq}
use flight_pulse.Base.Result.{Result}
use flight_pulse.Ingestion.Schemas.{TelemetryEvent}
use flight_pulse.Worker.Database.{Database}
use flight_pulse.Worker.Persistence.{Faults}
use flight_pulse.Worker.Processor.{Backoff, JobResult, World, process_telemetry_batch}

-- An attempt at a job: its number, its payload and its faults.
pub record Attempt (P : Type 0) : Type 0 where
  pub number : ℕ
  pub payload : P
  pub faults : Faults

module _ {F P : Type 0} (db : Database F) (validate : P → Result String (List (TelemetryEvent F)))
    (at_most_zero : F → Bool) (settings : Backoff) where
  abbrev pub run_one : Attempt P → World db P → JobResult × World db P
  run_one a w =
      process_telemetry_batch db validate at_most_zero settings a.faults a.number a.payload w

  -- Attempts at any jobs, in the order in which they reach the database.
  unfoldable pub run_attempts : List (Attempt P) → World db P → List JobResult × World db P
  run_attempts [] w = ([], w)
  run_attempts (a ∷ more) w =
      let (result, w') =
        process_telemetry_batch db validate at_most_zero settings a.faults a.number a.payload w in
      let (results, w'') = run_attempts more w' in (result ∷ results, w'')
