-- ===== src/Worker/Processor/Jobs.antt =====
-- Jobs of worker/processor.py under arq's at-least-once delivery: a job may run any number of
-- times, each with the faults of its own attempt.
use mathlib.Core.Path.{subst}
use flight_pulse.Base.{
  ℕ, ◌+◌, ◌≤◌, String, ◌≡◌, refl, sym, ap, ◌∙◌, ◌⊎◌, inl, inr, Bool, true, false, List, [], ◌∷◌,
  arith, length, string_eq, nat_eq, option_eq, list_eq,
}
use flight_pulse.Base.Result.{Result, ok, err}
use flight_pulse.Ingestion.Schemas.{TelemetryEvent}
use flight_pulse.Worker.Database.{Database}
use flight_pulse.Worker.Persistence.{PersistError, unavailable, uncaught, Faults, persist_batch}
use flight_pulse.Worker.Persistence.Redelivery.{
  deliver, all_reported, any_returned, fresh, IsStored, deliver_once,
}
use flight_pulse.Worker.Processor.{
  key_eq, Backoff, JobResult, completed, World, job_result, prepare, process_telemetry_batch,
}

-- The rows that a job reports as new, and whether any job completed.
abbrev pub newly_inserted : List JobResult → ℕ
newly_inserted [] = 0
newly_inserted (completed _ n ∷ results) = n + newly_inserted results
newly_inserted (_ ∷ results) = newly_inserted results

abbrev pub any_completed : List JobResult → Bool
any_completed [] = false
any_completed (completed _ _ ∷ results) = true
any_completed (_ ∷ results) = any_completed results

module _ {F P : Type 0} (db : Database F) (validate : P → Result String (List (TelemetryEvent F)))
    (at_most_zero : F → Bool) (settings : Backoff) where
  -- Attempts from number `attempt` on.
  unfoldable pub run_jobs : List Faults → ℕ → P → World db P → List JobResult × World db P
  run_jobs [] attempt payload w = ([], w)
  run_jobs (faults ∷ more) attempt payload w =
      let (result, w') =
        process_telemetry_batch db validate at_most_zero settings faults attempt payload w in
      let (results, w'') = run_jobs more (attempt + 1) payload w' in (result ∷ results, w'')

  -- The result of an attempt, by what `persist_batch` did.
  abbrev results_of : ℕ → ℕ → List (Result PersistError ℕ) → List JobResult
  results_of attempt accepted [] = []
  results_of attempt accepted (r ∷ rs) =
      job_result settings attempt accepted r ∷ results_of (attempt + 1) accepted rs

  pub process_valid :
      (faults : Faults) (attempt : ℕ) (payload : P) (events : List (TelemetryEvent F))
      (w : World db P)
      → validate payload ≡ ok events
      → let deduped = prepare at_most_zero events in
        let (r, t) = persist_batch db faults deduped w.table in
        process_telemetry_batch db validate at_most_zero settings faults attempt payload w
        ≡ (job_result settings attempt (length deduped) r, record w { table = t })
  unfolding process_telemetry_batch
  process_valid faults attempt payload events w valid = rw (valid, process_telemetry_batch) refl

  run_valid :
      (attempts : List Faults) (attempt : ℕ) (payload : P) (events : List (TelemetryEvent F))
      (w : World db P)
      → validate payload ≡ ok events
      → let deduped = prepare at_most_zero events in
        let (rs, t) = deliver db attempts deduped w.table in
        run_jobs attempts attempt payload w
        ≡ (results_of attempt (length deduped) rs, record w { table = t })
  unfolding run_jobs deliver
  run_valid [] attempt payload events w valid = refl
  run_valid (faults ∷ more) attempt payload events w valid =
      let deduped = prepare at_most_zero events in
      let (r, t) = persist_batch db faults deduped w.table in
      let result = job_result settings attempt (length deduped) r in
      let w' : World db P = record w { table = t } in
      ap
        (λ (x : JobResult × World db P).
          let later = run_jobs more (attempt + 1) payload x.1 in
          let all : List JobResult × World db P = (x.0 ∷ later.0, later.1) in all)
        (process_valid faults attempt payload events w valid)
      ∙ ap
          (λ (x : List JobResult × World db P).
            let all : List JobResult × World db P = (result ∷ x.0, x.1) in all)
          (run_valid more (attempt + 1) payload events w' valid)

  newly_results :
      (rs : List (Result PersistError ℕ)) (attempt accepted : ℕ)
      → (newly_inserted (results_of attempt accepted rs) ≡ all_reported db rs)
        × (any_completed (results_of attempt accepted rs) ≡ any_returned db rs)
  unfolding job_result
  newly_results [] attempt accepted = (refl, refl)
  newly_results (ok n ∷ rs) attempt accepted =
      let (same, _) = newly_results rs (attempt + 1) accepted in (omega arith, refl)
  newly_results (err unavailable ∷ rs) attempt accepted =
      let (same, any) = newly_results rs (attempt + 1) accepted in (omega arith, any)
  newly_results (err (uncaught e) ∷ rs) attempt accepted =
      let (same, any) = newly_results rs (attempt + 1) accepted in (omega arith, any)

  abbrev pub Settled : List (TelemetryEvent F) → World db P → List JobResult → World db P → Type 0
  Settled deduped w results w' =
      (w'.dead_letters ≡ w.dead_letters)
      × (((w'.table ≡ w.table) × (any_completed results ≡ false))
          ⊎ (IsStored db deduped w.table w'.table
              × (newly_inserted results ≤ fresh db deduped w.table)))

  -- A payload that validates, run any number of times from any attempt number, whatever database
  -- calls raise each time: nothing is dead-lettered, and the deduplicated batch is stored once, or
  -- no attempt completed and nothing is stored. The numbers of new rows that the attempts report
  -- come to no more than were inserted.
  pub run_jobs_once :
      (attempts : List Faults) (attempt : ℕ) (payload : P) (events : List (TelemetryEvent F))
      (w : World db P)
      → validate payload ≡ ok events
      → let (results, w') = run_jobs attempts attempt payload w in
        Settled (prepare at_most_zero events) w results w'
  run_jobs_once attempts attempt payload events w valid =
      let deduped = prepare at_most_zero events in
      let (rs, t) = deliver db attempts deduped w.table in
      let (same, any) = newly_results rs attempt (length deduped) in
      subst (λ (x : List JobResult × World db P). Settled deduped w x.0 x.1)
        (sym (run_valid attempts attempt payload events w valid))
        (elim (deliver_once db deduped w.table attempts) [
          | inl (unchanged, none_returned, _) ↦ (refl, inl (unchanged, any ∙ none_returned))
          | inr (stored, few) ↦ (refl, inr (stored, omega arith))
        ])
