-- ===== src/Replay/FaultInjection/WorkerFailure/Accounting.antt =====
-- The rows that replay/fault_injection.py counts against what worker/processor.py does: attempts of
-- any jobs, in any order, each with its faults.
use mathlib.Core.List.{Perm}
use flight_pulse.Base.{
  ℕ, ◌+◌, ◌≤◌, String, ◌≡◌, refl, ap, ◌∙◌, inl, inr, Bool, true, false, Option, none, some, List,
  [], ◌∷◌, arith, if◌then◌else◌, length, string_eq, nat_eq, option_eq, list_eq,
}
use flight_pulse.Base.Dict.{or_zero}
use flight_pulse.Base.Sums.{sum, sum_perm}
use flight_pulse.Base.Result.{Result, ok, err, result_cases}
use flight_pulse.Ingestion.Schemas.{TelemetryEvent}
use flight_pulse.Worker.Database.{Database}
use flight_pulse.Worker.Persistence.{PersistError, unavailable, uncaught, Faults, persist_batch}
use flight_pulse.Worker.Persistence.Insertion.{no_faults, persist_batch_fine}
use flight_pulse.Worker.Persistence.Redelivery.{Atomic, persist_batch-Atomic, reported}
use flight_pulse.Worker.Processor.{
  key_eq, Backoff, JobResult, completed, dead_lettered, retry, raised, push_failed, World,
  job_result, prepare, process_telemetry_batch,
}
use flight_pulse.Worker.Processor.Jobs.{newly_inserted}
use flight_pulse.Worker.Processor.Attempts.{Attempt}
use flight_pulse.Worker.Processor.Attempts as Attempts
use flight_pulse.Replay.FaultInjection.WorkerFailure.{
  FinishTime, untimed, datetime, number, Stored, stored, sum_newly_inserted_since,
}
use flight_pulse.Replay.FaultInjection.WorkerFailure.Counting.{
  IsStale, tally, worth, sum_newly_inserted_since-sums,
}

-- What arq stores of an attempt that ended: the dict of a completed batch has `newly_inserted`.
abbrev pub stored_value : JobResult → Option ℕ
stored_value (completed accepted n) = some n
stored_value _ = none

-- The results in Redis: of an attempt what it returned, with some finish time, or nothing; other
-- jobs' results, which count nothing; and results of batches from before the start, with finish
-- times that are read as such.
pub data Recorded (timestamp : ℕ → ℕ) (since : ℕ) : List JobResult → List Stored → Type 0 where
  none_left : Recorded timestamp since [] []
  unrecorded :
      {r : JobResult} {rs : List JobResult} {keys : List Stored}
      → Recorded timestamp since rs keys
      → Recorded timestamp since (r ∷ rs) keys
  recorded :
      {r : JobResult} {rs : List JobResult} {keys : List Stored} (finish_time : FinishTime)
      → Recorded timestamp since rs keys
      → Recorded timestamp since
          (r ∷ rs)
          (stored (record { finish_time = finish_time; newly_inserted = stored_value r }) ∷ keys)
  another :
      {rs : List JobResult} {keys : List Stored} (finish_time : FinishTime)
      → Recorded timestamp since rs keys
      → Recorded timestamp since rs
          (stored (record { finish_time = finish_time; newly_inserted = none }) ∷ keys)
  earlier :
      {rs : List JobResult} {keys : List Stored} (finish_time : FinishTime) (value : Option ℕ)
      → IsStale timestamp since finish_time
      → Recorded timestamp since rs keys
      → Recorded timestamp since rs
          (stored (record { finish_time = finish_time; newly_inserted = value }) ∷ keys)

abbrev new_of : JobResult → ℕ
new_of r = or_zero (stored_value r)

nothing_new : (returns : Bool) → new_of (if returns then dead_lettered else push_failed) ≡ 0
nothing_new true = refl
nothing_new false = refl

newly_inserted_first :
    (r : JobResult) (rs : List JobResult) → newly_inserted (r ∷ rs) ≡ new_of r + newly_inserted rs
newly_inserted_first (completed accepted n) rs = refl
newly_inserted_first dead_lettered rs = omega arith
newly_inserted_first (retry delay) rs = omega arith
newly_inserted_first (raised e) rs = omega arith
newly_inserted_first push_failed rs = omega arith

-- The attempts that completed.
abbrev completed_of : JobResult → ℕ
completed_of (completed accepted n) = 1
completed_of _ = 0

abbrev pub completions : List JobResult → ℕ
completions = sum completed_of

module _ (timestamp : ℕ → ℕ) (since : ℕ) where
  abbrev key_of : FinishTime → Option ℕ → Stored
  key_of finish_time value = stored (record { finish_time = finish_time; newly_inserted = value })

  -- A result of an attempt is counted for no more than it says.
  recorded-le :
      (finish_time : FinishTime) (r : JobResult)
      → (tally timestamp since (key_of finish_time (stored_value r)) ≤ completed_of r)
        × (worth timestamp since (key_of finish_time (stored_value r)) ≤ new_of r)
  recorded-le finish_time (completed accepted n) = (ground arith, ground arith)
  recorded-le finish_time dead_lettered = (ground arith, ground arith)
  recorded-le finish_time (retry delay) = (ground arith, ground arith)
  recorded-le finish_time (raised e) = (ground arith, ground arith)
  recorded-le finish_time push_failed = (ground arith, ground arith)

  another-counts :
      (finish_time : FinishTime)
      → (tally timestamp since (key_of finish_time none) ≡ 0)
        × (worth timestamp since (key_of finish_time none) ≡ 0)
  another-counts finish_time = (ground arith, ground arith)

  stale_counts :
      (finish_time : FinishTime) (value : Option ℕ)
      → IsStale timestamp since finish_time
      → (tally timestamp since (key_of finish_time value) ≡ 0)
        × (worth timestamp since (key_of finish_time value) ≡ 0)
  stale_counts untimed value stale = absurd stale
  stale_counts (datetime utc) value stale = (ground arith, ground arith)
  stale_counts (number epoch) value stale = (ground arith, ground arith)

  Recorded-le :
      {rs : List JobResult} {keys : List Stored}
      → Recorded timestamp since rs keys
      → (sum (tally timestamp since) keys ≤ completions rs)
        × (sum (worth timestamp since) keys ≤ newly_inserted rs)
  Recorded-le none_left = (omega arith, omega arith)
  Recorded-le (unrecorded {r = r} {rs = rs} more) =
      let (jobs, rows) = Recorded-le more in (omega arith, omega (arith, newly_inserted_first r rs))
  Recorded-le (recorded {r = r} {rs = rs} finish_time more) =
      let (jobs, rows) = Recorded-le more in
      let (one, news) = recorded-le finish_time r in
      (omega arith, omega (arith, newly_inserted_first r rs))
  Recorded-le (another finish_time more) =
      let (jobs, rows) = Recorded-le more in
      let (no_job, no_rows) = another-counts finish_time in (omega arith, omega arith)
  Recorded-le (earlier finish_time value stale more) =
      let (jobs, rows) = Recorded-le more in
      let (no_job, no_rows) = stale_counts finish_time value stale in (omega arith, omega arith)

module _ {F P : Type 0} (db : Database F) (validate : P → Result String (List (TelemetryEvent F)))
    (at_most_zero : F → Bool) (settings : Backoff) where
  abbrev run_one : Attempt P → World db P → JobResult × World db P
  run_one = Attempts.run_one db validate at_most_zero settings

  abbrev run_attempts : List (Attempt P) → World db P → List JobResult × World db P
  run_attempts = Attempts.run_attempts db validate at_most_zero settings

  outcome_grows :
      (t u : db.Table) (n : ℕ) (fine out : Result PersistError ℕ × db.Table)
      → fine ≡ (ok n, u)
      → db.size u ≡ db.size t + n
      → Atomic db t fine out
      → db.size t + reported db out.0 ≤ db.size out.1
  outcome_grows t u n fine (ok m, t') e grown same =
      let q : ◌≡◌ {A = Result PersistError ℕ × db.Table} (ok m, t') (ok n, u) = same ∙ e in
      omega (
        arith,
        ap (λ (x : Result PersistError ℕ × db.Table). db.size x.1) q,
        ap (λ (x : Result PersistError ℕ × db.Table). reported db x.0) q,
      )
  outcome_grows t u n fine (err x, t') e grown (inl same) = omega (arith, ap (λ y. db.size y) same)
  outcome_grows t u n fine (err x, t') e grown (inr same) = omega (
    arith,
    ap (λ y. db.size y) same,
    ap (λ (y : Result PersistError ℕ × db.Table). db.size y.1) e,
  )

  persist_grows :
      (faults : Faults) (events : List (TelemetryEvent F)) (t : db.Table)
      → let (r, t') = persist_batch db faults events t in db.size t + reported db r ≤ db.size t'
  persist_grows faults events t =
      let (n, u, ran, p) = persist_batch_fine db events t in
      outcome_grows t u n (persist_batch db no_faults events t) (persist_batch db faults events t)
        ran p.grown (persist_batch-Atomic db faults events t)

  new_of-job_result :
      (attempt accepted : ℕ) (r : Result PersistError ℕ)
      → new_of (job_result settings attempt accepted r) ≡ reported db r
  unfolding job_result
  new_of-job_result attempt accepted (ok n) = refl
  new_of-job_result attempt accepted (err unavailable) = refl
  new_of-job_result attempt accepted (err (uncaught e)) = refl

  attempt_grows :
      (a : Attempt P) (w : World db P)
      → let (r, w') = run_one a w in db.size w.table + new_of r ≤ db.size w'.table
  unfolding process_telemetry_batch
  attempt_grows a w = elim (result_cases (validate a.payload)) [
    | inr (reason, invalid) ↦ rw (invalid, process_telemetry_batch) (omega (arith, nothing_new _))
    | inl (events, valid) ↦
        let deduped = prepare at_most_zero events in
        let (r, t) = persist_batch db a.faults deduped w.table in
        rw (valid, process_telemetry_batch)
          (omega (
            arith,
            persist_grows a.faults deduped w.table,
            new_of-job_result a.number (length deduped) r,
          ))
  ]

  attempts_grow :
      (attempts : List (Attempt P)) (w : World db P)
      → let (rs, w') = run_attempts attempts w in
        db.size w.table + newly_inserted rs ≤ db.size w'.table
  unfolding Attempts.run_attempts
  attempts_grow [] w = omega arith
  attempts_grow (a ∷ more) w =
      let (r, w') = run_one a w in
      let (rs, w'') = run_attempts more w' in
      omega (arith, attempt_grows a w, attempts_grow more w', newly_inserted_first r rs)

  -- Attempts at any jobs, in any order and with any faults. The keys in Redis come in any order and
  -- hold, of each attempt, at most its own result, and also results of other jobs, and of batches
  -- from before the start whose finish times are read as such, by the machine's time zone. Then no
  -- more jobs are counted than attempts completed, and the sum of `newly_inserted` is no more than
  -- the rows that the table has gained in these attempts.
  pub sum_newly_inserted_since-le :
      (attempts : List (Attempt P)) (w : World db P) (keys kept : List Stored) (timestamp : ℕ → ℕ)
      (since : ℕ)
      → Recorded timestamp since (run_attempts attempts w).0 kept
      → Perm keys kept
      → let (results, w') = run_attempts attempts w in
        let (jobs, inserted) = sum_newly_inserted_since timestamp keys since in
        (jobs ≤ completions results) × (db.size w.table + inserted ≤ db.size w'.table)
  sum_newly_inserted_since-le attempts w keys kept timestamp since records order =
      let (jobs_sum, rows_sum) = sum_newly_inserted_since-sums timestamp since keys in
      let (few_jobs, few_rows) = Recorded-le timestamp since records in
      (
        omega (arith, sum_perm (tally timestamp since) order),
        omega (arith, attempts_grow attempts w, sum_perm (worth timestamp since) order),
      )
