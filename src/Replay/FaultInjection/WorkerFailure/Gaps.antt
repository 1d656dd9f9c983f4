-- ===== src/Replay/FaultInjection/WorkerFailure/Gaps.antt =====
-- The worker scenario of replay/fault_injection.py against worker/processor.py.
use mathlib.Core.List.{Perm, append-nil}
use mathlib.Core.Path.{subst}
use flight_pulse.Replay.FaultInjection.WorkerFailure.Counting.{sum_newly_inserted_since-sums}
use flight_pulse.Base.{
  ℕ, ◌≤◌, ◌<◌, String, ◌≡◌, sym, ap, ◌∙◌, ◌≢◌, Bool, some, List, [], ◌++◌, arith, string_eq, nat_eq,
  option_eq, list_eq,
}
use flight_pulse.Base.Dict.{or_zero}
use flight_pulse.Base.Result.{Result, ok}
use flight_pulse.Ingestion.Schemas.{TelemetryEvent}
use flight_pulse.Worker.Database.{Database}
use flight_pulse.Worker.Processor.{key_eq, Backoff, JobResult, World}
use flight_pulse.Replay.FaultInjection.WorkerFailure.{
  Stored, Progress, Setting, gap, Scenario, reports, exits, psutil_raised, redis_raised,
  or_none_sent, watch_timeout, run_worker_failure_scenario,
}
use flight_pulse.Replay.FaultInjection.Polling.{Sleeps}
use flight_pulse.Replay.FaultInjection.WorkerFailure.Verdicts.{Says}
use flight_pulse.Replay.FaultInjection.WorkerFailure.Outcome.{
  Judged, Reads, run_worker_failure_scenario-Judged,
}
use flight_pulse.Worker.Processor.Attempts.{Attempt, run_attempts}
use flight_pulse.Replay.FaultInjection.WorkerFailure.Accounting.{
  Recorded, sum_newly_inserted_since-le,
}

module _ {F P : Type 0} (db : Database F) (validate : P → Result String (List (TelemetryEvent F)))
    (at_most_zero : F → Bool) (settings : Backoff) where
  -- The attempts at jobs, each with its faults, from the given world.
  abbrev ran : List (Attempt P) → World db P → List JobResult × World db P
  ran = run_attempts db validate at_most_zero settings

  module _ (s : Setting) (warmup : ℕ) (w : World db P) (attempts later : ℕ → List (Attempt P)) where
    -- The rows after some of the attempts.
    abbrev size_after : List (Attempt P) → ℕ
    size_after done = db.size (ran done w).1.table

    -- The attempts that reach the table before the results of a round are read: those before its
    -- count of rows, and those between the count and the results.
    abbrev pub all_of : ℕ → List (Attempt P)
    all_of m = attempts m ++ later m

    -- The two counts of rows are those of the table, before the attempts and after those of a round.
    pub record CountsRows : Type 0 where
      pub baseline : s.baseline_count ≡ some (db.size w.table)
      pub rounds : (m : ℕ) → s.count m ≡ some (size_after (attempts m))

    -- The keys of a round hold results of its attempts, and of what was before the start.
    abbrev pub KeepsResults : Type 0
    KeepsResults =
        (m : ℕ) (keys : List Stored)
        → s.result_keys m ≡ ok keys
        → (kept : List Stored) × Recorded s.timestamp s.scenario_start_epoch (ran (all_of m) w).0
            kept
          × Perm keys kept

    -- A reported gap is between the two reads of a round.
    abbrev pub GapIsLate : Scenario → Type 0
    GapIsLate (reports r) =
        (low expected : ℕ)
        → r.verdict ≡ some (gap low expected)
        → (m : ℕ) × (low ≡ size_after (attempts m))
          × (low < expected)
          × (expected ≤ size_after (all_of m))
          × (later m ≢ [])
    GapIsLate _ = Unit

    -- A gap that is said of what was read.
    gap-late :
        (p : Progress) (m low expected : ℕ)
        → CountsRows
        → KeepsResults
        → Reads s warmup m p
        → Says p s.baseline_count
            (s.count m)
            (or_none_sent (s.batches_sent m))
            (or_none_sent s.batches_reported)
            (some (gap low expected))
        → (low ≡ size_after (attempts m)) × (low < expected) × (expected ≤ size_after (all_of m))
    gap-late p m low expected counts keeps (in_time, (keys, read, count, jobs, rows))
          (before, final, b, f, (low_is, expected_is, behind)) =
        let (kept, records, order) = keeps m keys read in
        let (_, grown) =
          sum_newly_inserted_since-le db validate at_most_zero settings (all_of m) w keys kept
            s.timestamp s.scenario_start_epoch records order in
        let (_, rows_sum) = sum_newly_inserted_since-sums s.timestamp s.scenario_start_epoch keys in
        let base = ap or_zero (sym b ∙ counts.baseline) in
        let last = ap or_zero (sym f ∙ counts.rounds m) in (omega arith, omega arith, omega arith)

    no_later :
        (m low expected : ℕ)
        → low ≡ size_after (attempts m)
        → low < expected
        → expected ≤ size_after (all_of m)
        → later m ≢ []
    no_later m low expected low_is behind fits nobody =
        let same : all_of m ≡ attempts m =
          ap (λ (l : List (Attempt P)). attempts m ++ l) nobody ∙ append-nil (attempts m) in
        absurd (omega (arith, ap size_after same))

    Judged-GapIsLate : (r : Scenario) → CountsRows → KeepsResults → Judged s warmup r → GapIsLate r
    Judged-GapIsLate exits counts keeps judged = tt
    Judged-GapIsLate psutil_raised counts keeps judged = tt
    Judged-GapIsLate redis_raised counts keeps judged = tt
    Judged-GapIsLate (reports r) counts keeps
          (pid, survivor, more, m, workers, same, catches, read, says) =
        λ low expected is_gap.
          let said =
            subst
              (Says r.progress s.baseline_count (s.count m) (or_none_sent (s.batches_sent m))
                (or_none_sent s.batches_reported))
              is_gap says in
          let (low_is, behind, fits) = gap-late r.progress m low expected counts keeps read said in
          (m, low_is, behind, fits, no_later m low expected low_is behind fits)

    -- The worker scenario against the worker itself, whatever fails in the attempts. Assumed is
    -- that nothing but attempts at jobs changes the table, that Redis keeps of each attempt at most
    -- its own result, and that a result from before the start has a finish time that is read as
    -- such. If the rounds take the time that they sleep and the last loop begins in time, the
    -- scenario ends. A verdict GAP then names the rows of the table when a round counted them, and
    -- expects more, but no more than the table had when that round read the results: it only says
    -- that attempts wrote rows between the two reads, never that a row is missing. So there is no
    -- GAP if no attempt ends between the two reads of a round.
    pub run_worker_failure_scenario-GapIsLate :
        CountsRows
        → KeepsResults
        → Sleeps 100 s.in_progress_clock.test
        → Sleeps 5000 s.clock.test
        → s.clock.test 0 < watch_timeout s
        → (r : Scenario) × (run_worker_failure_scenario s warmup ≡ some r) × GapIsLate r
    run_worker_failure_scenario-GapIsLate counts keeps sleeps sleeps' early =
        let (r, ends, judged) = run_worker_failure_scenario-Judged s warmup sleeps sleeps' early in
        (r, ends, Judged-GapIsLate r counts keeps judged)
