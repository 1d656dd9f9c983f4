-- ===== src/Replay/FaultInjection/WorkerFailure/Outcome.antt =====
-- How the worker scenario of replay/fault_injection.py ends.
use mathlib.Core.Option
use mathlib.Core.Path.{subst}
use flight_pulse.Base.{
  ℕ, ◌+◌, ◌/◌, ◌≤◌, ◌<◌, String, ◌≡◌, refl, sym, ap, ◌∙◌, ◌⊎◌, inl, inr, Bool, true, false, none,
  some, List, [], ◌∷◌, arith, Bool-cases, length, string_eq, nat_eq, option_eq, list_eq,
}
use flight_pulse.Base.Result.{Result, ok, err}
use flight_pulse.Replay.FaultInjection.{kill_process, Clock, Polled, found, timed_out}
use flight_pulse.Replay.FaultInjection.Polling.{Sleeps, poll-Ended, Ended}
use flight_pulse.Replay.FaultInjection.WorkerFailure.{
  RedisError, redis_error, in_progress, in_progress_result, Stored, Progress, Setting, or_none_sent,
  is_reached, look, watch_timeout, Scenario, exits, psutil_raised, redis_raised, reports, conclude,
  kill_and_watch, run_worker_failure_scenario, find_worker_pids, wait_for_in_progress_job,
}
use flight_pulse.Base.Sums.{sum}
use flight_pulse.Replay.FaultInjection.WorkerFailure.Counting.{
  tally, worth, sum_newly_inserted_since-sums,
}
use flight_pulse.Replay.FaultInjection.WorkerFailure.Verdicts.{
  Looked, Watched, Says, verdict-Says, watch_recovery-Watched,
}

idle : (keys : Result RedisError (List String)) → in_progress keys ≡ none → keys ≡ ok []
unfolding in_progress
idle (err e) nothing = absurd (cc)
idle (ok []) nothing = refl
idle (ok (key ∷ keys)) nothing = absurd (cc)

module _ (warmup : ℕ) (clock : Clock) (keys : ℕ → Result RedisError (List String)) where
  -- Whether an in-progress key was seen in time, and that Redis raised.
  abbrev pub Catches : Result RedisError Bool → Type 0
  Catches (err e) = (n : ℕ) × (keys n ≡ err redis_error)
  Catches (ok true) =
      (n : ℕ) × (key : String) × (more : List String) × (clock.test n < warmup)
      × (keys n ≡ ok (key ∷ more))
  Catches (ok false) = (n : ℕ) × ((m : ℕ) → m < n → keys m ≡ ok []) × (warmup ≤ clock.test n)

  found-Catches :
      (n : ℕ) (read : Result RedisError (List String)) (caught : Result RedisError Bool)
      → keys n ≡ read
      → clock.test n < warmup
      → in_progress read ≡ some caught
      → Catches caught
  unfolding in_progress
  found-Catches n (err redis_error) (err e) same in_time hit = (n, same)
  found-Catches n (err e) (ok b) same in_time hit = absurd (cc)
  found-Catches n (ok []) caught same in_time hit = absurd (cc)
  found-Catches n (ok (key ∷ more)) (err e) same in_time hit = absurd (cc)
  found-Catches n (ok (key ∷ more)) (ok true) same in_time hit = (n, key, more, in_time, same)
  found-Catches n (ok (key ∷ more)) (ok false) same in_time hit = absurd (cc)

  polled-Catches :
      (p : Polled (Result RedisError Bool))
      → Ended clock.test warmup (λ n. in_progress (keys n)) p
      → Catches (in_progress_result p)
  unfolding in_progress_result
  polled-Catches (found caught n) (missed, in_time, here) =
      found-Catches n (keys n) caught refl in_time here
  polled-Catches (timed_out n) (missed, over) = (n, λ m h. idle (keys m) (missed m h).1, over)

  wait_for_in_progress_job-Catches :
      Sleeps 100 clock.test
      → (r : Result RedisError Bool) × (wait_for_in_progress_job warmup clock keys ≡ some r)
        × Catches r
  unfolding wait_for_in_progress_job
  wait_for_in_progress_job-Catches sleeps =
      let (p, ran, ended) =
        poll-Ended clock.test warmup (λ n. in_progress (keys n)) 100 (warmup / 100 + 1) sleeps
          (omega arith) in
      (in_progress_result p, ap (Option.map in_progress_result) ran, polled-Catches p ended)

module _ (s : Setting) (warmup : ℕ) where
  -- What the last round, which began in time, has read and counted.
  abbrev pub Reads : ℕ → Progress → Type 0
  Reads m p =
      (s.clock.test m < watch_timeout s)
      × ((keys : List Stored) × (s.result_keys m ≡ ok keys)
          × (p.final_count ≡ s.count m)
          × (p.jobs_counted ≡ sum (tally s.timestamp s.scenario_start_epoch) keys)
          × (p.ground_truth_inserted ≡ sum (worth s.timestamp s.scenario_start_epoch) keys))

  Looked-Reads : (m : ℕ) (p : Progress) → Looked s m p → Reads m p
  unfolding look
  Looked-Reads m p (in_time, (keys, read, same)) =
      let (jobs, rows) = sum_newly_inserted_since-sums s.timestamp s.scenario_start_epoch keys in
      (
        in_time,
        (
          keys,
          read,
          ap (λ (x : Progress). x.final_count) same,
          ap (λ (x : Progress). x.jobs_counted) same ∙ jobs,
          ap (λ (x : Progress). x.ground_truth_inserted) same ∙ rows,
        ),
      )

  abbrev pub Judged : Scenario → Type 0
  Judged exits = length (find_worker_pids s.processes) < 2
  Judged psutil_raised =
      (pid : ℕ) × (more : List ℕ) × (find_worker_pids s.processes ≡ pid ∷ more)
      × (s.psutil_raises pid ≡ true)
  Judged redis_raised =
      (n : ℕ) × ((s.in_progress_keys n ≡ err redis_error) ⊎ (s.result_keys n ≡ err redis_error))
  Judged (reports r) =
      (pid : ℕ) × (survivor : ℕ) × (more : List ℕ) × (m : ℕ) × (find_worker_pids s.processes
        ≡ pid ∷ survivor ∷ more)
      × (r.killed_pid ≡ pid)
      × Catches warmup s.in_progress_clock s.in_progress_keys (ok r.caught_in_flight)
      × Reads m r.progress
      × Says r.progress s.baseline_count (s.count m) (or_none_sent (s.batches_sent m))
          (or_none_sent s.batches_reported) r.verdict

  Watched-Judged :
      (pid survivor : ℕ) (more : List ℕ) (caught : Bool) (r : Result RedisError Progress)
      → find_worker_pids s.processes ≡ pid ∷ survivor ∷ more
      → Catches warmup s.in_progress_clock s.in_progress_keys (ok caught)
      → Watched s r
      → Judged (conclude s pid caught r)
  unfolding conclude look
  Watched-Judged pid survivor more caught (err redis_error) workers catches (m, in_time, raised) =
      (m, inr raised)
  Watched-Judged pid survivor more caught (ok p) workers catches (m, looked, ended) =
      let (in_time, (keys, read, same)) = looked in
      (
        pid,
        survivor,
        more,
        m,
        workers,
        refl,
        catches,
        Looked-Reads m p looked,
        verdict-Says p s.baseline_count (s.count m) (or_none_sent (s.batches_sent m))
            (or_none_sent s.batches_reported) (ap (λ (x : Progress). x.final_count) same)
            (subst
              (λ (x : Progress).
                x.reached_target
                ≡ is_reached s.baseline_count (s.count m) x.jobs_counted x.ground_truth_inserted
                    (or_none_sent (s.batches_sent m)))
              (sym same) refl),
      )

  killed-Judged :
      (pid survivor : ℕ) (more : List ℕ) (caught : Bool)
      → find_worker_pids s.processes ≡ pid ∷ survivor ∷ more
      → Catches warmup s.in_progress_clock s.in_progress_keys (ok caught)
      → Sleeps 5000 s.clock.test
      → s.clock.test 0 < watch_timeout s
      → (r : Scenario) × (kill_and_watch s pid (ok caught) ≡ some r) × Judged r
  unfolding kill_and_watch kill_process
  killed-Judged pid survivor more caught workers catches sleeps early =
      let (r, ran, watched) = watch_recovery-Watched s sleeps early in
      elim (Bool-cases (s.psutil_raises pid)) [
        | inl raises ↦ (
          psutil_raised,
          rw (raises, kill_and_watch) refl,
          (pid, survivor ∷ more, workers, raises),
        )
        | inr dies ↦ (
          conclude s pid caught r,
          rw (dies, kill_and_watch, ran) refl,
          Watched-Judged pid survivor more caught r workers catches watched,
        )
      ]

  caught-Judged :
      (pid survivor : ℕ) (more : List ℕ) (caught : Result RedisError Bool)
      → find_worker_pids s.processes ≡ pid ∷ survivor ∷ more
      → Catches warmup s.in_progress_clock s.in_progress_keys caught
      → Sleeps 5000 s.clock.test
      → s.clock.test 0 < watch_timeout s
      → (r : Scenario) × (kill_and_watch s pid caught ≡ some r) × Judged r
  unfolding kill_and_watch
  caught-Judged pid survivor more (err e) workers (n, raised) sleeps early =
      (redis_raised, refl, (n, inl raised))
  caught-Judged pid survivor more (ok caught) workers catches sleeps early =
      killed-Judged pid survivor more caught workers catches sleeps early

  -- If the rounds of both loops take the time that they sleep, and the last loop begins in time, the
  -- worker scenario ends. It exits with fewer than two workers, and fails where psutil or Redis
  -- does. Otherwise it has killed the first worker, says truly whether a job was seen in progress
  -- before, and reports what the last round has read: the count of rows, and the number and the
  -- sum of the results of batches that have no finish time read as before the start. It says PASS if the table had the rows of before and
  -- all reported as new, or more, and no fewer results than batches the replay had then reported as
  -- sent; GAP if there were fewer rows than that; UNRESOLVED with the number of batches without a
  -- result, which is positive where the replay's summary did not change after that round; and no
  -- verdict exactly if a count of rows failed.
  pub run_worker_failure_scenario-Judged :
      Sleeps 100 s.in_progress_clock.test
      → Sleeps 5000 s.clock.test
      → s.clock.test 0 < watch_timeout s
      → (r : Scenario) × (run_worker_failure_scenario s warmup ≡ some r) × Judged r
  unfolding run_worker_failure_scenario
  run_worker_failure_scenario-Judged sleeps sleeps' early =
      by_workers (find_worker_pids s.processes) refl
    where
      by_workers :
          (pids : List ℕ)
          → find_worker_pids s.processes ≡ pids
          → (r : Scenario) × (run_worker_failure_scenario s warmup ≡ some r) × Judged r
      by_workers [] workers =
          (exits, rw (workers, run_worker_failure_scenario) refl, rw workers (omega arith))
      by_workers (pid ∷ []) workers =
          (exits, rw (workers, run_worker_failure_scenario) refl, rw workers (omega arith))
      by_workers (pid ∷ survivor ∷ more) workers =
          let (caught, waited, catches) =
            wait_for_in_progress_job-Catches warmup s.in_progress_clock s.in_progress_keys sleeps in
          let (r, ran, judged) =
            caught-Judged pid survivor more caught workers catches sleeps' early in
          (r, rw (workers, run_worker_failure_scenario, waited) ran, judged)
