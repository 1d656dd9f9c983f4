-- ===== src/Replay/FaultInjection/WorkerFailure.antt =====
-- The scenario of replay/fault_injection.py in which an arq worker is killed while it runs a job.
pub mod Counting
pub mod Verdicts
pub mod Accounting
pub mod Gaps
pub mod Outcome
use mathlib.Core.Option
use flight_pulse.Base.Optional.{◌>>=◌}
use flight_pulse.Base.{
  ℕ, zero, suc, ◌+◌, ◌-◌, ◌*◌, ◌/◌, String, Bool, true, false, ◌&&◌, Option, none, some, List, [],
  ◌∷◌, ltb, leb, if◌then◌else◌, string_eq, nat_eq, option_eq, list_eq,
}
use flight_pulse.Base.Int.{ℤ, difference}
use flight_pulse.Base.Result.{Result, ok, err}
use flight_pulse.Base.Search.{is_in, join}
use flight_pulse.Replay.FaultInjection.{killed, kill_process, Clock, Polled, found, timed_out, poll}

-- A process of `psutil.process_iter`: reading it raises, or its command line may be None.
pub data Process : Type 0 where
  inaccessible : Process
  process : ℕ → Option (List String) → Process

abbrev or_empty : Option (List String) → List String
or_empty none = []
or_empty (some words) = words

unfoldable pub is_worker : Option (List String) → Bool
unfolding is_in join
is_worker cmdline =
    let line = join " " (or_empty cmdline) in is_in "worker.consumer" line && is_in "arq" line

unfoldable pub find_worker_pids : List Process → List ℕ
unfolding is_worker
find_worker_pids [] = []
find_worker_pids (inaccessible ∷ procs) = find_worker_pids procs
find_worker_pids (process pid cmdline ∷ procs) =
    if is_worker cmdline then pid ∷ find_worker_pids procs else find_worker_pids procs

-- `redis_client.keys` raised.
pub data RedisError : Type 0 where
  redis_error : RedisError

-- One round of `wait_for_in_progress_job`: the keys that Redis gives.
unfoldable pub in_progress : Result RedisError (List String) → Option (Result RedisError Bool)
in_progress (err e) = some (err e)
in_progress (ok []) = none
in_progress (ok (key ∷ keys)) = some (ok true)

unfoldable pub in_progress_result : Polled (Result RedisError Bool) → Result RedisError Bool
in_progress_result (found caught n) = caught
in_progress_result (timed_out n) = ok false

-- The rounds sleep for 0.1 s.
unfoldable pub wait_for_in_progress_job :
    ℕ → Clock → (ℕ → Result RedisError (List String)) → Option (Result RedisError Bool)
unfolding in_progress in_progress_result poll
wait_for_in_progress_job timeout clock keys =
    Option.map in_progress_result
      (poll (suc (timeout / 100 + 1)) clock.test timeout (λ n. in_progress (keys n)) 0)

-- `finish_time` of a result: it has none, a naive datetime in UTC, or a number; all in
-- milliseconds.
pub data FinishTime : Type 0 where
  untimed : FinishTime
  datetime number : ℕ → FinishTime

-- A result of a job as Redis has it: the time it finished, and what its dict has at
-- `newly_inserted`, if it is a dict with that key.
pub record StoredResult : Type 0 where
  pub finish_time : FinishTime
  pub newly_inserted : Option ℕ

-- What is behind a key: reading or unpickling it raises, it is gone, or a result.
pub data Stored : Type 0 where
  unreadable : Stored
  gone : Stored
  stored : StoredResult → Stored

-- `timestamp` is the method of a naive datetime, which takes it for local time.
unfoldable pub finished_before : (ℕ → ℕ) → ℕ → FinishTime → Bool
finished_before timestamp since_epoch untimed = false
finished_before timestamp since_epoch (datetime utc) = ltb (timestamp utc) since_epoch
finished_before timestamp since_epoch (number finish_epoch) = ltb finish_epoch since_epoch

-- What a result adds to the sum, if it is counted.
unfoldable pub counted : (ℕ → ℕ) → ℕ → StoredResult → Option ℕ
unfolding finished_before
counted timestamp since_epoch result =
    if finished_before timestamp since_epoch result.finish_time then none else result.newly_inserted

-- The loop, with the jobs counted and the sum so far.
unfoldable pub count_results : (ℕ → ℕ) → ℕ → List Stored → ℕ → ℕ → ℕ × ℕ
unfolding counted
count_results timestamp since_epoch [] jobs_counted total = (jobs_counted, total)
count_results timestamp since_epoch (stored result ∷ keys) jobs_counted total =
    elim (counted timestamp since_epoch result) [
      | none ↦ count_results timestamp since_epoch keys jobs_counted total
      | some n ↦ count_results timestamp since_epoch keys (jobs_counted + 1) (total + n)
    ]
count_results timestamp since_epoch (_ ∷ keys) jobs_counted total =
    count_results timestamp since_epoch keys jobs_counted total

unfoldable pub sum_newly_inserted_since : (ℕ → ℕ) → List Stored → ℕ → ℕ × ℕ
unfolding count_results
sum_newly_inserted_since timestamp keys since_epoch = count_results timestamp since_epoch keys 0 0

-- What the loop at the end of the scenario has found.
pub record Progress : Type 0 where
  pub final_count : Option ℕ
  pub jobs_counted : ℕ
  pub ground_truth_inserted : ℕ
  pub reached_target : Bool

-- What the scenario meets. A count of rows is nothing if the query failed; `batches_sent n` is what
-- the summary of the replay has in round n of the last loop, and nothing before the replay has
-- returned; `batches_reported` is what it has after the loop. `timestamp` is that of the machine's
-- time zone.
pub record Setting : Type 0 where
  pub processes : List Process
  pub psutil_raises : ℕ → Bool
  pub baseline_count : Option ℕ
  pub scenario_start_epoch : ℕ
  pub timestamp : ℕ → ℕ
  pub in_progress_clock : Clock
  pub in_progress_keys : ℕ → Result RedisError (List String)
  pub clock : Clock
  pub count_before : Option ℕ
  pub count : ℕ → Option ℕ
  pub result_keys : ℕ → Result RedisError (List Stored)
  pub batches_sent : ℕ → Option ℕ
  pub batches_reported : Option ℕ
  pub job_timeout_seconds : ℕ

abbrev pub or_none_sent : Option ℕ → ℕ
or_none_sent none = 0
or_none_sent (some n) = n

-- The condition of `reached_target`.
unfoldable pub is_reached : Option ℕ → Option ℕ → ℕ → ℕ → ℕ → Bool
is_reached (some baseline) (some final) jobs_counted inserted sent =
    leb (baseline + inserted) final && leb sent jobs_counted
is_reached _ _ jobs_counted inserted sent = false

-- What a round leaves, with the count and the results that it read.
unfoldable pub look : Setting → ℕ → List Stored → Progress
unfolding sum_newly_inserted_since is_reached
look s n keys =
    let (jobs, inserted) = sum_newly_inserted_since s.timestamp keys s.scenario_start_epoch in
    record {
      final_count = s.count n;
      jobs_counted = jobs;
      ground_truth_inserted = inserted;
      reached_target =
          is_reached s.baseline_count (s.count n) jobs inserted (or_none_sent (s.batches_sent n));
    }

-- `break`, or the rest of the loop
unfoldable pub unless_reached :
    Progress → Option (Result RedisError Progress) → Option (Result RedisError Progress)
unless_reached q rest = elim q.reached_target [ true ↦ some (ok q) | false ↦ rest ]

-- The last loop, from round n on, with what the round before left; nothing if the fuel is used up.
unfoldable pub watch : Setting → ℕ → ℕ → ℕ → Progress → Option (Result RedisError Progress)
unfolding look unless_reached
watch s timeout zero n p = none
watch s timeout (suc fuel) n p = elim (ltb (s.clock.test n) timeout) [
  | false ↦ some (ok p)
  | true ↦ elim (s.result_keys n) [
    | err e ↦ some (err e)
    | ok keys ↦ unless_reached (look s n keys) (watch s timeout fuel (n + 1) (look s n keys))
  ]
]

-- `max_expected_recovery`
unfoldable pub max_expected_recovery : Setting → ℕ
max_expected_recovery s = s.job_timeout_seconds + 10

abbrev pub watch_timeout : Setting → ℕ
watch_timeout s = (max_expected_recovery s + 30) * 1000

unfoldable pub watch_start : Setting → Progress
watch_start s = record {
  final_count = s.count_before;
  jobs_counted = 0;
  ground_truth_inserted = 0;
  reached_target = false;
}

-- The rounds sleep for 5 s.
unfoldable pub watch_recovery : Setting → Option (Result RedisError Progress)
unfolding watch max_expected_recovery watch_start
watch_recovery s = watch s (watch_timeout s) (suc (watch_timeout s / 5000 + 1)) 0 (watch_start s)

-- What is printed last; `unresolved` has the number of batches that it calls without a result.
pub data Verdict : Type 0 where
  pass : Verdict
  gap : ℕ → ℕ → Verdict
  unresolved : ℤ → Verdict

unfoldable pub verdict : Option ℕ → Progress → ℕ → Option Verdict
unfolding difference
verdict baseline p sent = elim baseline [
  | none ↦ none
  | some before ↦ elim p.final_count [
    | none ↦ none
    | some final ↦
        let expected = before + p.ground_truth_inserted in
        some (
          if p.reached_target
          then pass
          else if ltb final expected
          then gap final expected
          else unresolved (difference sent p.jobs_counted))
  ]
]

-- The batches without a recorded result, if there are any.
unfoldable pub missing_jobs : ℕ → ℕ → Option ℕ
missing_jobs jobs_counted sent = if ltb jobs_counted sent then some (sent - jobs_counted) else none

pub record Report : Type 0 where
  pub killed_pid : ℕ
  pub caught_in_flight : Bool
  pub progress : Progress
  pub missing : Option ℕ
  pub verdict : Option Verdict

-- `sys.exit(1)`, an exception of psutil or of Redis, or what is printed.
pub data Scenario : Type 0 where
  exits : Scenario
  psutil_raised : Scenario
  redis_raised : Scenario
  reports : Report → Scenario

unfoldable pub conclude : Setting → ℕ → Bool → Result RedisError Progress → Scenario
unfolding verdict missing_jobs
conclude s pid caught (err e) = redis_raised
conclude s pid caught (ok p) =
    let sent = or_none_sent s.batches_reported in
    reports (record {
      killed_pid = pid;
      caught_in_flight = caught;
      progress = p;
      missing = missing_jobs p.jobs_counted sent;
      verdict = verdict s.baseline_count p sent;
    })

-- From the kill on.
unfoldable pub kill_and_watch : Setting → ℕ → Result RedisError Bool → Option Scenario
unfolding kill_process watch_recovery conclude
kill_and_watch s pid (err e) = some redis_raised
kill_and_watch s pid (ok caught) = elim (kill_process s.psutil_raises pid) [
  | killed target_pid ↦ Option.map (conclude s target_pid caught) (watch_recovery s)
  | _ ↦ some psutil_raised
]

unfoldable pub run_worker_failure_scenario : Setting → ℕ → Option Scenario
unfolding find_worker_pids wait_for_in_progress_job kill_and_watch
run_worker_failure_scenario s warmup = elim (find_worker_pids s.processes) [
  | [] ↦ some exits
  | _ ∷ [] ↦ some exits
  | target_pid ∷ _ ∷ _ ↦ do
    caught ← wait_for_in_progress_job warmup s.in_progress_clock s.in_progress_keys
    kill_and_watch s target_pid caught
]
