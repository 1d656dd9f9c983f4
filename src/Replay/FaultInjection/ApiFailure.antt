-- ===== src/Replay/FaultInjection/ApiFailure.antt =====
-- The scenario of replay/fault_injection.py in which an ingestion backend is killed and restarted
-- while a replay runs.
pub mod Targets
pub mod Outcome
pub mod Differences
use mathlib.Core.Option
use flight_pulse.Base.Optional.{◌>>=◌}
use flight_pulse.Base.{
  ℕ, String, Bool, Option, none, some, List, [], ◌∷◌, string_eq, nat_eq, option_eq, list_eq,
}
use flight_pulse.Base.Int.{ℤ, difference}
use flight_pulse.Replay.FaultInjection.{
  HttpReply, fetch_json, Connection, Killed, exited, kill_raised, killed, kill_backend, LbStatus,
  Clock, wait_for_backend_state, backend_of_port, recovery_poll_timeout,
}
use flight_pulse.Replay.Player.{Summary}

-- The counters of /lb-metrics that are read; a missing key counts as 0.
pub record Counts : Type 0 where
  pub failed_requests : ℕ
  pub retried_requests : ℕ
  pub total_requests : ℕ

-- What the scenario meets: two waits, one after the other, each with its clock and its answers.
pub record Setting : Type 0 where
  pub backend_urls : List String
  pub connections : List Connection
  pub psutil_raises : ℕ → Bool
  pub baseline : HttpReply Counts
  pub after_recovery : HttpReply Counts
  pub recovering_clock : Clock
  pub recovering_status : ℕ → HttpReply LbStatus
  pub healthy_clock : Clock
  pub healthy_status : ℕ → HttpReply LbStatus
  -- the background replay, if it has returned by then
  pub replay_summary : Option Summary

pub record Deltas : Type 0 where
  pub total_delta : ℤ
  pub failed_delta : ℤ
  pub retried_delta : ℤ

pub record Report : Type 0 where
  pub reached_recovering : Bool
  pub t_to_recovering : ℕ
  pub reached_healthy : Bool
  pub t_to_healthy : ℕ
  pub replay_summary : Option Summary
  pub deltas : Option Deltas

-- `sys.exit(1)`, an exception of psutil, or what is printed.
pub data Scenario : Type 0 where
  exits : Scenario
  raises : Scenario
  reports : ℕ → Report → Scenario

-- `if baseline and after_recovery:`
unfoldable pub deltas_of : Option Counts → Option Counts → Option Deltas
unfolding difference
deltas_of (some before) (some after) = some (record {
  total_delta = difference after.total_requests before.total_requests;
  failed_delta = difference after.failed_requests before.failed_requests;
  retried_delta = difference after.retried_requests before.retried_requests;
})
deltas_of _ _ = none

-- From the restart of the backend on; nothing if a wait runs out of rounds.
unfoldable pub measure_recovery : Setting → String → Option Report
unfolding wait_for_backend_state deltas_of fetch_json
measure_recovery s backend_url = do
  recovering ←
      wait_for_backend_state backend_url ("RECOVERING" ∷ "HEALTHY" ∷ []) recovery_poll_timeout
        s.recovering_clock s.recovering_status
  healthy ←
      wait_for_backend_state backend_url ("HEALTHY" ∷ []) recovery_poll_timeout s.healthy_clock
        s.healthy_status
  some (record {
    reached_recovering = recovering.0;
    t_to_recovering = recovering.1;
    reached_healthy = healthy.0;
    t_to_healthy = healthy.1;
    replay_summary = s.replay_summary;
    deltas = deltas_of (fetch_json s.baseline) (fetch_json s.after_recovery);
  })

unfoldable pub after_kill : Setting → String → Killed → Option Scenario
unfolding measure_recovery
after_kill s backend_url exited = some exits
after_kill s backend_url (kill_raised pid) = some raises
after_kill s backend_url (killed pid) = Option.map (reports pid) (measure_recovery s backend_url)

unfoldable pub run_scenario : Setting → ℕ → Option Scenario
unfolding backend_of_port kill_backend after_kill
run_scenario s port = elim (backend_of_port port s.backend_urls) [
  | none ↦ some exits
  | some backend_url ↦ after_kill s backend_url (kill_backend port s.connections s.psutil_raises)
]
