-- ===== src/Replay/FaultInjection/RedisFailure.antt =====
-- The scenario of replay/fault_injection.py in which Redis is stopped.
pub mod Outcome
pub mod Visible
use mathlib.Core.Option
use flight_pulse.Base.Optional.{◌>>=◌}
use flight_pulse.Base.{
  any, ℕ, zero, suc, ◌+◌, ◌/◌, String, Bool, true, false, ◌&&◌, ◌||◌, Option, none, some, List, [],
  ◌∷◌, ltb, leb, if◌then◌else◌, ◌==◌, string_eq, nat_eq, option_eq, list_eq,
}
use flight_pulse.Base.Dict.{lookup}
use flight_pulse.Replay.FaultInjection.{HttpReply, fetch_json, LbStatus, Clock}

-- What a POST to /telemetry comes to, without the times that are printed: a response with its
-- status and the start of its body, `requests.Timeout`, or another `RequestException`.
pub data Probe : Type 0 where
  response : ℕ → String → Probe
  timeout : Probe
  exception : String → String → Probe

-- REDIS_CONTAINER_NAME, REDIS_SYSTEMD_SERVICE
abbrev pub redis_container_name : String
redis_container_name = "flightpulse-redis"

abbrev pub redis_systemd_service : String
redis_systemd_service = "redis-server"

-- The command of `redis_stop` and `redis_start`; nothing is a `ValueError`.
unfoldable pub redis_stop : String → Option (List String)
redis_stop method =
    if method == "docker"
    then some ("docker" ∷ "stop" ∷ redis_container_name ∷ [])
    else if method == "systemd"
    then some ("wsl.exe" ∷ "sudo" ∷ "systemctl" ∷ "stop" ∷ redis_systemd_service ∷ [])
    else none

unfoldable pub redis_start : String → Option (List String)
redis_start method =
    if method == "docker"
    then some ("docker" ∷ "start" ∷ redis_container_name ∷ [])
    else if method == "systemd"
    then some ("wsl.exe" ∷ "sudo" ∷ "systemctl" ∷ "start" ∷ redis_systemd_service ∷ [])
    else none

-- The loop that probes during the outage, from round n on; nothing if the fuel is used up.
unfoldable pub probe_outage : ℕ → ℕ → (ℕ → ℕ) → (ℕ → Probe) → ℕ → Option (List Probe)
probe_outage zero downtime test probe n = none
probe_outage (suc fuel) downtime test probe n = elim (ltb (test n) downtime) [
  | false ↦ some []
  | true ↦ Option.map (◌∷◌ (probe n)) (probe_outage fuel downtime test probe (n + 1))
]

unfoldable pub is_success : Probe → Bool
is_success (response status body) = leb 200 status && ltb status 300
is_success _ = false

unfoldable pub is_visible_failure : Probe → Bool
is_visible_failure (response status body) = leb 500 status
is_visible_failure _ = true

-- The loop over the states during the outage.
unfoldable pub marked_down : LbStatus → LbStatus → Bool
unfolding lookup
marked_down before [] = false
marked_down before ((backend, state) ∷ during) =
    (lookup backend before == some "HEALTHY" && state == "UNHEALTHY") || marked_down before during

unfoldable pub backend_falsely_unhealthy : Option LbStatus → Option LbStatus → Bool
unfolding marked_down
backend_falsely_unhealthy (some before) (some during) = marked_down before during
backend_falsely_unhealthy _ _ = false

pub data Verdict : Type 0 where
  fail pass inconclusive : Verdict

unfoldable pub verdict : List Probe → Verdict
unfolding is_success is_visible_failure
verdict probes =
    if any is_success probes
    then fail
    else if any is_visible_failure probes
    then pass
    else inconclusive

-- What the scenario meets: `runs` tells whether a command ends well, since `check=True` raises
-- otherwise.
pub record Setting : Type 0 where
  pub runs : List String → Bool
  pub baseline_status : HttpReply LbStatus
  pub clock : Clock
  pub probe : ℕ → Probe
  pub status_during_outage : HttpReply LbStatus
  pub recovery_probe : Probe

pub record Report : Type 0 where
  pub probes_during_outage : List Probe
  pub silent_success : Bool
  pub got_visible_failure : Bool
  pub falsely_unhealthy : Bool
  pub recovered_cleanly : Bool
  pub verdict : Verdict

-- An exception of the method's name or of its command, or what is printed.
pub data Scenario : Type 0 where
  unknown_method : Scenario
  command_failed : List String → Scenario
  reports : Report → Scenario

unfoldable pub report_of : Setting → List Probe → Report
unfolding is_success is_visible_failure backend_falsely_unhealthy fetch_json verdict
report_of s probes = record {
  probes_during_outage = probes;
  silent_success = any is_success probes;
  got_visible_failure = any is_visible_failure probes;
  falsely_unhealthy =
      backend_falsely_unhealthy (fetch_json s.baseline_status) (fetch_json s.status_during_outage);
  recovered_cleanly = is_success s.recovery_probe;
  verdict = verdict probes;
}

-- A command is run, and what follows it.
unfoldable pub run_command : Setting → Option (List String) → Option Scenario → Option Scenario
run_command s none next = some unknown_method
run_command s (some command) next = if s.runs command then next else some (command_failed command)

-- The rounds sleep for 3 s.
unfoldable pub run_redis_failure_scenario : Setting → ℕ → String → Option Scenario
unfolding redis_stop redis_start run_command probe_outage report_of
run_redis_failure_scenario s downtime method = run_command s (redis_stop method) (do
  probes ← probe_outage (suc (downtime / 3000 + 1)) downtime s.clock.test s.probe 0
  run_command s (redis_start method) (some (reports (report_of s probes))))
