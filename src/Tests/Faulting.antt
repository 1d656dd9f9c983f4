-- ===== src/Tests/Faulting.antt =====
-- replay/fault_injection.py, but the worker scenario, against small systems. A clock ticks once a round.

use flight_pulse.Base.{
  ℕ, ◌+◌, ◌*◌, String, ◌≡◌, refl, Bool, true, false, none, some, List, [], ◌∷◌, arith, ltb,
  if◌then◌else◌, All, ◌==◌, string_eq, nat_eq, option_eq, list_eq,
}
use flight_pulse.Base.Dict.{lookup, insert}
use flight_pulse.LoadBalancer.Metrics.{Metrics, new_metrics}
use flight_pulse.LoadBalancer.Metrics.Counters.{Recording, request, failed_check, record_all}
use flight_pulse.LoadBalancer.Health.{new_checker, healthy_backends, mark_unhealthy}
use flight_pulse.LoadBalancer.Health.Invariant.{new_checker-IsValid}
use flight_pulse.LoadBalancer.Router.{next_backend}
use flight_pulse.Base.Text.{lower}
use flight_pulse.LoadBalancer.Server.{
  Balancer, response, failed, is_safe_to_retry, strip_headers, background,
}
use flight_pulse.LoadBalancer.Server.Proxy.{proxy, attempts_allowed, retryable, Setting as Routing}
use flight_pulse.LoadBalancer.Server.Proxy.Replies.{WellFormed}
use flight_pulse.Replay.FaultInjection.{
  HttpReply, request_error, answered, fetch_json, LbStatus, Clock, wait_for_backend_state,
}
use flight_pulse.Replay.FaultInjection.Polling.{Waits, Sleeps, wait_for_backend_state-Waits}
use flight_pulse.Replay.FaultInjection.ApiFailure as Api
use flight_pulse.Replay.FaultInjection.ApiFailure.Outcome as ApiOutcome
use flight_pulse.Replay.FaultInjection.ApiFailure.Differences.{
  counts_of, deltas_counted, deltas_of-recorded,
}
use flight_pulse.Replay.FaultInjection.RedisFailure as Stopping
use flight_pulse.Replay.FaultInjection.RedisFailure.Outcome as RedisOutcome
use flight_pulse.Replay.FaultInjection.RedisFailure.Visible.{
  probe_of, IsServerError, Passed, outage-Passed,
}

abbrev url : String
url = "http://localhost:8002"

-- A clock whose rounds take the given time.
abbrev pub clock : ℕ → Clock
clock interval = record { test = λ n. n * interval; end = λ n. n * interval + 1 }

pub ticks : (interval : ℕ) → Sleeps interval (clock interval).test
ticks interval n = omega (arith, suc_times n interval)
  where
    suc_times : (n k : ℕ) → n * k + k ≡ (n + 1) * k
    suc_times n k = grind arith

-- The backend is down for three rounds.
abbrev status : ℕ → HttpReply LbStatus
status n = if ltb n 3 then request_error else answered 200 (some ((url, "HEALTHY") ∷ []))

wait_for_backend_state-Waits_example :
    (reached : Bool) × (elapsed : ℕ) × (wait_for_backend_state url
        ("HEALTHY" ∷ [])
        60000
        (clock 2000)
        status
      ≡ some (reached, elapsed))
    × Waits url ("HEALTHY" ∷ []) 60000 (clock 2000) status reached elapsed
wait_for_backend_state-Waits_example =
    wait_for_backend_state-Waits url ("HEALTHY" ∷ []) 60000 (clock 2000) status (ticks 2000)

waited_three_rounds :
    wait_for_backend_state url ("HEALTHY" ∷ []) 60000 (clock 2000) status ≡ some (true, 6001)
unfolding wait_for_backend_state
waited_three_rounds = refl

abbrev api : Api.Setting
api = record {
  backend_urls = "http://localhost:8001" ∷ url ∷ [];
  connections =
      record { port = none; listening = false; pid = none }
      ∷ record { port = some 8002; listening = true; pid = some 71 }
      ∷ [];
  psutil_raises = λ pid. false;
  baseline = request_error;
  after_recovery = request_error;
  recovering_clock = clock 2000;
  recovering_status = status;
  healthy_clock = clock 2000;
  healthy_status = status;
  replay_summary = none;
}

run_scenario-Judged_example :
    (r : Api.Scenario) × (Api.run_scenario api 8002 ≡ some r) × ApiOutcome.Judged api 8002 r
run_scenario-Judged_example = ApiOutcome.run_scenario-Judged api 8002 (ticks 2000) (ticks 2000)

abbrev recordings : List (Recording ℕ)
recordings = request "a" false 7 false ∷ failed_check "a" ∷ request "b" true 3 true ∷ []

abbrev metrics : Metrics ℕ
metrics = new_metrics

deltas_of-recorded_example :
    Api.deltas_of
      (fetch_json (answered 200 (some (counts_of metrics))))
      (fetch_json (answered 200 (some (counts_of (record_all recordings metrics)))))
    ≡ some (deltas_counted recordings)
deltas_of-recorded_example = deltas_of-recorded recordings metrics

-- Two backends; the ingestion service answers 500, as an exception of its queue makes it.
abbrev balancer : Balancer ℕ
balancer = record {
  metrics = new_metrics;
  checker = new_checker ("a" ∷ "b" ∷ []) 2;
  router = record { backend_urls = "a" ∷ "b" ∷ []; position = 1 };
}

balancer-WellFormed : WellFormed balancer
balancer-WellFormed = record {
  checker = new_checker-IsValid ("a" ∷ "b" ∷ []) 2;
  router = omega arith;
}

abbrev routing : Routing ℕ
routing = record {
  zero_ms = 0;
  max_retries = 1;
  request = record {
    method = "POST";
    full_path = "telemetry";
    headers = ("Idempotency-Key", "fault-probe") ∷ [];
    query_params = [];
    body = [];
  };
  send = λ attempt o. record {
    reply = if attempt == 0 then failed else response 500 [] [];
    elapsed_ms = 5;
    checks = [];
  };
}

abbrev stopping : Stopping.Setting
stopping = record {
  runs = λ command. true;
  baseline_status = request_error;
  clock = clock 3000;
  probe = λ n. probe_of "body" (proxy routing balancer).answer;
  status_during_outage = request_error;
  recovery_probe = Stopping.timeout;
}

run_redis_failure_scenario-Judged_example :
    (r : Stopping.Scenario) × (Stopping.run_redis_failure_scenario stopping 20000 "docker" ≡ some r)
    × RedisOutcome.Judged stopping 20000 "docker" r
run_redis_failure_scenario-Judged_example =
    RedisOutcome.run_redis_failure_scenario-Judged stopping 20000 "docker" (ticks 3000)

errors : All IsServerError (proxy routing balancer).sent
unfolding proxy attempts_allowed retryable is_safe_to_retry strip_headers lower insert next_backend
    healthy_backends new_checker mark_unhealthy lookup background
errors = (tt, (omega arith, tt))

outage-Passed_example :
    (r : Stopping.Scenario) × (Stopping.run_redis_failure_scenario stopping 20000 "docker" ≡ some r)
    × Passed r
outage-Passed_example =
    outage-Passed (λ n. routing) (λ n. balancer) (λ n. "body") stopping 20000 "docker" (ticks 3000)
      (omega arith) (λ n. balancer-WellFormed) (λ n. errors) (λ n. refl)
