-- ===== src/Tests/LoadBalancing.antt =====
-- load_balancer/ with the two backends `a` and `b`; latencies are whole numbers.
use flight_pulse.Base.{
  inl, inr, ℕ, zero, suc, ◌+◌, ◌*◌, ◌/◌, ◌≤◌, ◌<◌, String, ◌≡◌, refl, true, false, none, some, List,
  [], ◌∷◌, arith, if◌then◌else◌, length, contains, string_eq, nat_eq, option_eq, list_eq,
}
use flight_pulse.Base.Dict.{insert, lookup, or_zero}
use flight_pulse.Base.Sorting.{nat_ord}
use flight_pulse.LoadBalancer.Metrics.{
  Floats, Metrics, ceil_percent, new_metrics, window, last_n, percentile, sorted_latencies,
}
use flight_pulse.LoadBalancer.Metrics.Counters.{
  Recording, request, failed_check, record_all, IsConsistent, record_all-IsConsistent,
}
use flight_pulse.LoadBalancer.Metrics.History.{latencies, record_all-history}
use flight_pulse.LoadBalancer.Metrics.Percentile.{at_most, below, percentile-IsNearestRank}
use flight_pulse.LoadBalancer.Health.{
  mark_unhealthy, HealthChecker, new_checker, get_state, healthy_backends, recovering, healthy,
}
use flight_pulse.LoadBalancer.Health.Invariant.{new_checker-IsValid}
use flight_pulse.LoadBalancer.Health.History.{
  Event, checked, marked, apply_all, state_of, streak, outcomes, state_after_events,
}
use flight_pulse.LoadBalancer.Router.{RoundRobinRouter, next_backend}
use flight_pulse.LoadBalancer.Router.Queue.{Chooses, next_backend-Chooses}
use flight_pulse.Base.Text.{lower, upper}
use flight_pulse.LoadBalancer.Server.{
  is_safe_to_retry, background, strip_headers, has_header, Reply, response, failed, Balancer,
  passed_on,
}
use flight_pulse.LoadBalancer.Server.Proxy.{attempts_allowed, retryable, Setting, proxy}
use flight_pulse.LoadBalancer.Server.Proxy.Replies.{WellFormed, Good, proxy-Good}
use flight_pulse.LoadBalancer.Server.Proxy.Failover.{FailsOver, proxy-FailsOver}
use flight_pulse.LoadBalancer.Server.Proxy.Sends.{SendsRequest, unasked, proxy_sends, proxy_records}

abbrev urls : List String
urls = "a" ∷ "b" ∷ []

abbrev checker : HealthChecker
checker = new_checker urls 2

abbrev events : List Event
events =
    checked "a" false ∷ marked "b" ∷ checked "a" true ∷ checked "a" true ∷ checked "b" true ∷ []

state_after_events_example :
    (h : HealthChecker) × (apply_all events checker ≡ some h)
    × ((url : String)
        → get_state url h ≡ (
            if contains urls url
            then some (state_of 2 (streak (outcomes url events [])))
            else none))
state_after_events_example =
    state_after_events urls 2 events (refl, (refl, (refl, (refl, (refl, tt)))))

states_apart :
    (state_of 2 (streak (outcomes "a" events [])) ≡ healthy)
    × (state_of 2 (streak (outcomes "b" events [])) ≡ recovering)
states_apart = (refl, refl)

abbrev router : RoundRobinRouter
router = record { backend_urls = urls; position = 1 }

next_backend-Chooses_example :
    Chooses (healthy_backends checker) router (next_backend (some checker) router)
next_backend-Chooses_example = next_backend-Chooses checker router (omega arith)

abbrev balancer : Balancer ℕ
balancer = record { metrics = new_metrics; checker = checker; router = router }

balancer-WellFormed : WellFormed balancer
balancer-WellFormed = record { checker = new_checker-IsValid urls 2; router = omega arith }

-- The first attempt fails, the next is answered.
abbrev reply_of : ℕ → Reply
reply_of zero = failed
reply_of (suc _) =
    response 200 (("Connection", "close") ∷ ("Content-Type", "text/plain") ∷ []) (104 ∷ [])

abbrev setting : String → Setting ℕ
setting method = record {
  zero_ms = 0;
  max_retries = 1;
  request = record {
    method = method;
    full_path = "telemetry";
    headers = ("host", "lb") ∷ [];
    query_params = [];
    body = [];
  };
  send = λ attempt o. record { reply = reply_of attempt; elapsed_ms = 5; checks = [] };
}

proxy-Good_example : Good (proxy (setting "GET") balancer)
proxy-Good_example = proxy-Good (setting "GET") balancer balancer-WellFormed

proxy-FailsOver_example : FailsOver (setting "GET") (proxy (setting "GET") balancer)
proxy-FailsOver_example =
    proxy-FailsOver (setting "GET") balancer (λ attempt o. refl) balancer-WellFormed

proxy_sends_example :
    SendsRequest (setting "POST") (proxy (setting "POST") balancer).sent
    × (length (proxy (setting "POST") balancer).sent ≤ 2)
    × (false ≡ false → false ≡ false → length (proxy (setting "POST") balancer).sent ≤ 1)
unfolding upper has_header strip_headers lower
proxy_sends_example = proxy_sends (setting "POST") balancer

proxy_records_example :
    (proxy (setting "GET") balancer).balancer.metrics.total_requests
    ≡ 0
      + length (proxy (setting "GET") balancer).sent
      + unasked (proxy (setting "GET") balancer).answer
proxy_records_example = proxy_records (setting "GET") balancer balancer-WellFormed

failover_answer :
    (proxy (setting "GET") balancer).answer
    ≡ passed_on 200 (("Content-Type", "text/plain") ∷ []) (104 ∷ [])
unfolding proxy attempts_allowed retryable is_safe_to_retry next_backend healthy_backends
    new_checker insert mark_unhealthy lookup background strip_headers lower
failover_answer = refl

abbrev recordings : List (Recording ℕ)
recordings =
    request "a" true 7 false
    ∷ failed_check "b"
    ∷ request "b" false 3 true
    ∷ request "a" true 5 false
    ∷ []

record_all-history_example :
    let m = record_all recordings new_metrics in
    (m.latencies_ms ≡ last_n window (latencies recordings))
    × (or_zero (lookup "a" m.backend_selection_counts) ≡ 2)
    × (or_zero (lookup "a" m.health_check_failures) ≡ 0)
record_all-history_example = record_all-history recordings "a"

record_all-IsConsistent_example : IsConsistent (record_all recordings new_metrics)
record_all-IsConsistent_example = record_all-IsConsistent recordings

abbrev whole_sum : List ℕ → ℕ
whole_sum [] = 0
whole_sum (x ∷ xs) = x + whole_sum xs

-- Whole milliseconds in place of floats.
abbrev whole : Floats
whole = record {
  Float = ℕ;
  zero = 0;
  sum = whole_sum;
  div = λ x n. x / n;
  round2 = λ x. x;
  order = nat_ord;
}

abbrev sampled : Metrics ℕ
sampled = record {
  total_requests = 3;
  successful_requests = 3;
  failed_requests = 0;
  retried_requests = 0;
  latencies_ms = 7 ∷ 3 ∷ 5 ∷ [];
  backend_selection_counts = ("a", 3) ∷ [];
  health_check_failures = [];
}

percentile-IsNearestRank_example :
    (v : ℕ) × (percentile whole (sorted_latencies whole sampled) 95 ≡ some v)
    × (95 * 3 ≤ 100 * at_most v (sorted_latencies whole sampled))
    × (100 * below v (sorted_latencies whole sampled) < 95 * 3)
percentile-IsNearestRank_example =
    percentile-IsNearestRank whole sampled 95 (inr (inl refl)) (omega arith) (omega arith)

-- At other percentiles the doubles may round to the next rank.
seven_percent : ceil_percent 7 100 ≡ 8
unfolding ceil_percent
seven_percent = refl
