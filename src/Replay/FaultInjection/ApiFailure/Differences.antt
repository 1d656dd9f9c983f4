-- ===== src/Replay/FaultInjection/ApiFailure/Differences.antt =====
-- The differences that replay/fault_injection.py prints against load_balancer/metrics.py.

use flight_pulse.Base.{
  ℕ, ◌+◌, ◌≡◌, refl, Bool, true, false, not, some, List, [], ◌∷◌, arith, length, filter, string_eq,
  nat_eq, option_eq, list_eq,
}
use flight_pulse.Base.Int.{pos, difference}
use flight_pulse.LoadBalancer.Metrics.{Metrics, record_request, record_health_check_failure}
use flight_pulse.LoadBalancer.Metrics.Counters.{
  Recording, request, failed_check, record_one, record_all,
}
use flight_pulse.Replay.FaultInjection.{fetch_json, answered}
use flight_pulse.Replay.FaultInjection.ApiFailure.{Counts, Deltas, deltas_of}

difference_grown : (a b k : ℕ) → b ≡ a + k → difference b a ≡ pos k
unfolding difference
difference_grown a b k e = ground arith

module _ {F : Type 0} where
  -- What /lb-metrics answers.
  abbrev pub counts_of : Metrics F → Counts
  counts_of m = record {
    failed_requests = m.failed_requests;
    retried_requests = m.retried_requests;
    total_requests = m.total_requests;
  }

  abbrev is_request : Recording F → Bool
  is_request (request url success ms retried) = true
  is_request (failed_check url) = false

  abbrev is_failed : Recording F → Bool
  is_failed (request url success ms retried) = not success
  is_failed (failed_check url) = false

  abbrev is_retried : Recording F → Bool
  is_retried (request url success ms retried) = retried
  is_retried (failed_check url) = false

  abbrev pub deltas_counted : List (Recording F) → Deltas
  deltas_counted rs = record {
    total_delta = pos (length (filter is_request rs));
    failed_delta = pos (length (filter is_failed rs));
    retried_delta = pos (length (filter is_retried rs));
  }

  counted :
      (rs : List (Recording F)) (m : Metrics F)
      → let m' = record_all rs m in
        (m'.total_requests ≡ m.total_requests + length (filter is_request rs))
        × (m'.failed_requests ≡ m.failed_requests + length (filter is_failed rs))
        × (m'.retried_requests ≡ m.retried_requests + length (filter is_retried rs))
  unfolding record_all record_one record_request record_health_check_failure
  counted [] m = (omega arith, omega arith, omega arith)
  counted (request url true ms true ∷ rs) m =
      let (t, f, r) = counted rs (record_request url true ms true m) in
      (omega arith, omega arith, omega arith)
  counted (request url true ms false ∷ rs) m =
      let (t, f, r) = counted rs (record_request url true ms false m) in
      (omega arith, omega arith, omega arith)
  counted (request url false ms true ∷ rs) m =
      let (t, f, r) = counted rs (record_request url false ms true m) in
      (omega arith, omega arith, omega arith)
  counted (request url false ms false ∷ rs) m =
      let (t, f, r) = counted rs (record_request url false ms false m) in
      (omega arith, omega arith, omega arith)
  counted (failed_check url ∷ rs) m = counted rs (record_health_check_failure url m)

  -- The API scenario against the load balancer's metrics: if both answers of /lb-metrics are those
  -- of one load balancer, with any recordings in between, it prints how many requests were recorded
  -- in between, how many of them failed and how many were retries.
  pub deltas_of-recorded :
      (rs : List (Recording F)) (m : Metrics F)
      → deltas_of
          (fetch_json (answered 200 (some (counts_of m))))
          (fetch_json (answered 200 (some (counts_of (record_all rs m)))))
        ≡ some (deltas_counted rs)
  unfolding deltas_of fetch_json
  deltas_of-recorded rs m =
      let m' = record_all rs m in
      let (t, f, r) = counted rs m in
      rw
        (
          difference_grown m.total_requests m'.total_requests (length (filter is_request rs)) t,
          difference_grown m.failed_requests m'.failed_requests (length (filter is_failed rs)) f,
          difference_grown m.retried_requests m'.retried_requests (length (filter is_retried rs)) r,
        )
        refl
