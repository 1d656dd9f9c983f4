-- ===== src/LoadBalancer/Metrics/Counters.antt =====
-- What the counters of load_balancer/metrics.py count, after any requests and failed checks.
use flight_pulse.Base.{
  ◌+◌, ◌-◌, ◌≤◌, min, String, ◌≡◌, refl, Bool, List, [], ◌∷◌, ◌++◌, arith, length, length-append,
  length-drop, string_eq, nat_eq,
}
use flight_pulse.Base.Dict.{total, total-increment}
use flight_pulse.LoadBalancer.Metrics.{
  Metrics, window, new_metrics, trim, record_request, record_health_check_failure,
}

-- A call of one of the two recording methods, with its arguments.
pub data Recording (F : Type 0) : Type 0 where
  request : String → Bool → F → Bool → Recording F
  failed_check : String → Recording F

module _ {F : Type 0} where
  unfoldable pub record_one : Recording F → Metrics F → Metrics F
  unfolding record_request record_health_check_failure
  record_one (request url success ms retried) m = record_request url success ms retried m
  record_one (failed_check url) m = record_health_check_failure url m

  -- Any sequence of calls, oldest first.
  unfoldable pub record_all : List (Recording F) → Metrics F → Metrics F
  unfolding record_one
  record_all [] m = m
  record_all (r ∷ rs) m = record_all rs (record_one r m)

  pub record IsConsistent (m : Metrics F) : Type 0 where
    pub outcomes : m.total_requests ≡ m.successful_requests + m.failed_requests
    pub selections : m.total_requests ≡ total m.backend_selection_counts
    pub retries : m.retried_requests ≤ m.total_requests
    pub samples : length m.latencies_ms ≡ min window m.total_requests

  length-trim : (l : List F) → length (trim l) ≡ min window (length l)
  length-trim l = ground (arith, length-drop (length l - window) l)

  pub record_request-IsConsistent :
      (url : String) (success : Bool) (ms : F) (retried : Bool) (m : Metrics F)
      → IsConsistent m
      → IsConsistent (record_request url success ms retried m)
  unfolding record_request
  record_request-IsConsistent url success ms retried m h = record {
    outcomes = ground arith;
    selections = omega (arith, total-increment url m.backend_selection_counts);
    retries = ground arith;
    samples =
        omega
          (arith, length-trim (m.latencies_ms ++ ms ∷ []), length-append m.latencies_ms (ms ∷ []));
  }

  record_one-IsConsistent :
      (r : Recording F) (m : Metrics F) → IsConsistent m → IsConsistent (record_one r m)
  unfolding record_one
  record_one-IsConsistent (request url success ms retried) m h =
      record_request-IsConsistent url success ms retried m h
  record_one-IsConsistent (failed_check url) m h = record {
    outcomes = h.outcomes;
    selections = h.selections;
    retries = h.retries;
    samples = h.samples;
  }

  record_all-keeps :
      (rs : List (Recording F)) (m : Metrics F) → IsConsistent m → IsConsistent (record_all rs m)
  unfolding record_all
  record_all-keeps [] m h = h
  record_all-keeps (r ∷ rs) m h =
      record_all-keeps rs (record_one r m) (record_one-IsConsistent r m h)

  new_metrics-IsConsistent : IsConsistent (new_metrics {F = F})
  new_metrics-IsConsistent = record {
    outcomes = refl;
    selections = refl;
    retries = omega arith;
    samples = refl;
  }

  -- After any sequence of recorded requests and failed checks the total of requests is the sum of
  -- the successful and the failed ones and the sum of the selection counts of all backends, the
  -- retried ones are among them, and the window holds as many samples as requests, up to 1000.
  pub record_all-IsConsistent : (rs : List (Recording F)) → IsConsistent (record_all rs new_metrics)
  record_all-IsConsistent rs = record_all-keeps rs new_metrics new_metrics-IsConsistent
