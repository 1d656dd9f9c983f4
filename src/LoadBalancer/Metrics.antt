-- ===== src/LoadBalancer/Metrics.antt =====
-- load_balancer/metrics.py: the counters, the rolling window of latencies and the snapshot. A
-- latency is a float, of which the code needs what `Floats` holds; the lock makes each method one
-- step.
pub mod Counters
pub mod History
pub mod Percentile
pub mod Ceiling
use mathlib.Core.Option
use flight_pulse.Base.{
  ℕ, zero, ◌+◌, ◌-◌, ◌*◌, ◌/◌, min, max, String, Bool, Option, some, List, [], ◌∷◌, ◌++◌, map, ltb,
  if◌then◌else◌, length, get_elem?, drop, string_eq, nat_eq,
}
use flight_pulse.Base.Double.{double, times, ceil}
use flight_pulse.Base.Dict.{Dict, increment}
use flight_pulse.Base.Sorting.{Ord, sort_by}

-- Python's floats, as far as the metrics use them. The latencies are differences of
-- `time.monotonic()`, so never NaN, and `<=` orders them.
pub record Floats : Type 1 where
  pub Float : Type 0
  pub zero : Float
  -- the built-in `sum`
  pub sum : List Float → Float
  -- `/` by a length
  pub div : Float → ℕ → Float
  -- `round(x, 2)`
  pub round2 : Float → Float
  pub order : Ord Float

-- `class Metrics`
pub record Metrics (F : Type 0) : Type 0 where
  pub total_requests : ℕ
  pub successful_requests : ℕ
  pub failed_requests : ℕ
  pub retried_requests : ℕ
  pub latencies_ms : List F
  pub backend_selection_counts : Dict String ℕ
  pub health_check_failures : Dict String ℕ

-- The window that `record_request` keeps.
abbrev pub window : ℕ
window = 1000

-- `xs[-n:]`, for a list that is longer than `n`
abbrev pub last_n {ℓ} : {A : Type ℓ} → ℕ → List A → List A
last_n n xs = drop (length xs - n) xs

module _ {F : Type 0} where
  -- `__init__`
  abbrev pub new_metrics : Metrics F
  new_metrics = record {
    total_requests = 0;
    successful_requests = 0;
    failed_requests = 0;
    retried_requests = 0;
    latencies_ms = [];
    backend_selection_counts = [];
    health_check_failures = [];
  }

  -- The bound on the window: a longer list is cut to its last `window` items.
  abbrev pub trim : List F → List F
  trim l = if ltb window (length l) then last_n window l else l

  unfoldable pub record_request : String → Bool → F → Bool → Metrics F → Metrics F
  record_request backend_url success latency_ms retried m = record {
    total_requests = m.total_requests + 1;
    successful_requests = if success then m.successful_requests + 1 else m.successful_requests;
    failed_requests = if success then m.failed_requests else m.failed_requests + 1;
    retried_requests = if retried then m.retried_requests + 1 else m.retried_requests;
    latencies_ms = trim (m.latencies_ms ++ latency_ms ∷ []);
    backend_selection_counts = increment backend_url m.backend_selection_counts;
    health_check_failures = m.health_check_failures;
  }

  unfoldable pub record_health_check_failure : String → Metrics F → Metrics F
  record_health_check_failure backend_url m = record m {
    health_check_failures = increment backend_url m.health_check_failures;
  }

-- `math.ceil((pct / 100.0) * n)`, in doubles
unfoldable pub ceil_percent : ℕ → ℕ → ℕ
unfolding double times ceil
ceil_percent pct n = ceil (times (double pct 100) n)

unfoldable pub percentile_index : ℕ → ℕ → ℕ
unfolding ceil_percent
percentile_index pct n = min (max 1 (ceil_percent pct n)) n - 1

module _ (fl : Floats) where
  open fl use {Float, sum, div, round2, order, zero as zero_float}

  -- `_percentile`: `none` is an `IndexError`.
  unfoldable pub percentile : List Float → ℕ → Option Float
  percentile [] pct = some zero_float
  percentile (x ∷ xs) pct = get_elem? (x ∷ xs) (percentile_index pct (length (x ∷ xs)))

  -- What `snapshot` returns: the keys of its dict.
  pub record Snapshot : Type 0 where
    pub total_requests : ℕ
    pub successful_requests : ℕ
    pub failed_requests : ℕ
    pub retried_requests : ℕ
    pub avg_latency_ms : Float
    pub p50_latency_ms : Option Float
    pub p95_latency_ms : Option Float
    pub p99_latency_ms : Option Float
    pub min_latency_ms : Float
    pub max_latency_ms : Float
    pub sample_count : ℕ
    pub backend_selection_counts : Dict String ℕ
    pub health_check_failures : Dict String ℕ
    pub active_backend_count : ℕ

  -- `sorted(self._latencies_ms)`
  abbrev pub sorted_latencies : Metrics Float → List Float
  sorted_latencies m = sort_by ⦃o = order⦄ (λ x. x) m.latencies_ms

  -- `round(xs[0], 2)` and `round(xs[-1], 2)`, or 0.0 where the list is empty
  abbrev pub first_or_zero : List Float → Float
  first_or_zero [] = zero_float
  first_or_zero (x ∷ _) = round2 x

  abbrev pub last_or_zero : List Float → Float
  last_or_zero [] = zero_float
  last_or_zero (x ∷ []) = round2 x
  last_or_zero (_ ∷ x ∷ xs) = last_or_zero (x ∷ xs)

  abbrev pub average : List Float → Float
  average [] = zero_float
  average (x ∷ xs) = div (sum (x ∷ xs)) (length (x ∷ xs))

  unfoldable pub snapshot : ℕ → Metrics Float → Snapshot
  snapshot active_backend_count m =
      let latencies = sorted_latencies m in
      record {
        total_requests = m.total_requests;
        successful_requests = m.successful_requests;
        failed_requests = m.failed_requests;
        retried_requests = m.retried_requests;
        avg_latency_ms = round2 (average latencies);
        p50_latency_ms = Option.map round2 (percentile latencies 50);
        p95_latency_ms = Option.map round2 (percentile latencies 95);
        p99_latency_ms = Option.map round2 (percentile latencies 99);
        min_latency_ms = first_or_zero latencies;
        max_latency_ms = last_or_zero latencies;
        sample_count = length latencies;
        backend_selection_counts = m.backend_selection_counts;
        health_check_failures = m.health_check_failures;
        active_backend_count = active_backend_count;
      }
