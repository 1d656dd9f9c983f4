-- ===== src/LoadBalancer/Server.antt =====
-- load_balancer/server.py, with the constants of load_balancer/config.py: the reverse proxy. The
-- network, and the checks that the polling thread makes while a request is in flight, are what the
-- function `send` gives. `proxy` blocks the event loop, so no other request runs meanwhile.
pub mod Proxy
pub mod Endpoints
use flight_pulse.Base.{
  ℕ, ◌-◌, String, Bool, true, false, ◌||◌, Option, none, some, List, [], ◌∷◌, map, if◌then◌else◌,
  ◌==◌, contains, string_eq, nat_eq, option_eq, list_eq,
}
use flight_pulse.Base.Dict.{Dict, insert}
use flight_pulse.Base.Text.{lower, upper}
use flight_pulse.LoadBalancer.Metrics.{Metrics}
use flight_pulse.LoadBalancer.Health.{HealthChecker, Probe, check_one}
use flight_pulse.LoadBalancer.Router.{RoundRobinRouter}

abbrev pub Headers : Type 0
Headers = List (String × String)

-- What `proxy` reads of the incoming request.
pub record Request : Type 0 where
  pub method : String
  pub full_path : String
  pub headers : Headers
  pub query_params : Dict String String
  pub body : List ℕ

-- The arguments of `forward_once`, the target URL by its two parts.
pub record Outgoing : Type 0 where
  pub method : String
  pub backend_base : String
  pub full_path : String
  pub headers : Dict String String
  pub params : Dict String String
  pub body : List ℕ

-- A response, or a `RequestException` before any response.
pub data Reply : Type 0 where
  response : ℕ → Headers → List ℕ → Reply
  failed : Reply

-- A call of `forward_once`, with the time that it took and the checks made meanwhile.
pub record Flight (F : Type 0) : Type 0 where
  pub reply : Reply
  pub elapsed_ms : F
  pub checks : List (String × Probe)

-- What the client gets; `key_error` is an exception that leaves `proxy`.
pub data Answer : Type 0 where
  passed_on : ℕ → Dict String String → List ℕ → Answer
  bad_gateway unavailable key_error : Answer

abbrev pub safe_retry_methods : List (List ℕ)
safe_retry_methods = map upper ("GET" ∷ "PUT" ∷ "DELETE" ∷ "HEAD" ∷ "OPTIONS" ∷ [])

abbrev pub idempotency_key_header : String
idempotency_key_header = "Idempotency-Key"

abbrev pub hop_by_hop_request_headers : List (List ℕ)
hop_by_hop_request_headers = map lower ("host" ∷ "content-length" ∷ [])

abbrev pub hop_by_hop_response_headers : List (List ℕ)
hop_by_hop_response_headers = map lower ("content-length" ∷ "transfer-encoding" ∷ "connection" ∷ [])

-- `any(k.lower() == name.lower() for k in headers)`
unfoldable pub has_header : String → Dict String String → Bool
has_header name [] = false
has_header name ((k, _) ∷ headers) = lower k == lower name || has_header name headers

unfoldable pub is_safe_to_retry : String → Dict String String → Bool
unfolding has_header upper
is_safe_to_retry method headers =
    if contains safe_retry_methods (upper method)
    then true
    else has_header idempotency_key_header headers

-- `{k: v for k, v in items if k.lower() not in excluded}`
unfoldable pub strip_headers : List (List ℕ) → Headers → Dict String String → Dict String String
strip_headers excluded [] kept = kept
strip_headers excluded ((k, v) ∷ items) kept =
    strip_headers excluded items (if contains excluded (lower k) then kept else insert k v kept)

abbrev pub forward_headers : Request → Dict String String
forward_headers request = strip_headers hop_by_hop_request_headers request.headers []

-- The module's globals. The health checker's metrics are the same object.
pub record Balancer (F : Type 0) : Type 0 where
  pub metrics : Metrics F
  pub checker : HealthChecker
  pub router : RoundRobinRouter

-- `attempted_backends`, each with what was sent to it and how that ended.
pub record Sent : Type 0 where
  pub outgoing : Outgoing
  pub reply : Reply

abbrev pub attempted_backends : List Sent → List String
attempted_backends [] = []
attempted_backends (s ∷ sent) = s.outgoing.backend_base ∷ attempted_backends sent

pub record Outcome (F : Type 0) : Type 0 where
  pub answer : Answer
  pub sent : List Sent
  pub balancer : Balancer F

abbrev pub outgoing : Request → String → Outgoing
outgoing request backend_base = record {
  method = request.method;
  backend_base = backend_base;
  full_path = request.full_path;
  headers = forward_headers request;
  params = request.query_params;
  body = request.body;
}

module _ {F : Type 0} where
  -- `check_one` is given metrics, and hands them back.
  abbrev pub held : Option (Metrics F) → Metrics F → Metrics F
  held none m = m
  held (some m') m = m'

  -- The metrics after one check of the polling thread.
  abbrev pub checked_metrics : String → Probe → Balancer F → Metrics F
  checked_metrics url probe b = held (check_one url probe (some b.metrics) b.checker).0 b.metrics

  -- Checks of the polling thread; one that raises ends that thread and leaves the state.
  unfoldable pub background : List (String × Probe) → Balancer F → Balancer F
  background [] b = b
  background ((url, probe) ∷ checks) b = elim (check_one url probe (some b.metrics) b.checker).1 [
    | none ↦ record b { metrics = checked_metrics url probe b }
    | some checker ↦
        background checks (record b { metrics = checked_metrics url probe b; checker = checker })
  ]
