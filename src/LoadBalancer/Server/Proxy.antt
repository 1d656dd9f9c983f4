-- ===== src/LoadBalancer/Server/Proxy.antt =====
-- `proxy` of load_balancer/server.py: one incoming request, with its retries.
pub mod Replies
pub mod Run
pub mod Failover
pub mod Sends
use flight_pulse.Base.{
  ℕ, zero, suc, ◌+◌, String, Bool, false, ◌&&◌, none, some, List, [], ◌∷◌, ◌++◌, ltb, if◌then◌else◌,
  length, contains, string_eq, nat_eq, option_eq, list_eq,
}
use flight_pulse.LoadBalancer.Metrics.{Metrics, record_request}
use flight_pulse.LoadBalancer.Health.{HealthChecker, mark_unhealthy, healthy_backends}
use flight_pulse.LoadBalancer.Router.{next_backend}
use flight_pulse.LoadBalancer.Server.{
  Headers, Request, Outgoing, Reply, response, failed, Flight, Answer, passed_on, bad_gateway,
  unavailable, key_error, hop_by_hop_response_headers, is_safe_to_retry, strip_headers,
  forward_headers, Balancer, Sent, attempted_backends, Outcome, outgoing, background,
}

-- `0.0`, LB_MAX_RETRIES, the request, and what each attempt on a backend comes to.
pub record Setting (F : Type 0) : Type 0 where
  pub zero_ms : F
  pub max_retries : ℕ
  pub request : Request
  pub send : ℕ → Outgoing → Flight F

module _ {F : Type 0} (s : Setting F) where
  unfoldable pub retryable : Bool
  retryable = is_safe_to_retry s.request.method (forward_headers s.request)

  -- `1 + (MAX_RETRIES if retryable else 0)`
  unfoldable pub attempts_allowed : ℕ
  attempts_allowed = 1 + (if retryable then s.max_retries else 0)

  -- `metrics.record_request(...)`
  abbrev pub note : String → Bool → F → Bool → Balancer F → Balancer F
  note url success ms retried b = record b {
    metrics = record_request url success ms retried b.metrics;
  }

  -- The body of the loop once a backend is chosen and the request sent; `retry` is the rest of the
  -- loop.
  unfoldable pub conclude :
      ℕ → Sent → F → List Sent → (List Sent → Balancer F → Outcome F) → Balancer F → Outcome F
  conclude attempt this elapsed_ms sent retry b =
      let url = this.outgoing.backend_base in
      let sent' = sent ++ this ∷ [] in
      let is_retry = ltb 0 attempt in
      elim this.reply [
        | failed ↦ elim (mark_unhealthy url b.checker) [
          | none ↦ record { answer = key_error; sent = sent'; balancer = b }
          | some checker ↦
              let b' = note url false elapsed_ms is_retry (record b { checker = checker }) in
              let again = retry sent' b' in
              let stop : Outcome F = record { answer = bad_gateway; sent = sent'; balancer = b' } in
              if retryable && ltb (attempt + 1) attempts_allowed then again else stop
        ]
        | response status headers content ↦ record {
          answer = passed_on status (strip_headers hop_by_hop_response_headers headers []) content;
          sent = sent';
          balancer = note url (ltb status 500) elapsed_ms is_retry b;
        }
      ]

  -- A forward: `send` answers, and the polling thread has gone on meanwhile.
  unfoldable pub forward :
      ℕ → String → List Sent → (List Sent → Balancer F → Outcome F) → Balancer F → Outcome F
  unfolding conclude
  forward attempt url sent retry b =
      let flight = s.send attempt (outgoing s.request url) in
      conclude attempt (record { outgoing = outgoing s.request url; reply = flight.reply })
        flight.elapsed_ms sent retry (background flight.checks b)

  -- `if backend_base in attempted_backends and len(healthy) > len(attempted): continue`
  unfoldable pub skips : String → List Sent → Balancer F → Bool
  skips url sent b =
      contains (attempted_backends sent) url
      && ltb (length (attempted_backends sent)) (length (healthy_backends b.checker))

  -- The `for`, with the attempts that are left and the number of this one.
  unfoldable pub attempts : ℕ → ℕ → List Sent → Balancer F → Outcome F
  unfolding forward skips
  attempts zero attempt sent b = record { answer = bad_gateway; sent = sent; balancer = b }
  attempts (suc left) attempt sent b =
      let (choice, router) = next_backend (some b.checker) b.router in
      let chosen : Balancer F = record b { router = router } in
      let retry = attempts left (attempt + 1) in
      elim choice [
        | none ↦ record {
          answer = unavailable;
          sent = sent;
          balancer = note "none" false s.zero_ms false chosen;
        }
        | some url ↦
            let skipped = retry sent chosen in
            let forwarded = forward attempt url sent retry chosen in
            if skips url sent chosen then skipped else forwarded
      ]

  unfoldable pub proxy : Balancer F → Outcome F
  unfolding attempts
  proxy b = attempts attempts_allowed 0 [] b
