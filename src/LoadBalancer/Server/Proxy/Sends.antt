-- ===== src/LoadBalancer/Server/Proxy/Sends.antt =====
-- How often load_balancer/server.py sends a request, and what its metrics record of it.
use flight_pulse.Base.{
  ℕ, ◌+◌, ◌≤◌, String, ◌≡◌, refl, ◌∙◌, inl, inr, false, some, List, [], ◌∷◌, ◌++◌, arith,
  Bool-cases, Option-cases, All, length, length-append, contains, string_eq, nat_eq, option_eq,
  list_eq,
}
use flight_pulse.Base.Text.{upper}
use flight_pulse.LoadBalancer.Metrics.{record_request, record_health_check_failure}
use flight_pulse.LoadBalancer.Health.{Probe, probe_ok, check_one}
use flight_pulse.LoadBalancer.Server.{
  Answer, passed_on, bad_gateway, unavailable, key_error, safe_retry_methods,
  idempotency_key_header, has_header, is_safe_to_retry, forward_headers, Balancer, Sent, Outcome,
  outgoing, background, checked_metrics,
}
use flight_pulse.LoadBalancer.Server.Proxy.{Setting, retryable, attempts_allowed, proxy}
use flight_pulse.LoadBalancer.Server.Proxy.Replies.{Explains, WellFormed, proxy-Good}
use flight_pulse.LoadBalancer.Server.Proxy.Run.{
  Run, exhausted, nobody, skipped, answered, raised, gave_up, retried, proxy-Run, sent_to, chosen,
  returned,
}

-- Checks in the background count no request.
checked_total :
    {F : Type 0} (url : String) (probe : Probe) (b : Balancer F)
    → (checked_metrics url probe b).total_requests ≡ b.metrics.total_requests
unfolding check_one record_health_check_failure
checked_total url probe b = elim (Bool-cases (probe_ok probe)) [
  | inl passed ↦ rw passed refl
  | inr not_passed ↦ rw not_passed refl
]

background_total :
    {F : Type 0} (checks : List (String × Probe)) (b : Balancer F)
    → (background checks b).metrics.total_requests ≡ b.metrics.total_requests
unfolding background
background_total [] b = refl
background_total ((url, probe) ∷ checks) b =
    elim (Option-cases (check_one url probe (some b.metrics) b.checker).1) [
      | inl raises ↦ rw (raises, background) (checked_total url probe b)
      | inr (h, found) ↦
          rw (found, background)
            (background_total checks
                (record b { metrics = checked_metrics url probe b; checker = h })
              ∙ checked_total url probe b)
    ]

-- A request is recorded for each backend that was asked, and once more where none was left.
abbrev pub unasked : Answer → ℕ
unasked unavailable = 1
unasked _ = 0

-- An exception cuts the recording of its own request off.
abbrev pub unrecorded : Answer → ℕ
unrecorded key_error = 1
unrecorded _ = 0

module _ {F : Type 0} (s : Setting F) where
  -- Every call sends the client's request, to its own backend.
  abbrev pub SendsRequest : List Sent → Type 0
  SendsRequest = All (λ x. x.outgoing ≡ outgoing s.request x.outgoing.backend_base)

  SendsRequest-snoc :
      (sent : List Sent) (attempt : ℕ) (url : String)
      → SendsRequest sent
      → SendsRequest (sent ++ sent_to s attempt url ∷ [])
  SendsRequest-snoc [] attempt url all = (refl, tt)
  SendsRequest-snoc (x ∷ sent) attempt url all = (all.0, SendsRequest-snoc sent attempt url all.1)

  returned_total :
      (attempt : ℕ) (url : String) (b : Balancer F)
      → (returned s attempt url b).metrics.total_requests ≡ b.metrics.total_requests
  returned_total attempt url b =
      background_total (s.send attempt (outgoing s.request url)).checks (chosen s b)

  record Measured (left : ℕ) (sent : List Sent) (b : Balancer F) (o : Outcome F) : Type 0 where
    bounded : length o.sent ≤ length sent + left
    recorded :
        o.balancer.metrics.total_requests + length sent + unrecorded o.answer
        ≡ b.metrics.total_requests + length o.sent + unasked o.answer

  one_more : (sent : List Sent) (x : Sent) → length (sent ++ x ∷ []) ≡ length sent + 1
  one_more sent x = length-append sent (x ∷ [])

  measure :
      {left attempt : ℕ} {sent : List Sent} {b : Balancer F} {o : Outcome F}
      → Run s left attempt sent b o
      → Measured left sent b o
  unfolding record_request
  measure exhausted = record { bounded = omega arith; recorded = omega arith }
  measure (nobody e) = record { bounded = omega arith; recorded = omega arith }
  measure (skipped url p r) =
      let m = measure r in record { bounded = omega arith; recorded = m.recorded }
  measure {attempt = a} {sent = sent} {b = b} (answered url status hs c p k e) = record {
    bounded = omega (arith, one_more sent (sent_to s a url));
    recorded = omega (arith, one_more sent (sent_to s a url), returned_total a url b);
  }
  measure {attempt = a} {sent = sent} {b = b} (raised url p e n) = record {
    bounded = omega (arith, one_more sent (sent_to s a url));
    recorded = omega (arith, one_more sent (sent_to s a url), returned_total a url b);
  }
  measure {attempt = a} {sent = sent} {b = b} (gave_up url h p k e n stop) = record {
    bounded = omega (arith, one_more sent (sent_to s a url));
    recorded = omega (arith, one_more sent (sent_to s a url), returned_total a url b);
  }
  measure {attempt = a} {sent = sent} {b = b} (retried url h p k e n again r) =
      let m = measure r in
      record {
        bounded = omega (arith, one_more sent (sent_to s a url));
        recorded = omega (arith, one_more sent (sent_to s a url), returned_total a url b);
      }

  sends_request :
      {left attempt : ℕ} {sent : List Sent} {b : Balancer F} {o : Outcome F}
      → Run s left attempt sent b o
      → SendsRequest sent
      → SendsRequest o.sent
  sends_request exhausted all = all
  sends_request (nobody e) all = all
  sends_request (skipped url p r) all = sends_request r all
  sends_request {attempt = a} {sent = sent} (answered url status hs c p k e) all =
      SendsRequest-snoc sent a url all
  sends_request {attempt = a} {sent = sent} (raised url p e n) all =
      SendsRequest-snoc sent a url all
  sends_request {attempt = a} {sent = sent} (gave_up url h p k e n stop) all =
      SendsRequest-snoc sent a url all
  sends_request {attempt = a} {sent = sent} (retried url h p k e n again r) all =
      sends_request r (SendsRequest-snoc sent a url all)

  -- A client's request is sent at most once, unless its method is one of the safe ones or it has
  -- an Idempotency-Key header, and then at most 1 + MAX_RETRIES times; what is sent is the client's
  -- request each time.
  pub proxy_sends :
      (b : Balancer F)
      → SendsRequest (proxy s b).sent
        × (length (proxy s b).sent ≤ 1 + s.max_retries)
        × (contains safe_retry_methods (upper s.request.method) ≡ false
            → has_header idempotency_key_header (forward_headers s.request) ≡ false
            → length (proxy s b).sent ≤ 1)
  unfolding attempts_allowed retryable is_safe_to_retry
  proxy_sends b =
      let m = measure (proxy-Run s b) in
      (sends_request (proxy-Run s b) tt, ground arith, λ unsafe no_key. ground arith)

  no_error : (sent : List Sent) (a : Answer) → Explains sent a → unrecorded a ≡ 0
  no_error sent (passed_on status headers content) h = refl
  no_error sent bad_gateway h = refl
  no_error sent unavailable h = refl
  no_error sent key_error h = absurd h

  -- From a well-formed balancer the metrics count one request for each backend that was asked, and
  -- one more where the client got 503 because no healthy backend was left.
  pub proxy_records :
      (b : Balancer F)
      → WellFormed b
      → (proxy s b).balancer.metrics.total_requests
        ≡ b.metrics.total_requests + length (proxy s b).sent + unasked (proxy s b).answer
  proxy_records b w =
      let m = measure (proxy-Run s b) in
      let (explained, _) = proxy-Good s b w in
      omega (arith, no_error (proxy s b).sent (proxy s b).answer explained)
