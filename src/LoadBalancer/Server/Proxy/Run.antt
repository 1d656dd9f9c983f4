-- ===== src/LoadBalancer/Server/Proxy/Run.antt =====
-- The runs of the loop of `proxy`, as a relation: one constructor for each way through its body.
use flight_pulse.Base.{
  ℕ, zero, suc, ◌+◌, String, ◌≡◌, refl, inl, inr, Bool, true, false, ◌&&◌, none, some, List, [],
  ◌∷◌, ◌++◌, ltb, Bool-cases, Option-cases, string_eq, nat_eq, option_eq, list_eq,
}
use flight_pulse.LoadBalancer.Health.{HealthChecker, mark_unhealthy}
use flight_pulse.LoadBalancer.Router.{next_backend}
use flight_pulse.LoadBalancer.Server.{
  Headers, Reply, response, failed, passed_on, bad_gateway, unavailable, key_error,
  hop_by_hop_response_headers, strip_headers, Balancer, Sent, Outcome, outgoing, background,
}
use flight_pulse.LoadBalancer.Server.Proxy.{
  Setting, retryable, attempts_allowed, conclude, note, forward, skips, attempts, proxy,
}

module _ {F : Type 0} (s : Setting F) where
  -- The call made on a backend, and the balancer when it returns.
  abbrev pub sent_to : ℕ → String → Sent
  sent_to attempt url = record {
    outgoing = outgoing s.request url;
    reply = (s.send attempt (outgoing s.request url)).reply;
  }

  abbrev pub took : ℕ → String → F
  took attempt url = (s.send attempt (outgoing s.request url)).elapsed_ms

  abbrev pub chosen : Balancer F → Balancer F
  chosen b = record b { router = (next_backend (some b.checker) b.router).1 }

  abbrev pub returned : ℕ → String → Balancer F → Balancer F
  returned attempt url b = background (s.send attempt (outgoing s.request url)).checks (chosen b)

  abbrev pub noted : ℕ → String → Bool → Balancer F → Balancer F
  noted attempt url success b = note s url success (took attempt url) (ltb 0 attempt) b

  abbrev pub marked : HealthChecker → Balancer F → Balancer F
  marked h b = record b { checker = h }

  abbrev pub Picks : Balancer F → String → Type 0
  Picks b url = (next_backend (some b.checker) b.router).0 ≡ some url

  abbrev pub may_retry : ℕ → Bool
  may_retry attempt = retryable s && ltb (attempt + 1) (attempts_allowed s)

  pub data Run : ℕ → ℕ → List Sent → Balancer F → Outcome F → Type 0 where
    exhausted :
        {attempt : ℕ} {sent : List Sent} {b : Balancer F}
        → Run zero attempt sent b (record { answer = bad_gateway; sent = sent; balancer = b })
    nobody :
        {left attempt : ℕ} {sent : List Sent} {b : Balancer F}
        → (next_backend (some b.checker) b.router).0 ≡ none
        → Run (suc left) attempt sent b (record {
          answer = unavailable;
          sent = sent;
          balancer = note s "none" false s.zero_ms false (chosen b);
        })
    skipped :
        {left attempt : ℕ} {sent : List Sent} {b : Balancer F} {o : Outcome F} (url : String)
        → Picks b url
        → Run left (attempt + 1) sent (chosen b) o
        → Run (suc left) attempt sent b o
    answered :
        {left attempt : ℕ} {sent : List Sent} {b : Balancer F} (url : String) (status : ℕ)
        (headers : Headers) (content : List ℕ)
        → Picks b url
        → skips s url sent (chosen b) ≡ false
        → (sent_to attempt url).reply ≡ response status headers content
        → Run (suc left) attempt sent b (record {
          answer = passed_on status (strip_headers hop_by_hop_response_headers headers []) content;
          sent = sent ++ sent_to attempt url ∷ [];
          balancer = noted attempt url (ltb status 500) (returned attempt url b);
        })
    raised :
        {left attempt : ℕ} {sent : List Sent} {b : Balancer F} (url : String)
        → Picks b url
        → (sent_to attempt url).reply ≡ failed
        → mark_unhealthy url (returned attempt url b).checker ≡ none
        → Run (suc left) attempt sent b (record {
          answer = key_error;
          sent = sent ++ sent_to attempt url ∷ [];
          balancer = returned attempt url b;
        })
    gave_up :
        {left attempt : ℕ} {sent : List Sent} {b : Balancer F} (url : String) (h : HealthChecker)
        → Picks b url
        → skips s url sent (chosen b) ≡ false
        → (sent_to attempt url).reply ≡ failed
        → mark_unhealthy url (returned attempt url b).checker ≡ some h
        → may_retry attempt ≡ false
        → Run (suc left) attempt sent b (record {
          answer = bad_gateway;
          sent = sent ++ sent_to attempt url ∷ [];
          balancer = noted attempt url false (marked h (returned attempt url b));
        })
    retried :
        {left attempt : ℕ} {sent : List Sent} {b : Balancer F} {o : Outcome F} (url : String)
        (h : HealthChecker)
        → Picks b url
        → skips s url sent (chosen b) ≡ false
        → (sent_to attempt url).reply ≡ failed
        → mark_unhealthy url (returned attempt url b).checker ≡ some h
        → may_retry attempt ≡ true
        → Run left
            (attempt + 1)
            (sent ++ sent_to attempt url ∷ [])
            (noted attempt url false (marked h (returned attempt url b)))
            o
        → Run (suc left) attempt sent b o

  -- The loop as written is a run.
  conclude-Run :
      (left attempt : ℕ) (sent : List Sent) (b : Balancer F) (url : String) (reply : Reply)
      → Picks b url
      → skips s url sent (chosen b) ≡ false
      → (sent_to attempt url).reply ≡ reply
      → ((sent' : List Sent) (b' : Balancer F)
          → Run left (attempt + 1) sent' b' (attempts s left (attempt + 1) sent' b'))
      → Run (suc left) attempt sent b (
          conclude s attempt
            (sent_to attempt url)
            (took attempt url)
            sent
            (attempts s left (attempt + 1))
            (returned attempt url b))
  unfolding conclude
  conclude-Run left attempt sent b url (response status headers content) picks go e rest =
      rw (e, conclude) (answered url status headers content picks go e)
  conclude-Run left attempt sent b url failed picks go e rest =
      elim (Option-cases (mark_unhealthy url (returned attempt url b).checker)) [
        | inl missing ↦ rw (e, missing, conclude) (raised url picks e missing)
        | inr (h, found) ↦ elim (Bool-cases (may_retry attempt)) [
          | inl again ↦
              rw (e, found, again, conclude)
                (retried url h picks go e found again (
                  rest (sent ++ sent_to attempt url ∷ [])
                    (noted attempt url false (marked h (returned attempt url b)))))
          | inr stop ↦ rw (e, found, stop, conclude) (gave_up url h picks go e found stop)
        ]
      ]

  attempts-Run :
      (left attempt : ℕ) (sent : List Sent) (b : Balancer F)
      → Run left attempt sent b (attempts s left attempt sent b)
  unfolding attempts
  attempts-Run zero attempt sent b = exhausted
  attempts-Run (suc left) attempt sent b =
      let rest = attempts-Run left (attempt + 1) in
      elim (Option-cases (next_backend (some b.checker) b.router).0) [
        | inl none_left ↦ rw (none_left, attempts) (nobody none_left)
        | inr (url, picks) ↦ elim (Bool-cases (skips s url sent (chosen b))) [
          | inl skip ↦ rw (picks, skip, attempts) (skipped url picks (rest sent (chosen b)))
          | inr go ↦
              rw (picks, go, attempts, forward)
                (conclude-Run left attempt sent b url (sent_to attempt url).reply picks go refl
                  rest)
        ]
      ]

  pub proxy-Run : (b : Balancer F) → Run (attempts_allowed s) 0 [] b (proxy s b)
  unfolding proxy
  proxy-Run b = attempts-Run (attempts_allowed s) 0 [] b
