-- ===== src/LoadBalancer/Server/Proxy/Replies.antt =====
-- What a client of load_balancer/server.py gets, and how often its request was sent.
use flight_pulse.Base.{
  ℕ, zero, suc, ◌+◌, String, ◌≡◌, refl, inl, inr, false, ◌&&◌, some, List, [], ◌∷◌, ◌++◌, ltb,
  Bool-cases, Option-cases, All, string_eq, nat_eq, option_eq, list_eq,
}
use flight_pulse.LoadBalancer.Router.{next_backend}
use mathlib.Core.Path.{subst}
use flight_pulse.LoadBalancer.Health.{HealthChecker, Probe, probe_ok, check_one}
use flight_pulse.LoadBalancer.Server.{
  Headers, Reply, response, failed, Answer, passed_on, bad_gateway, unavailable, key_error,
  hop_by_hop_response_headers, strip_headers, Balancer, Sent, Outcome, Outgoing, outgoing,
  background, checked_metrics,
}
use flight_pulse.LoadBalancer.Server.Proxy.{
  Setting, retryable, attempts_allowed, conclude, note, forward, skips, attempts, proxy,
}
use flight_pulse.LoadBalancer.Health.Invariant as Checker
use flight_pulse.LoadBalancer.Health.Known as Known
use flight_pulse.LoadBalancer.Router.Queue as Queue
use flight_pulse.LoadBalancer.Router.Choice.{choice_listed}

pub record WellFormed {F : Type 0} (b : Balancer F) : Type 0 where
  pub checker : Checker.IsValid b.checker
  pub router : Queue.IsValid b.router

abbrev pub AllFailed : List Sent → Type 0
AllFailed = All (λ x. x.reply ≡ failed)

-- How an answer comes out of what was sent: a response of a backend is passed on after failures
-- alone, and without one the client gets the gateway's own answer.
abbrev pub Explains : List Sent → Answer → Type 0
Explains sent (passed_on status kept content) =
    (failures : List Sent) × (last : Sent) × (headers : Headers) × (sent ≡ failures ++ last ∷ [])
    × AllFailed failures
    × (last.reply ≡ response status headers content)
    × (kept ≡ strip_headers hop_by_hop_response_headers headers [])
Explains sent bad_gateway = AllFailed sent
Explains sent unavailable = AllFailed sent
Explains sent key_error = ⊥

AllFailed-snoc :
    (sent : List Sent) (x : Sent) → AllFailed sent → x.reply ≡ failed → AllFailed (sent ++ x ∷ [])
AllFailed-snoc [] x h e = (e, tt)
AllFailed-snoc (y ∷ sent) x h e = (h.0, AllFailed-snoc sent x h.1 e)

module _ {F : Type 0} where
  abbrev pub Good : Outcome F → Type 0
  Good o = Explains o.sent o.answer × WellFormed o.balancer

  checked-Keeps :
      (url : String) (probe : Probe) (b : Balancer F) (u : String) {h : HealthChecker}
      → WellFormed b
      → Known.HasState u b.checker
      → (check_one url probe (some b.metrics) b.checker).1 ≡ some h
      → Checker.IsValid h × Known.HasState u h
  unfolding check_one
  checked-Keeps url probe b u w has e = (
    subst Checker.Keeps e (Checker.observe-Keeps url (probe_ok probe) b.checker w.checker),
    subst (Known.Carries u) e (Known.observe-Carries url u (probe_ok probe) b.checker has),
  )

  -- Checks in the background keep the state well formed, with the same backends known.
  pub background_keeps :
      (checks : List (String × Probe)) (b : Balancer F) (u : String)
      → WellFormed b
      → Known.HasState u b.checker
      → WellFormed (background checks b) × Known.HasState u (background checks b).checker
  unfolding background
  background_keeps [] b u w has = (w, has)
  background_keeps ((url, probe) ∷ checks) b u w has =
      elim (Option-cases (check_one url probe (some b.metrics) b.checker).1) [
        | inl raised ↦
            rw (raised, background) (record { checker = w.checker; router = w.router }, has)
        | inr (h, e) ↦
            let (valid, has') = checked-Keeps url probe b u w has e in
            rw (e, background)
              (background_keeps checks
                (record b { metrics = checked_metrics url probe b; checker = h }) u
                (record { checker = valid; router = w.router }) has')
      ]

  module _ (s : Setting F) where
    -- What the rest of the loop does for the state that it is given.
    abbrev RetryIsGood : (List Sent → Balancer F → Outcome F) → Type 0
    RetryIsGood retry =
        (sent : List Sent) (b : Balancer F) → AllFailed sent → WellFormed b → Good (retry sent b)

    conclude-Good :
        (attempt : ℕ) (o : Outgoing) (reply : Reply) (ms : F) (sent : List Sent)
        (retry : List Sent → Balancer F → Outcome F) (b : Balancer F)
        → AllFailed sent
        → WellFormed b
        → Known.HasState o.backend_base b.checker
        → RetryIsGood retry
        → Good (conclude s attempt (record { outgoing = o; reply = reply }) ms sent retry b)
    unfolding conclude
    conclude-Good attempt o (response status headers content) ms sent retry b all w has good = (
      (
        sent,
        record { outgoing = o; reply = response status headers content },
        headers,
        refl,
        all,
        refl,
        refl,
      ),
      record { checker = w.checker; router = w.router },
    )
    conclude-Good attempt o failed ms sent retry b all w has good =
        let (h, marked, valid, _) =
          Known.mark_unhealthy_known o.backend_base b.checker w.checker has in
        let this : Sent = record { outgoing = o; reply = failed } in
        let all' = AllFailed-snoc sent this all refl in
        elim (Bool-cases (retryable s && ltb (attempt + 1) (attempts_allowed s))) [
          | inl again ↦
              rw (marked, again, conclude)
                (good (sent ++ this ∷ [])
                  (note s o.backend_base false ms (ltb 0 attempt) (record b { checker = h })) all'
                  (record { checker = valid; router = w.router }))
          | inr stop ↦
              rw (marked, stop, conclude) (all', record { checker = valid; router = w.router })
        ]

    forward-Good :
        (attempt : ℕ) (url : String) (sent : List Sent) (retry : List Sent → Balancer F → Outcome F)
        (b : Balancer F)
        → AllFailed sent
        → WellFormed b
        → Known.HasState url b.checker
        → RetryIsGood retry
        → Good (forward s attempt url sent retry b)
    unfolding forward
    forward-Good attempt url sent retry b all w has good =
        let flight = s.send attempt (outgoing s.request url) in
        let (w', has') = background_keeps flight.checks b url w has in
        conclude-Good attempt (outgoing s.request url) flight.reply flight.elapsed_ms sent retry
          (background flight.checks b) all w' has' good

    attempts-Good :
        (left attempt : ℕ) (sent : List Sent) (b : Balancer F)
        → AllFailed sent
        → WellFormed b
        → Good (attempts s left attempt sent b)
    unfolding attempts
    attempts-Good zero attempt sent b all w = (all, w)
    attempts-Good (suc left) attempt sent b all w =
        let (_, routed, _) = Queue.next_backend-Chooses b.checker b.router w.router in
        let router = (next_backend (some b.checker) b.router).1 in
        let chosen : Balancer F = record b { router = router } in
        let w' : WellFormed chosen = record { checker = w.checker; router = routed } in
        let retry = attempts s left (attempt + 1) in
        let good : RetryIsGood retry = attempts-Good left (attempt + 1) in
        elim (Option-cases (next_backend (some b.checker) b.router).0) [
          | inl nobody ↦
              rw (nobody, attempts) (all, record { checker = w.checker; router = routed })
          | inr (url, found) ↦
              let listed = choice_listed b.checker b.router url w.router found in
              let has = Known.listed-HasState b.checker url w.checker listed in
              elim (Bool-cases (skips s url sent chosen)) [
                | inl skip ↦ rw (found, skip, attempts) (good sent chosen all w')
                | inr go ↦
                    rw (found, go, attempts)
                      (forward-Good attempt url sent retry chosen all w' has good)
              ]
        ]

    -- In a well-formed balancer no exception leaves `proxy`. The client gets the response of the
    -- last backend that was asked, its hop-by-hop headers removed, or 502 or 503 where every
    -- backend that was asked failed before it answered; the balancer stays well formed.
    pub proxy-Good : (b : Balancer F) → WellFormed b → Good (proxy s b)
    unfolding proxy
    proxy-Good b w = attempts-Good (attempts_allowed s) 0 [] b tt w
