-- ===== src/LoadBalancer/Server/Proxy/Failover.antt =====
-- Failover of load_balancer/server.py: a failed backend is out of rotation at once, so a retry goes
-- to another one.
use flight_pulse.Base.{
  ℕ, String, ◌≡◌, refl, sym, ap, ◌∙◌, inl, inr, true, false, ◌||◌, Option, some, List, [], ◌∷◌,
  ◌++◌, arith, if◌then◌else◌, Bool-cases, All, ◌==◌, beq_refl, contains, string_eq, nat_eq,
  option_eq, list_eq,
}
use mathlib.Core.Path.{subst}
use flight_pulse.LoadBalancer.Health.{unhealthy, HealthChecker, mark_unhealthy, get_state}
use flight_pulse.LoadBalancer.Health.Invariant as Checker
use flight_pulse.LoadBalancer.Health.Known as Known
use flight_pulse.LoadBalancer.Router.Queue as Queue
use flight_pulse.LoadBalancer.Router.Choice.{choice_listed}
use flight_pulse.LoadBalancer.Server.{
  failed, Balancer, Sent, attempted_backends, Outcome, Outgoing, outgoing, background,
}
use flight_pulse.LoadBalancer.Server.Proxy.{Setting, proxy}
use flight_pulse.LoadBalancer.Server.Proxy.Replies.{WellFormed}
use flight_pulse.LoadBalancer.Server.Proxy.Run.{
  Run, Picks, exhausted, nobody, skipped, answered, raised, gave_up, retried, proxy-Run, sent_to,
  chosen, returned, noted, marked,
}

-- No backend stands twice.
abbrev pub Distinct : List String → Type 0
Distinct [] = Unit
Distinct (x ∷ xs) = (contains xs x ≡ false) × Distinct xs

contains-attempted :
    (sent : List Sent) (y : Sent) (url : String)
    → contains (attempted_backends (sent ++ y ∷ [])) url
      ≡ (contains (attempted_backends sent) url || url == y.outgoing.backend_base)
contains-attempted [] y url = ground arith
contains-attempted (x ∷ sent) y url = ground (arith, contains-attempted sent y url)

Distinct-snoc :
    (sent : List Sent) (y : Sent)
    → Distinct (attempted_backends sent)
    → contains (attempted_backends sent) y.outgoing.backend_base ≡ false
    → Distinct (attempted_backends (sent ++ y ∷ []))
Distinct-snoc [] y d new = (refl, tt)
Distinct-snoc (x ∷ sent) y d new = (
  ground (
    arith,
    contains-attempted sent y x.outgoing.backend_base,
    string_eq.beq_iff x.outgoing.backend_base y.outgoing.backend_base,
    string_eq.beq_iff y.outgoing.backend_base x.outgoing.backend_base,
  ),
  Distinct-snoc sent y d.1 (ground arith),
)

-- A call that failed has its backend marked.
abbrev pub Marked : HealthChecker → Sent → Type 0
Marked h x = x.reply ≡ failed → get_state x.outgoing.backend_base h ≡ some unhealthy

module _ {F : Type 0} (s : Setting F) where
  -- The polling thread makes no check while a request is in flight.
  abbrev pub Quiet : Type 0
  Quiet = (attempt : ℕ) (o : Outgoing) → (s.send attempt o).checks ≡ []

  -- What has been tried so far is distinct, and out of rotation.
  record Tried (sent : List Sent) (b : Balancer F) : Type 0 where
    distinct : Distinct (attempted_backends sent)
    out :
        (url : String)
        → contains (attempted_backends sent) url ≡ true
        → get_state url b.checker ≡ some unhealthy

  -- A chosen backend is new.
  fresh :
      (sent : List Sent) (b : Balancer F) (url : String)
      → WellFormed b
      → Tried sent b
      → Picks s b url
      → contains (attempted_backends sent) url ≡ false
  fresh sent b url w t picks =
      let listed = choice_listed b.checker b.router url w.router picks in
      let is_healthy = Checker.contains-healthy_backends b.checker url w.checker in
      elim (Bool-cases (contains (attempted_backends sent) url)) [
        | inl old ↦ absurd (ground (arith, t.out url old, listed, is_healthy))
        | inr new ↦ new
      ]

  returned_quiet :
      (attempt : ℕ) (url : String) (b : Balancer F) → Quiet → returned s attempt url b ≡ chosen s b
  returned_quiet attempt url b quiet =
      ap (λ checks. background checks (chosen s b)) (quiet attempt (outgoing s.request url))
      ∙ unfold background in refl

  chosen-WellFormed : (b : Balancer F) → WellFormed b → WellFormed (chosen s b)
  chosen-WellFormed b w =
      let (_, routed, _) = Queue.next_backend-Chooses b.checker b.router w.router in
      record { checker = w.checker; router = routed }

  -- The state after a failed call, as `mark_unhealthy` leaves it.
  record Marks (url : String) (b : Balancer F) (h : HealthChecker) : Type 0 where
    valid : Checker.IsValid h
    states :
        (u : String) → get_state u h ≡ (if u == url then some unhealthy else get_state u b.checker)

  marks :
      (b : Balancer F) (url : String) {r : Balancer F} {o : Option HealthChecker}
      → WellFormed b
      → Picks s b url
      → r ≡ chosen s b
      → mark_unhealthy url r.checker ≡ o
      → (h : HealthChecker) × (o ≡ some h) × Marks url b h
  marks b url {r} {o} w picks quiet e =
      let listed = choice_listed b.checker b.router url w.router picks in
      let has = Known.listed-HasState b.checker url w.checker listed in
      let (h, found, valid, states) = Known.mark_unhealthy_known url b.checker w.checker has in
      (
        h,
        sym e ∙ ap (λ (x : Balancer F). mark_unhealthy url x.checker) quiet ∙ found,
        record { valid = valid; states = states },
      )

  Marks-some :
      (b : Balancer F) (url : String) (h : HealthChecker) {r : Balancer F}
      → WellFormed b
      → Picks s b url
      → r ≡ chosen s b
      → mark_unhealthy url r.checker ≡ some h
      → Marks url b h
  Marks-some b url h w picks quiet e =
      let (h', same, m) = marks b url w picks quiet e in
      let same' : h' ≡ h = cc in subst (Marks url b) same' m

  Tried-snoc :
      (sent : List Sent) (b b' : Balancer F) (y : Sent) (h : HealthChecker)
      → Tried sent b
      → contains (attempted_backends sent) y.outgoing.backend_base ≡ false
      → Marks y.outgoing.backend_base b h
      → b'.checker ≡ h
      → Tried (sent ++ y ∷ []) b'
  Tried-snoc sent b b' y h t new m same = record {
    distinct = Distinct-snoc sent y t.distinct new;
    out = λ url is_in.
        ap (get_state url) same
        ∙ ground (arith, contains-attempted sent y url, t.out url, m.states url);
  }

  tried-Marked :
      (sent : List Sent) (h : HealthChecker)
      → ((url : String)
          → contains (attempted_backends sent) url ≡ true
          → get_state url h ≡ some unhealthy)
      → All (Marked h) sent
  tried-Marked [] h out = tt
  tried-Marked (x ∷ sent) h out = (
    λ _. out x.outgoing.backend_base (ground (arith, beq_refl x.outgoing.backend_base)),
    tried-Marked sent h (λ url is_in. out url (ground (arith, is_in))),
  )

  -- What a run has done.
  abbrev pub FailsOver : Outcome F → Type 0
  FailsOver o = Distinct (attempted_backends o.sent) × All (Marked o.balancer.checker) o.sent

  All-snoc :
      (P : Sent → Type 0) (sent : List Sent) (y : Sent) → All P sent → P y → All P (sent ++ y ∷ [])
  All-snoc P [] y all p = (p, tt)
  All-snoc P (x ∷ sent) y all p = (all.0, All-snoc P sent y all.1 p)

  fails_over :
      {left attempt : ℕ} {sent : List Sent} {b : Balancer F} {o : Outcome F}
      → Quiet
      → Run s left attempt sent b o
      → WellFormed b
      → Tried sent b
      → FailsOver o
  fails_over {sent = sent} {b = b} quiet exhausted w t =
      (t.distinct, tried-Marked sent b.checker t.out)
  fails_over {sent = sent} {b = b} quiet (nobody e) w t =
      (t.distinct, tried-Marked sent b.checker t.out)
  fails_over {b = b} quiet (skipped url p r) w t =
      fails_over quiet r (chosen-WellFormed b w) (record { distinct = t.distinct; out = t.out })
  fails_over {attempt = a} {sent = sent} {b = b} quiet (answered url status hs c p k e) w t = (
    Distinct-snoc sent (sent_to s a url) t.distinct (fresh sent b url w t p),
    rw (returned_quiet a url b quiet) (
        All-snoc (Marked b.checker) sent (sent_to s a url) (tried-Marked sent b.checker t.out)
          (λ is_failed. absurd (cc))),
  )
  fails_over {attempt = a} {sent = sent} {b = b} quiet (raised url p e n) w t =
      let (h, found, m) = marks b url w p (returned_quiet a url b quiet) n in absurd (cc)
  fails_over {attempt = a} {sent = sent} {b = b} quiet (gave_up url h p k e n stop) w t =
      let m = Marks-some b url h w p (returned_quiet a url b quiet) n in
      let b' = noted s a url false (marked s h (returned s a url b)) in
      let t' = Tried-snoc sent b b' (sent_to s a url) h t (fresh sent b url w t p) m refl in
      (t'.distinct, tried-Marked (sent ++ sent_to s a url ∷ []) h t'.out)
  fails_over {attempt = a} {sent = sent} {b = b} quiet (retried url h p k e n again r) w t =
      let m = Marks-some b url h w p (returned_quiet a url b quiet) n in
      let b' = noted s a url false (marked s h (returned s a url b)) in
      let t' = Tried-snoc sent b b' (sent_to s a url) h t (fresh sent b url w t p) m refl in
      let routed =
        subst (λ (x : Balancer F). Queue.IsValid x.router) (sym (returned_quiet a url b quiet))
          (chosen-WellFormed b w).router in
      fails_over quiet r (record { checker = m.valid; router = routed }) t'

  -- While the polling thread makes no check in between, a request goes to no backend twice, and
  -- every backend that failed it is unhealthy when `proxy` returns.
  pub proxy-FailsOver : (b : Balancer F) → Quiet → WellFormed b → FailsOver (proxy s b)
  proxy-FailsOver b quiet w =
      fails_over quiet (proxy-Run s b) w (record { distinct = tt; out = λ url is_in. absurd (cc) })
