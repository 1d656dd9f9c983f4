-- ===== src/Replay/FaultInjection/RedisFailure/Visible.antt =====
-- The Redis scenario of replay/fault_injection.py against the load balancer: while the ingestion
-- services answer with server errors, or not at all, the outage is reported as visible.

use mathlib.Core.Path.{subst}
use flight_pulse.Base.{
  any, ℕ, zero, suc, ◌+◌, ◌≤◌, ◌<◌, String, ◌≡◌, refl, sym, ap, ◌∙◌, true, false, some, List, [],
  ◌∷◌, ◌++◌, arith, All, string_eq, nat_eq, option_eq, list_eq,
}
use flight_pulse.LoadBalancer.Server.{
  Reply, response as replied, failed, Answer, passed_on, bad_gateway, unavailable, key_error, Sent,
  Balancer,
}
use flight_pulse.LoadBalancer.Server.Proxy.{proxy}
use flight_pulse.LoadBalancer.Server.Proxy.Replies.{WellFormed, Explains, proxy-Good}
use flight_pulse.LoadBalancer.Server.Proxy.{Setting as Routing}
use flight_pulse.Replay.FaultInjection.Polling.{Sleeps}
use flight_pulse.Replay.FaultInjection.RedisFailure.{
  Probe, response, is_success, is_visible_failure, pass, verdict, Setting, Report, Scenario,
  unknown_method, command_failed, reports, report_of, run_redis_failure_scenario,
}
use flight_pulse.Replay.FaultInjection.RedisFailure.Outcome.{
  probes_of, Judged, run_redis_failure_scenario-Judged,
}

-- What the client of the load balancer makes of its answer.
abbrev pub probe_of : String → Answer → Probe
probe_of text (passed_on status kept content) = response status text
probe_of text bad_gateway = response 502 text
probe_of text unavailable = response 503 text
probe_of text key_error = response 500 text

-- A backend did not answer, or answered with a server error.
abbrev pub AtFault : Reply → Type 0
AtFault failed = Unit
AtFault (replied status headers content) = 500 ≤ status

abbrev pub IsServerError : Sent → Type 0
IsServerError x = AtFault x.reply

IsServerError-last :
    (sent : List Sent) (x : Sent) → All IsServerError (sent ++ x ∷ []) → IsServerError x
IsServerError-last [] x all = all.0
IsServerError-last (y ∷ sent) x all = IsServerError-last sent x all.1

abbrev Visible : Probe → Type 0
Visible p = (is_success p ≡ false) × (is_visible_failure p ≡ true)

answer-Visible :
    (text : String) (sent : List Sent) (answer : Answer)
    → Explains sent answer
    → All IsServerError sent
    → Visible (probe_of text answer)
unfolding is_success is_visible_failure
answer-Visible text sent bad_gateway e all = (refl, refl)
answer-Visible text sent unavailable e all = (refl, refl)
answer-Visible text sent key_error e all = absurd e
answer-Visible text sent (passed_on status kept content)
      (failures, last, headers, split, all_failed, same, stripped) all =
    let here = IsServerError-last failures last (subst (All IsServerError) split all) in
    let low : 500 ≤ status = subst AtFault same here in (ground arith, ground arith)

none_succeeds :
    (probe : ℕ → Probe) (from count : ℕ)
    → ((n : ℕ) → Visible (probe n))
    → any is_success (probes_of probe from count) ≡ false
none_succeeds probe from zero visible = refl
none_succeeds probe from (suc count) visible =
    rw ((visible from).0) (none_succeeds probe (from + 1) count visible)

some_fails :
    (probe : ℕ → Probe) (from count : ℕ)
    → 0 < count
    → ((n : ℕ) → Visible (probe n))
    → any is_visible_failure (probes_of probe from count) ≡ true
some_fails probe from zero p visible = absurd (omega arith)
some_fails probe from (suc count) p visible = rw ((visible from).1) refl

passes :
    (probes : List Probe)
    → any is_success probes ≡ false
    → any is_visible_failure probes ≡ true
    → verdict probes ≡ pass
unfolding verdict
passes probes none_ok visible = rw (none_ok, visible, verdict) refl

later_round : (test : ℕ → ℕ) (downtime n : ℕ) → test 0 < downtime → downtime ≤ test n → 0 < n
later_round test downtime zero early over = absurd (omega arith)
later_round test downtime (suc n) early over = omega arith

abbrev pub Passed : Scenario → Type 0
Passed (reports r) = (r.verdict ≡ pass) × (r.silent_success ≡ false)
Passed _ = Unit

module _ {F : Type 0} (routing : ℕ → Routing F) (balancer : ℕ → Balancer F) (text : ℕ → String)
    (s : Setting) (downtime : ℕ) (method : String) where
  Judged-Passed :
      (r : Scenario)
      → ((n : ℕ) → Visible (s.probe n))
      → s.clock.test 0 < downtime
      → Judged s downtime method r
      → Passed r
  unfolding report_of
  Judged-Passed unknown_method visible early j = tt
  Judged-Passed (command_failed c) visible early j = tt
  Judged-Passed (reports r) visible early (count, probes, (in_time, over), same, judges) =
      let some_round = later_round s.clock.test downtime count early over in
      let none_ok =
        subst (λ l. any is_success l ≡ false) (sym probes)
          (none_succeeds s.probe 0 count visible) in
      let visibly =
        subst (λ l. any is_visible_failure l ≡ true) (sym probes)
          (some_fails s.probe 0 count some_round visible) in
      (
        ap (λ (x : Report). x.verdict) same ∙ passes r.probes_during_outage none_ok visibly,
        ap (λ (x : Report). x.silent_success) same ∙ none_ok,
      )

  -- The Redis scenario against a load balancer that is well formed at each probe, where no backend
  -- that it asks during the outage answers with a status below 500, if rounds sleep and the first
  -- one begins during the outage: the scenario ends, and if it reports, no probe got a 2xx and the
  -- verdict is PASS.
  pub outage-Passed :
      Sleeps 3000 s.clock.test
      → s.clock.test 0 < downtime
      → ((n : ℕ) → WellFormed (balancer n))
      → ((n : ℕ) → All IsServerError (proxy (routing n) (balancer n)).sent)
      → ((n : ℕ) → s.probe n ≡ probe_of (text n) (proxy (routing n) (balancer n)).answer)
      → (r : Scenario) × (run_redis_failure_scenario s downtime method ≡ some r) × Passed r
  outage-Passed sleeps early valid errors probes =
      let (r, ran, judged) = run_redis_failure_scenario-Judged s downtime method sleeps in
      (
        r,
        ran,
        Judged-Passed r
            (λ n. subst Visible (sym (probes n)) (
              answer-Visible (text n) (proxy (routing n) (balancer n)).sent
                (proxy (routing n) (balancer n)).answer
                (proxy-Good (routing n) (balancer n) (valid n)).0 (errors n)))
            early judged,
      )
