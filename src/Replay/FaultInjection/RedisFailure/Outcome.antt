-- ===== src/Replay/FaultInjection/RedisFailure/Outcome.antt =====
-- What the Redis scenario of replay/fault_injection.py reports, and of which probes.

use mathlib.Core.Path.{subst}
use native.Mathlib.Nat.{suc-mul}
use flight_pulse.Base.{
  any, ℕ, zero, suc, ◌+◌, ◌*◌, ◌/◌, ◌≤◌, ◌<◌, String, ◌≡◌, refl, ◌⊎◌, inl, inr, Bool, true, false,
  none, some, List, [], ◌∷◌, arith, ltb, Bool-cases, Option-cases, ◌==◌, string_eq, nat_eq,
  option_eq, list_eq,
}
use flight_pulse.Replay.FaultInjection.Polling.{Sleeps, one_more}
use flight_pulse.Replay.FaultInjection.RedisFailure.{
  Probe, redis_stop, redis_start, redis_container_name, redis_systemd_service, probe_outage,
  is_success, is_visible_failure, Verdict, fail, pass, inconclusive, verdict, Setting, Scenario,
  unknown_method, command_failed, reports, report_of, run_command, run_redis_failure_scenario,
}

-- The probes of the rounds from `from` to `from + count`.
abbrev pub probes_of : (ℕ → Probe) → ℕ → ℕ → List Probe
probes_of probe from zero = []
probes_of probe from (suc count) = probe from ∷ probes_of probe (from + 1) count

-- The rounds of the outage: `count` of them began in time, and the next would not.
abbrev pub Lasts : ℕ → (ℕ → ℕ) → ℕ → Type 0
Lasts downtime test count = ((m : ℕ) → m < count → test m < downtime) × (downtime ≤ test count)

module _ (downtime : ℕ) (test : ℕ → ℕ) (probe : ℕ → Probe) where
  abbrev Probed : ℕ → ℕ → Type 0
  Probed fuel n =
      (count : ℕ) × (stop : ℕ) × (n + count ≡ stop)
      × (probe_outage fuel downtime test probe n ≡ some (probes_of probe n count))
      × Lasts downtime test stop

  probe_from :
      (interval fuel n : ℕ)
      → Sleeps interval test
      → downtime ≤ test n + fuel * interval
      → ((m : ℕ) → m < n → test m < downtime)
      → Probed (suc fuel) n
  unfolding probe_outage
  probe_from interval zero n sleeps enough before =
      let over : ltb (test n) downtime ≡ false = ground arith in
      (0, n, omega arith, rw (over, probe_outage) refl, (before, omega arith))
  probe_from interval (suc fuel) n sleeps enough before =
      elim (Bool-cases (ltb (test n) downtime)) [
        | inr over ↦ (0, n, omega arith, rw (over, probe_outage) refl, (before, ground arith))
        | inl in_time ↦
            let more : downtime ≤ test (n + 1) + fuel * interval =
              omega (arith, sleeps n, suc-mul fuel interval) in
            let (count, stop, reached, ran, lasts) =
              probe_from interval fuel (n + 1) sleeps more
                (one_more (λ m. test m < downtime) n before (ground arith)) in
            (suc count, stop, omega arith, rw (in_time, ran, probe_outage) refl, lasts)
      ]

abbrev AnyProbe : (Probe → Bool) → List Probe → Type 0
AnyProbe p probes = any p probes ≡ true

-- What the verdict says of the probes.
abbrev pub Judges : List Probe → Verdict → Type 0
Judges probes fail = any is_success probes ≡ true
Judges probes pass = (any is_success probes ≡ false) × (any is_visible_failure probes ≡ true)
Judges probes inconclusive =
    (any is_success probes ≡ false) × (any is_visible_failure probes ≡ false)

verdict-Judges : (probes : List Probe) → Judges probes (verdict probes)
unfolding verdict
verdict-Judges probes = elim (Bool-cases (any is_success probes)) [
  | inl yes_success ↦ rw (yes_success, verdict) yes_success
  | inr no_success ↦ elim (Bool-cases (any is_visible_failure probes)) [
    | inl visible ↦ rw (no_success, visible, verdict) (no_success, visible)
    | inr unseen ↦ rw (no_success, unseen, verdict) (no_success, unseen)
  ]
]

-- Both commands know the same methods.
start_known :
    (method : String) (c : List String)
    → redis_stop method ≡ some c
    → (d : List String) × (redis_start method ≡ some d)
unfolding redis_stop redis_start
start_known method c e = elim (Bool-cases (method == "docker")) [
  | inl docker ↦ ("docker" ∷ "start" ∷ redis_container_name ∷ [], rw (docker, redis_start) refl)
  | inr other ↦ elim (Bool-cases (method == "systemd")) [
    | inl systemd ↦ (
      "wsl.exe" ∷ "sudo" ∷ "systemctl" ∷ "start" ∷ redis_systemd_service ∷ [],
      rw (other, systemd, redis_start) refl,
    )
    | inr neither ↦ absurd (ground (arith, e))
  ]
]

module _ (s : Setting) (downtime : ℕ) (method : String) where
  abbrev pub Judged : Scenario → Type 0
  Judged unknown_method = redis_stop method ≡ none
  Judged (command_failed c) =
      ((redis_stop method ≡ some c) ⊎ (redis_start method ≡ some c)) × (s.runs c ≡ false)
  Judged (reports r) =
      (count : ℕ) × (r.probes_during_outage ≡ probes_of s.probe 0 count)
      × Lasts downtime s.clock.test count
      × (r ≡ report_of s r.probes_during_outage)
      × Judges r.probes_during_outage r.verdict

  -- If each round takes the three seconds that it sleeps, the Redis scenario ends: it raises for a
  -- method that it does not know, or for a command of this method that fails; otherwise it reports
  -- on the probes of all rounds that began during the outage, and its verdict is FAIL exactly if
  -- one got a 2xx, PASS if none did and one got a 5xx or raised, and INCONCLUSIVE otherwise.
  pub run_redis_failure_scenario-Judged :
      Sleeps 3000 s.clock.test
      → (r : Scenario) × (run_redis_failure_scenario s downtime method ≡ some r) × Judged r
  unfolding run_redis_failure_scenario run_command
  run_redis_failure_scenario-Judged sleeps =
      let (count, stop, reached, ran, lasts) =
        probe_from downtime s.clock.test s.probe 3000 (downtime / 3000 + 1) 0 sleeps (omega arith)
          (λ m h. absurd (omega arith)) in
      elim (Option-cases (redis_stop method)) [
        | inl unknown ↦ (unknown_method, rw (unknown, run_redis_failure_scenario) refl, unknown)
        | inr (c, known) ↦
            let (d, known') = start_known method c known in
            elim (Bool-cases (s.runs c)) [
              | inr fails ↦ (
                command_failed c,
                rw (known, run_redis_failure_scenario, fails) refl,
                (inl known, fails),
              )
              | inl stops ↦ elim (Bool-cases (s.runs d)) [
                | inr fails ↦ (
                  command_failed d,
                  rw (known, known', stops, run_redis_failure_scenario, ran, fails) refl,
                  (inr known', fails),
                )
                | inl starts ↦ (
                  reports (report_of s (probes_of s.probe 0 count)),
                  rw (known, known', stops, run_redis_failure_scenario, ran, starts) refl,
                  (
                    count,
                    refl,
                    subst (Lasts downtime s.clock.test) (omega arith) lasts,
                    refl,
                    verdict-Judges (probes_of s.probe 0 count),
                  ),
                )
              ]
            ]
      ]
