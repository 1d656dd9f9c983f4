-- ===== src/Replay/FaultInjection/ApiFailure/Outcome.antt =====
-- How the API scenario of replay/fault_injection.py ends.

use flight_pulse.Base.{
  ℕ, String, ◌≡◌, refl, ◌⊎◌, inl, inr, true, false, some, [], ◌∷◌, Bool-cases, Option-cases, All,
  string_eq, nat_eq, option_eq, list_eq,
}
use flight_pulse.Replay.FaultInjection.{
  fetch_json, kill_process, kill_backend, find_backend_pid, backend_of_port, recovery_poll_timeout,
  recovery_poll_interval,
}
use flight_pulse.Replay.FaultInjection.Polling.{Sleeps, Waits, wait_for_backend_state-Waits}
use flight_pulse.Replay.FaultInjection.ApiFailure.Targets.{
  Silent, FirstListener, NoPort, FirstWithPort, no_listener, first_listener, no_backend,
  first_with_port,
}
use flight_pulse.Replay.FaultInjection.ApiFailure.{
  Setting, Report, Scenario, exits, raises, reports, deltas_of, measure_recovery, after_kill,
  run_scenario,
}

module _ (s : Setting) (port : ℕ) where
  -- What both waits say of the backend.
  abbrev pub Measures : String → Report → Type 0
  Measures url r =
      Waits url ("RECOVERING" ∷ "HEALTHY" ∷ []) recovery_poll_timeout s.recovering_clock
        s.recovering_status r.reached_recovering r.t_to_recovering
      × Waits url ("HEALTHY" ∷ []) recovery_poll_timeout s.healthy_clock s.healthy_status
          r.reached_healthy r.t_to_healthy
      × (r.deltas ≡ deltas_of (fetch_json s.baseline) (fetch_json s.after_recovery))

  abbrev pub Judged : Scenario → Type 0
  Judged exits = All (NoPort port) s.backend_urls ⊎ All (Silent port) s.connections
  Judged raises = (pid : ℕ) × FirstListener port s.connections pid × (s.psutil_raises pid ≡ true)
  Judged (reports pid r) =
      (url : String) × FirstWithPort port s.backend_urls url
      × FirstListener port s.connections pid
      × (s.psutil_raises pid ≡ false)
      × Measures url r

  measures :
      (url : String)
      → Sleeps recovery_poll_interval s.recovering_clock.test
      → Sleeps recovery_poll_interval s.healthy_clock.test
      → (r : Report) × (measure_recovery s url ≡ some r) × Measures url r
  unfolding measure_recovery
  measures url sleeps sleeps' =
      let (reached, t, ran, waits) =
        wait_for_backend_state-Waits url ("RECOVERING" ∷ "HEALTHY" ∷ []) recovery_poll_timeout
          s.recovering_clock s.recovering_status sleeps in
      let (reached', t', ran', waits') =
        wait_for_backend_state-Waits url ("HEALTHY" ∷ []) recovery_poll_timeout s.healthy_clock
          s.healthy_status sleeps' in
      let r : Report = record {
        reached_recovering = reached;
        t_to_recovering = t;
        reached_healthy = reached';
        t_to_healthy = t';
        replay_summary = s.replay_summary;
        deltas = deltas_of (fetch_json s.baseline) (fetch_json s.after_recovery);
      } in
      (r, rw (ran, ran', measure_recovery) refl, (waits, waits', refl))

  -- If the rounds of both waits take the two seconds that they sleep, the API scenario ends. It
  -- exits if no configured URL ends with a colon and the port, or no connection tells of a process
  -- that listens on the port, and fails if psutil does for the process of the first that does.
  -- Otherwise it has killed that process, the waits say truly whether and when /lb-status showed
  -- the first URL with the port recovering and healthy, and the differences are those of the two
  -- answers of /lb-metrics, if both could be fetched.
  pub run_scenario-Judged :
      Sleeps recovery_poll_interval s.recovering_clock.test
      → Sleeps recovery_poll_interval s.healthy_clock.test
      → (r : Scenario) × (run_scenario s port ≡ some r) × Judged r
  unfolding run_scenario after_kill kill_backend kill_process
  run_scenario-Judged sleeps sleeps' = elim (Option-cases (backend_of_port port s.backend_urls)) [
    | inl unknown ↦
        (exits, rw (unknown, run_scenario) refl, inl (no_backend port s.backend_urls unknown))
    | inr (url, known) ↦ elim (Option-cases (find_backend_pid port s.connections)) [
      | inl nobody ↦ (
        exits,
        rw (known, run_scenario, kill_backend, nobody) refl,
        inr (no_listener port s.connections nobody),
      )
      | inr (pid, listens) ↦ elim (Bool-cases (s.psutil_raises pid)) [
        | inl fails ↦ (
          raises,
          rw (known, run_scenario, kill_backend, listens, fails) refl,
          (pid, first_listener port s.connections pid listens, fails),
        )
        | inr dies ↦
            let (r, ran, m) = measures url sleeps sleeps' in
            (
              reports pid r,
              rw (known, run_scenario, kill_backend, listens, dies, ran) refl,
              (
                url,
                first_with_port port s.backend_urls url known,
                first_listener port s.connections pid listens,
                dies,
                m,
              ),
            )
      ]
    ]
  ]
