-- ===== src/LoadBalancer/Health.antt =====
-- load_balancer/health.py: the state machine of each backend. The lock makes each method one step;
-- the polling thread and the requests that mark a backend are a sequence of such steps. A result
-- `none` is a `KeyError`, which every method raises before it writes.
pub mod Invariant
pub mod Known
pub mod History
pub mod Recovery
use mathlib.Core.Option
use flight_pulse.Base.{
  ℕ, ◌+◌, String, Bool, true, false, Option, none, some, List, [], ◌∷◌, map, leb, if◌then◌else◌,
  ◌==◌, string_eq, nat_eq,
}
use flight_pulse.Base.Dict.{Dict, lookup, insert}
use flight_pulse.LoadBalancer.Metrics.{Metrics, record_health_check_failure}

pub data BackendState : Type 0 where
  healthy unhealthy recovering : BackendState

-- `==` on the enum
abbrev pub is_healthy : BackendState → Bool
is_healthy healthy = true
is_healthy _ = false

-- `recoveries_required` is an int that is compared with counts, so a negative one acts as 0.
pub record HealthChecker : Type 0 where
  pub backend_urls : List String
  pub recoveries_required : ℕ
  pub state : Dict String BackendState
  pub consecutive_passes : Dict String ℕ

-- A dict comprehension over the URLs with one value.
abbrev pub from_keys {ℓ} : {V : Type ℓ} → V → List String → Dict String V → Dict String V
from_keys v [] d = d
from_keys v (url ∷ urls) d = from_keys v urls (insert url v d)

-- `__init__`: every backend starts healthy.
unfoldable pub new_checker : List String → ℕ → HealthChecker
new_checker urls required = record {
  backend_urls = urls;
  recoveries_required = required;
  state = from_keys healthy urls [];
  consecutive_passes = from_keys 0 urls [];
}

-- What `requests.get(f"{url}/health")` did.
pub data Probe : Type 0 where
  status : ℕ → Probe
  request_exception : Probe

unfoldable pub probe_ok : Probe → Bool
probe_ok (status code) = code == 200
probe_ok request_exception = false

unfoldable pub put_state : String → BackendState → ℕ → HealthChecker → HealthChecker
put_state url s passes h = record h {
  state = insert url s h.state;
  consecutive_passes = insert url passes h.consecutive_passes;
}

-- `self._consecutive_passes[url] += 1`, and what follows it
unfoldable pub count_pass : String → ℕ → HealthChecker → HealthChecker
unfolding put_state
count_pass url passes h =
    if leb h.recoveries_required passes
    then put_state url healthy 0 h
    else record h { consecutive_passes = insert url passes h.consecutive_passes }

-- `if healthy:`, by the current state
unfoldable pub on_pass : BackendState → String → HealthChecker → Option HealthChecker
unfolding count_pass
on_pass healthy url h = some h
on_pass unhealthy url h = some (put_state url recovering 1 h)
on_pass recovering url h =
    Option.map (λ passes. count_pass url (passes + 1) h) (lookup url h.consecutive_passes)

-- The part of `_check_one` under the lock.
unfoldable pub observe : String → Bool → HealthChecker → Option HealthChecker
unfolding on_pass
observe url passed h = elim (lookup url h.state) [
  | none ↦ none
  | some current ↦ if passed then on_pass current url h else some (put_state url unhealthy 0 h)
]

unfoldable pub mark_unhealthy : String → HealthChecker → Option HealthChecker
unfolding put_state
mark_unhealthy url h = Option.map (λ _. put_state url unhealthy 0 h) (lookup url h.state)

-- `_check_one`: `metrics` may be None, and is told of a failure before the lock is taken.
unfoldable pub check_one :
    {F : Type 0}
    → String
    → Probe
    → Option (Metrics F)
    → HealthChecker
    → Option (Metrics F) × Option HealthChecker
unfolding probe_ok observe
check_one url probe metrics h =
    let passed = probe_ok probe in
    (
      if passed then metrics else Option.map (record_health_check_failure url) metrics,
      observe url passed h,
    )

unfoldable pub get_state : String → HealthChecker → Option BackendState
get_state url h = lookup url h.state

-- The URLs of the healthy entries, in the order of the dict.
unfoldable pub healthy_keys : Dict String BackendState → List String
healthy_keys [] = []
healthy_keys ((url, s) ∷ d) = if is_healthy s then url ∷ healthy_keys d else healthy_keys d

unfoldable pub healthy_backends : HealthChecker → List String
unfolding healthy_keys
healthy_backends h = healthy_keys h.state

-- The value of the enum.
abbrev pub state_value : BackendState → String
state_value healthy = "HEALTHY"
state_value unhealthy = "UNHEALTHY"
state_value recovering = "RECOVERING"

unfoldable pub state_values : Dict String BackendState → Dict String String
state_values [] = []
state_values ((url, s) ∷ d) = (url, state_value s) ∷ state_values d

unfoldable pub snapshot : HealthChecker → Dict String String
unfolding state_values
snapshot h = state_values h.state

-- One pass of `_run_loop` over the backends; `probe` is what each answers in it. A `KeyError`
-- ends the thread.
unfoldable pub check_all :
    {F : Type 0}
    → (String → Probe)
    → List String
    → Option (Metrics F)
    → HealthChecker
    → Option (Metrics F) × Option HealthChecker
check_all probe [] metrics h = (metrics, some h)
check_all probe (url ∷ urls) metrics h =
    let (metrics', checked) = check_one url (probe url) metrics h in
    elim checked [ none ↦ (metrics', none) | some h' ↦ check_all probe urls metrics' h' ]
