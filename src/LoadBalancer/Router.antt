-- ===== src/LoadBalancer/Router.antt =====
-- load_balancer/router.py: round robin over the backends. `itertools.cycle` is the list with the
-- index of its next element; the lock makes a call one step.
pub mod Queue
pub mod Choice
use flight_pulse.Base.{
  ℕ, zero, suc, ◌+◌, String, Bool, true, false, Option, none, some, List, [], ◌∷◌, if◌then◌else◌,
  length, get_elem?, ◌==◌, contains, string_eq, nat_eq,
}
use flight_pulse.LoadBalancer.Health.{HealthChecker, healthy_backends}

pub record RoundRobinRouter : Type 0 where
  pub backend_urls : List String
  pub position : ℕ

-- `__init__`: `none` is the `ValueError` of an empty list.
unfoldable pub new_router : List String → Option RoundRobinRouter
new_router [] = none
new_router (url ∷ urls) = some (record { backend_urls = url ∷ urls; position = 0 })

-- `next(self._cycle)`: `none` would be a `StopIteration`.
unfoldable pub cycle_next : RoundRobinRouter → Option String × RoundRobinRouter
cycle_next r = (
  get_elem? r.backend_urls r.position,
  record r { position = if r.position + 1 == length r.backend_urls then 0 else r.position + 1 },
)

-- The `for` of `next_backend`, with its rounds left.
unfoldable pub scan : ℕ → List String → RoundRobinRouter → Option String × RoundRobinRouter
unfolding cycle_next
scan zero healthy r = (none, r)
scan (suc rounds) healthy r =
    let (candidate, r') = cycle_next r in
    let rest = scan rounds healthy r' in
    elim candidate [
      | none ↦ (none, r')
      | some url ↦ if contains healthy url then (some url, r') else rest
    ]

abbrev pub is_empty {ℓ} : {A : Type ℓ} → List A → Bool
is_empty [] = true
is_empty (_ ∷ _) = false

unfoldable pub next_backend :
    Option HealthChecker → RoundRobinRouter → Option String × RoundRobinRouter
unfolding scan
next_backend none r = cycle_next r
next_backend (some checker) r =
    let healthy = healthy_backends checker in
    if is_empty healthy then (none, r) else scan (length r.backend_urls) healthy r
