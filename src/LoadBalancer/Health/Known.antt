-- ===== src/LoadBalancer/Health/Known.antt =====
-- The backends that a checker of load_balancer/health.py was made for, under each method.
use flight_pulse.Base.{
  ℕ, ◌+◌, String, ◌≡◌, refl, inl, inr, Bool, true, Option, none, some, arith, leb, if◌then◌else◌,
  Bool-cases, Option-cases, ◌==◌, contains, string_eq, nat_eq, option_eq, list_eq,
}
use flight_pulse.Base.Dict.{lookup, lookup-insert}
use flight_pulse.LoadBalancer.Health.{
  BackendState, healthy, unhealthy, recovering, HealthChecker, put_state, count_pass, on_pass,
  observe, mark_unhealthy, get_state, healthy_backends,
}
use flight_pulse.LoadBalancer.Health.Invariant.{
  IsValid, put_state-IsValid, contains-healthy_backends,
}

-- The backend is one that the checker was made for.
abbrev pub HasState : String → HealthChecker → Type 0
HasState url h = (s : BackendState) × (lookup url h.state ≡ some s)

-- An entry that is written is there, and every other stays.
HasState-put :
    (url u : String) (s : BackendState) (n : ℕ) (h : HealthChecker)
    → HasState u h
    → HasState u (put_state url s n h)
unfolding put_state
HasState-put url u s n h (t, e) = elim (Bool-cases (u == url)) [
  | inl same ↦ (s, rw (lookup-insert u url s h.state, same) refl)
  | inr other ↦ (t, rw (lookup-insert u url s h.state, other) e)
]

-- What a method that returned has kept.
abbrev pub Carries : String → Option HealthChecker → Type 0
Carries u none = Unit
Carries u (some h) = HasState u h

count_pass_carries :
    (url u : String) (n : ℕ) (h : HealthChecker) → HasState u h → HasState u (count_pass url n h)
unfolding count_pass
count_pass_carries url u n h has = elim (Bool-cases (leb h.recoveries_required n)) [
  | inl enough ↦ rw enough (HasState-put url u healthy 0 h has)
  | inr more ↦ rw more has
]

on_pass-Carries :
    (s : BackendState) (url u : String) (h : HealthChecker)
    → HasState u h
    → Carries u (on_pass s url h)
unfolding on_pass
on_pass-Carries healthy url u h has = has
on_pass-Carries unhealthy url u h has = HasState-put url u recovering 1 h has
on_pass-Carries recovering url u h has = elim (Option-cases (lookup url h.consecutive_passes)) [
  | inl missing ↦ rw missing tt
  | inr (n, e) ↦ rw e (count_pass_carries url u (n + 1) h has)
]

pub observe-Carries :
    (url u : String) (passed : Bool) (h : HealthChecker)
    → HasState u h
    → Carries u (observe url passed h)
unfolding observe
observe-Carries url u passed h has = elim (Option-cases (lookup url h.state)) [
  | inl missing ↦ rw (missing, observe, Carries) tt
  | inr (s, e) ↦
      rw (e, observe, Carries)
        (elim (Bool-cases passed) [
          | inl pass ↦ rw pass (on_pass-Carries s url u h has)
          | inr fail ↦ rw fail (HasState-put url u unhealthy 0 h has)
        ])
]

-- A known backend can be marked: it is then unhealthy, and every other has the state that it had.
pub mark_unhealthy_known :
    (url : String) (h : HealthChecker)
    → IsValid h
    → HasState url h
    → (h' : HealthChecker) × (mark_unhealthy url h ≡ some h')
      × IsValid h'
      × ((u : String) → get_state u h' ≡ (if u == url then some unhealthy else get_state u h))
unfolding mark_unhealthy get_state
mark_unhealthy_known url h v (s, e) = (
  put_state url unhealthy 0 h,
  rw e refl,
  put_state-IsValid url unhealthy 0 h v refl,
  λ u. unfold put_state in lookup-insert u url unhealthy h.state,
)

-- A listed backend is a known one.
pub listed-HasState :
    (h : HealthChecker) (url : String)
    → IsValid h
    → contains (healthy_backends h) url ≡ true
    → HasState url h
unfolding get_state
listed-HasState h url v listed =
    let same = contains-healthy_backends h url v in
    elim (Option-cases (lookup url h.state)) [
      | inl missing ↦ absurd (ground (arith, same, missing))
      | inr found ↦ found
    ]
