-- ===== src/LoadBalancer/Health/History.antt =====
-- load_balancer/health.py against its abstract view: the state of a backend is a function of its
-- own checks, newest first, and of nothing else.
use mathlib.Core.Option
use flight_pulse.Base.{
  ℕ, zero, suc, ◌+◌, max, String, ◌≡◌, refl, ◌∙◌, inl, inr, Bool, true, false, Option, none, some,
  List, [], ◌∷◌, arith, ltb, if◌then◌else◌, Bool-cases, All, ◌==◌, contains, string_eq, nat_eq,
}
use flight_pulse.Base.Dict.{lookup, lookup-insert}
use flight_pulse.LoadBalancer.Health.{
  BackendState, healthy, unhealthy, recovering, HealthChecker, new_checker, put_state, count_pass,
  observe, mark_unhealthy, get_state,
}
use flight_pulse.LoadBalancer.Health.Invariant.{lookup-from_keys}

-- One step of a checker: a polled check with its outcome, or a mark by a failed request.
pub data Event : Type 0 where
  checked : String → Bool → Event
  marked : String → Event

abbrev pub target : Event → String
target (checked url _) = url
target (marked url) = url

-- A mark counts as a failed check.
abbrev pub passed : Event → Bool
passed (checked _ ok) = ok
passed (marked _) = false

unfoldable pub apply : Event → HealthChecker → Option HealthChecker
unfolding observe mark_unhealthy
apply (checked url ok) h = observe url ok h
apply (marked url) h = mark_unhealthy url h

unfoldable pub apply_all : List Event → HealthChecker → Option HealthChecker
unfolding apply
apply_all [] h = some h
apply_all (e ∷ es) h = elim (apply e h) [ none ↦ none | some h' ↦ apply_all es h' ]

-- The passes since the last failure, of outcomes with the newest first; none if nothing failed.
abbrev pub streak : List Bool → Option ℕ
streak [] = none
streak (false ∷ _) = some 0
streak (true ∷ outcomes) = Option.map suc (streak outcomes)

-- The state that a streak stands for: after a failure a backend is trusted again at the second
-- pass in a row, or at the `required`-th if that is later.
abbrev pub state_of : ℕ → Option ℕ → BackendState
state_of required none = healthy
state_of required (some zero) = unhealthy
state_of required (some (suc n)) = if ltb (suc n) (max 2 required) then recovering else healthy

abbrev pub passes_of : ℕ → Option ℕ → ℕ
passes_of required none = 0
passes_of required (some n) = if ltb n (max 2 required) then n else 0

-- The outcomes of one backend, newest first, where `before` has those of the past.
abbrev pub outcomes : String → List Event → List Bool → List Bool
outcomes url [] before = before
outcomes url (e ∷ es) before =
    outcomes url es (if url == target e then passed e ∷ before else before)

count_pass_required :
    (n : ℕ) (url : String) (h : HealthChecker)
    → (count_pass url n h).recoveries_required ≡ h.recoveries_required
unfolding count_pass
count_pass_required n url h = ground arith

module _ (urls : List String) (required : ℕ) where
  record Refines (past : String → List Bool) (h : HealthChecker) : Type 0 where
    required_at : h.recoveries_required ≡ required
    state_at :
        (url : String)
        → lookup url h.state
          ≡ (if contains urls url then some (state_of required (streak (past url))) else none)
    passes_at :
        (url : String)
        → lookup url h.consecutive_passes
          ≡ (if contains urls url then some (passes_of required (streak (past url))) else none)

  abbrev push : Event → (String → List Bool) → String → List Bool
  push e past url = if url == target e then passed e ∷ past url else past url

  fail_step :
      (past : String → List Bool) (h : HealthChecker) (e : Event)
      → passed e ≡ false
      → contains urls (target e) ≡ true
      → Refines past h
      → Refines (push e past) (put_state (target e) unhealthy 0 h)
  unfolding put_state
  fail_step past h e failed known r = record {
    required_at = r.required_at;
    state_at = λ url. ground (
      arith,
      r.state_at url,
      lookup-insert url (target e) unhealthy h.state,
      string_eq.beq_iff url (target e),
    );
    passes_at = λ url. ground (
      arith,
      r.passes_at url,
      lookup-insert url (target e) 0 h.consecutive_passes,
      string_eq.beq_iff url (target e),
    );
  }

  -- What one step has done: it returned, and what it returned refines the longer history.
  abbrev Steps : Event → (String → List Bool) → HealthChecker → Type 0
  Steps e past h = (h' : HealthChecker) × (apply e h ≡ some h') × Refines (push e past) h'

  -- A pass that leaves the entry of its own backend right and the others alone refines.
  pass_step :
      (past : String → List Bool) (h h' : HealthChecker) (url : String) (k : Option ℕ)
      → streak (past url) ≡ k
      → contains urls url ≡ true
      → Refines past h
      → h'.recoveries_required ≡ h.recoveries_required
      → ((u : String)
          → lookup u h'.state
            ≡ (if u == url then some (state_of required (Option.map suc k)) else lookup u h.state))
      → ((u : String)
          → lookup u h'.consecutive_passes ≡ (
              if u == url
              then some (passes_of required (Option.map suc k))
              else lookup u h.consecutive_passes))
      → Refines (push (checked url true) past) h'
  pass_step past h h' url k e known r same states passes = record {
    required_at = same ∙ r.required_at;
    state_at = λ u. ground (arith, r.state_at u, states u, string_eq.beq_iff u url);
    passes_at = λ u. ground (arith, r.passes_at u, passes u, string_eq.beq_iff u url);
  }

  pass_cases :
      (past : String → List Bool) (h : HealthChecker) (url : String) (k : Option ℕ)
      → streak (past url) ≡ k
      → contains urls url ≡ true
      → Refines past h
      → Steps (checked url true) past h
  unfolding apply count_pass
  pass_cases past h url none e known r = (
    h,
    ground (arith, r.state_at url),
    pass_step past h h url none e known r refl
        (λ u. ground (arith, r.state_at u, string_eq.beq_iff u url))
        (λ u. ground (arith, r.passes_at u, string_eq.beq_iff u url)),
  )
  pass_cases past h url (some zero) e known r = (
    put_state url recovering 1 h,
    ground (arith, r.state_at url),
    pass_step past h (put_state url recovering 1 h) url (some zero) e known r refl
        (λ u. ground (arith, lookup-insert u url recovering h.state))
        (λ u. ground (arith, lookup-insert u url 1 h.consecutive_passes)),
  )
  pass_cases past h url (some (suc n)) e known r =
      elim (Bool-cases (ltb (suc n) (max 2 required))) [
        | inl short ↦ (
          count_pass url (suc n + 1) h,
          ground (arith, r.state_at url, r.passes_at url),
          pass_step past h (count_pass url (suc n + 1) h) url (some (suc n)) e known r
              (count_pass_required (suc n + 1) url h)
              (λ u. ground (
                arith,
                r.required_at,
                r.state_at u,
                lookup-insert u url healthy h.state,
                string_eq.beq_iff u url,
              ))
              (λ u. ground (
                arith,
                r.required_at,
                lookup-insert u url 0 h.consecutive_passes,
                lookup-insert u url (suc n + 1) h.consecutive_passes,
              )),
        )
        | inr long ↦ (
          h,
          ground (arith, r.state_at url),
          pass_step past h h url (some (suc n)) e known r refl
              (λ u. ground (arith, r.state_at u, string_eq.beq_iff u url))
              (λ u. ground (arith, r.passes_at u, string_eq.beq_iff u url)),
        )
      ]

  step :
      (past : String → List Bool) (h : HealthChecker) (e : Event)
      → contains urls (target e) ≡ true
      → Refines past h
      → Steps e past h
  unfolding apply
  step past h (checked url true) known r = pass_cases past h url (streak (past url)) refl known r
  step past h (checked url false) known r = (
    put_state url unhealthy 0 h,
    ground (arith, r.state_at url),
    fail_step past h (checked url false) refl known r,
  )
  step past h (marked url) known r = (
    put_state url unhealthy 0 h,
    ground (arith, r.state_at url),
    fail_step past h (marked url) refl known r,
  )

  -- The events concern configured backends only.
  abbrev pub Known : List Event → Type 0
  Known = All (λ e. contains urls (target e) ≡ true)

  steps :
      (es : List Event) (past : String → List Bool) (h : HealthChecker)
      → Known es
      → Refines past h
      → (h' : HealthChecker) × (apply_all es h ≡ some h')
        × Refines (λ url. outcomes url es (past url)) h'
  unfolding apply_all
  steps [] past h known r = (h, refl, r)
  steps (e ∷ es) past h known r =
      let (h₁, stepped, r₁) = step past h e known.0 r in
      let (h₂, ran, r₂) = steps es (push e past) h₁ known.1 r₁ in
      (h₂, ground (arith, stepped, ran), r₂)

  new_checker-Refines : Refines (λ _. []) (new_checker urls required)
  unfolding new_checker lookup
  new_checker-Refines = record {
    required_at = refl;
    state_at = λ url. lookup-from_keys healthy urls [] url;
    passes_at = λ url. lookup-from_keys {V = ℕ} 0 urls [] url;
  }

  -- Whatever the polling thread and failing requests have done so far, on configured backends: no
  -- step raised, and each configured backend has the state of its own outcomes: healthy before any
  -- failure, unhealthy right after one, recovering until `recoveries_required` passes in a row, and
  -- at least two, have followed it, healthy from then on. No other backend has a state.
  pub state_after_events :
      (es : List Event)
      → Known es
      → (h : HealthChecker) × (apply_all es (new_checker urls required) ≡ some h)
        × ((url : String)
            → get_state url h ≡ (
                if contains urls url
                then some (state_of required (streak (outcomes url es [])))
                else none))
  unfolding get_state
  state_after_events es known =
      let (h, ran, r) = steps es (λ _. []) (new_checker urls required) known new_checker-Refines in
      (h, ran, r.state_at)
