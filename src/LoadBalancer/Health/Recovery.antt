-- ===== src/LoadBalancer/Health/Recovery.antt =====
-- A backend of load_balancer/health.py that answers again is trusted again.
use mathlib.Core.Option
use flight_pulse.Base.{
  ℕ, zero, suc, ◌+◌, ◌≤◌, max, String, ◌≡◌, refl, ap, ◌∙◌, inl, inr, Bool, true, Option, none, some,
  List, [], ◌∷◌, ◌++◌, arith, if◌then◌else◌, Bool-cases, All, ◌==◌, contains, string_eq, nat_eq,
  option_eq, list_eq,
}
use flight_pulse.LoadBalancer.Health.{healthy, HealthChecker, new_checker, get_state}
use flight_pulse.LoadBalancer.Health.History.{
  Event, target, passed, apply_all, streak, state_of, outcomes, Known, state_after_events,
}

-- The checks of a backend among events, and that no event is a failure of it.
abbrev pub checks_of : String → List Event → ℕ
checks_of url [] = 0
checks_of url (e ∷ es) = if url == target e then checks_of url es + 1 else checks_of url es

abbrev pub NeverFails : String → List Event → Type 0
NeverFails url = All (λ e. (url == target e) ≡ true → passed e ≡ true)

outcomes-append :
    (url : String) (es fs : List Event) (before : List Bool)
    → outcomes url (es ++ fs) before ≡ outcomes url fs (outcomes url es before)
outcomes-append url [] fs before = refl
outcomes-append url (e ∷ es) fs before =
    outcomes-append url es fs (if url == target e then passed e ∷ before else before)

-- Passes lengthen the streak, if there is one.
abbrev longer : ℕ → Option ℕ → Option ℕ
longer k none = none
longer k (some n) = some (n + k)

longer_none : (o : Option ℕ) → o ≡ longer 0 o
longer_none none = refl
longer_none (some n) = ap (λ k. some k) (omega arith)

longer-suc : (k : ℕ) (o : Option ℕ) → longer k (Option.map suc o) ≡ longer (k + 1) o
longer-suc k none = refl
longer-suc k (some n) = ap (λ j. some j) (omega arith)

streak_grows :
    (url : String) (fs : List Event) (before : List Bool)
    → NeverFails url fs
    → streak (outcomes url fs before) ≡ longer (checks_of url fs) (streak before)
streak_grows url [] before all = longer_none (streak before)
streak_grows url (e ∷ fs) before (passes, all) = elim (Bool-cases (url == target e)) [
  | inl its ↦
      rw (its, passes its)
        (streak_grows url fs (true ∷ before) all ∙ longer-suc (checks_of url fs) (streak before))
  | inr other ↦ rw other (streak_grows url fs before all)
]

long_enough : (required m : ℕ) → max 2 required ≤ m → state_of required (some m) ≡ healthy
long_enough required zero enough = absurd (omega arith)
long_enough required (suc m) enough = ground arith

trusted :
    (required k : ℕ) (o : Option ℕ) → max 2 required ≤ k → state_of required (longer k o) ≡ healthy
trusted required k none enough = refl
trusted required k (some n) enough = long_enough required (n + k) (omega arith)

-- Whatever has happened to a configured backend before, failures and marks included: after
-- `recoveries_required` further checks of it, and at least two, without a failure among them,
-- it is healthy, whatever other backends' checks come in between.
pub recovers :
    (urls : List String) (required : ℕ) (past recent : List Event) (url : String)
    → Known urls required (past ++ recent)
    → contains urls url ≡ true
    → NeverFails url recent
    → max 2 required ≤ checks_of url recent
    → (h : HealthChecker) × (apply_all (past ++ recent) (new_checker urls required) ≡ some h)
      × (get_state url h ≡ some healthy)
recovers urls required past recent url known listed passes enough =
    let (h, ran, states) = state_after_events urls required (past ++ recent) known in
    let grown =
      ap streak (outcomes-append url past recent [])
      ∙ streak_grows url recent (outcomes url past []) passes in
    let state = trusted required (checks_of url recent) (streak (outcomes url past [])) enough in
    (h, ran, states url ∙ rw (listed, grown) (ap (λ s. some s) state))
