-- ===== src/LoadBalancer/Metrics/History.antt =====
-- The state of load_balancer/metrics.py as a function of the calls that it has recorded.
use flight_pulse.Base.{
  ℕ, ◌+◌, ◌-◌, String, ◌≡◌, refl, sym, ap, ◌∙◌, inl, inr, List, [], ◌∷◌, ◌++◌, arith, ltb,
  if◌then◌else◌, Bool-cases, length, drop, length-append, length-drop, ◌==◌, string_eq, nat_eq,
}
use flight_pulse.Base.{drop-append, drop-drop}
use mathlib.Core.List.{append_assoc, append-nil}
use flight_pulse.Base.Dict.{lookup, or_zero, lookup-increment}
use flight_pulse.LoadBalancer.Metrics.{
  Metrics, window, last_n, new_metrics, trim, record_request, record_health_check_failure,
}
use flight_pulse.LoadBalancer.Metrics.Counters.{
  Recording, request, failed_check, record_one, record_all,
}

last_n_step {ℓ} :
    {A : Type ℓ} (w : ℕ) (h : List A) (x : A)
    → last_n w (last_n w h ++ x ∷ []) ≡ last_n w (h ++ x ∷ [])
last_n_step w h x =
    let d = length h - w in
    let k = length (drop d h ++ x ∷ []) - w in
    let index : d + k ≡ length (h ++ x ∷ []) - w =
      omega (arith, length-append (drop d h) (x ∷ []), length-append h (x ∷ []), length-drop d h) in
    ap (drop k) (sym (drop-append d h (x ∷ []) (omega arith)))
    ∙ drop-drop k d (h ++ x ∷ [])
    ∙ ap (λ n. drop n (h ++ x ∷ [])) index

module _ {F : Type 0} where
  -- The latencies of the recorded requests, oldest first.
  abbrev pub latencies : List (Recording F) → List F
  latencies [] = []
  latencies (request _ _ ms _ ∷ rs) = ms ∷ latencies rs
  latencies (failed_check _ ∷ rs) = latencies rs

  -- How often a backend was selected, and how often its check failed.
  abbrev pub selected : String → List (Recording F) → ℕ
  selected url [] = 0
  selected url (request u _ _ _ ∷ rs) = (if url == u then 1 else 0) + selected url rs
  selected url (failed_check _ ∷ rs) = selected url rs

  abbrev pub failures : String → List (Recording F) → ℕ
  failures url [] = 0
  failures url (request _ _ _ _ ∷ rs) = failures url rs
  failures url (failed_check u ∷ rs) = (if url == u then 1 else 0) + failures url rs

  trim-last_n : (l : List F) → trim l ≡ last_n window l
  trim-last_n l = elim (Bool-cases (ltb window (length l))) [
    | inl long ↦ rw long
    | inr short ↦ let none_cut : length l - window ≡ 0 = ground arith in rw (short, none_cut)
  ]

  record_all-latencies :
      (rs : List (Recording F)) (h : List F) (m : Metrics F)
      → m.latencies_ms ≡ last_n window h
      → (record_all rs m).latencies_ms ≡ last_n window (h ++ latencies rs)
  unfolding record_all record_one
  record_all-latencies [] h m e = rw append-nil e
  record_all-latencies (request url success ms retried ∷ rs) h m e =
      record_all-latencies rs (h ++ ms ∷ []) (record_request url success ms retried m) (
        trim-last_n (m.latencies_ms ++ ms ∷ [])
        ∙ ap (λ l. last_n window (l ++ ms ∷ [])) e
        ∙ last_n_step window h ms)
      ∙ ap (last_n window) (append_assoc h (ms ∷ []) (latencies rs))
  record_all-latencies (failed_check url ∷ rs) h m e =
      record_all-latencies rs h (record_health_check_failure url m) e

  record_all_counts :
      (rs : List (Recording F)) (m : Metrics F) (url : String)
      → (or_zero (lookup url (record_all rs m).backend_selection_counts)
          ≡ or_zero (lookup url m.backend_selection_counts) + selected url rs)
        × (or_zero (lookup url (record_all rs m).health_check_failures)
            ≡ or_zero (lookup url m.health_check_failures) + failures url rs)
  unfolding record_all record_one
  record_all_counts [] m url = (omega arith, omega arith)
  record_all_counts (request u success ms retried ∷ rs) m url = ground (
    arith,
    record_all_counts rs (record_request u success ms retried m) url,
    lookup-increment url u m.backend_selection_counts,
  )
  record_all_counts (failed_check u ∷ rs) m url = ground (
    arith,
    record_all_counts rs (record_health_check_failure u m) url,
    lookup-increment url u m.health_check_failures,
  )

  -- After any recorded calls, from new metrics: the window holds the last 1000 request latencies
  -- in their order, a backend's selection count is the number of requests recorded for it, and its
  -- failure count the number of its failed checks.
  pub record_all-history :
      (rs : List (Recording F)) (url : String)
      → let m = record_all rs new_metrics in
        (m.latencies_ms ≡ last_n window (latencies rs))
        × (or_zero (lookup url m.backend_selection_counts) ≡ selected url rs)
        × (or_zero (lookup url m.health_check_failures) ≡ failures url rs)
  unfolding lookup
  record_all-history rs url =
      let (selections, checks) = record_all_counts rs new_metrics url in
      (record_all-latencies rs [] new_metrics refl, omega arith, omega arith)
