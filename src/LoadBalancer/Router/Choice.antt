-- ===== src/LoadBalancer/Router/Choice.antt =====
-- What a new router of load_balancer/router.py is, and that a backend which it chooses is healthy.
use mathlib.Core.Path.{subst}
use mathlib.Core.List.{append-nil}
use flight_pulse.Base.{
  String, ◌≡◌, sym, ap, ◌∙◌, inl, inr, Bool, true, Option, some, List, [], ◌∷◌, arith, Bool-cases,
  contains, string_eq, nat_eq,
}
use flight_pulse.Base.{filter}
use flight_pulse.LoadBalancer.Health.{HealthChecker, healthy_backends}
use flight_pulse.LoadBalancer.Router.{RoundRobinRouter, new_router, next_backend}
use flight_pulse.LoadBalancer.Router.Queue.{IsValid, rotation, queue, serve, next_backend-Chooses}

pub new_router-IsValid :
    (urls : List String) (r : RoundRobinRouter)
    → new_router urls ≡ some r
    → IsValid r × (rotation r ≡ urls)
unfolding new_router
new_router-IsValid [] r e = absurd (cc)
new_router-IsValid (url ∷ urls) r e =
    let router : RoundRobinRouter = record { backend_urls = url ∷ urls; position = 0 } in
    let same : router ≡ r = cc in
    subst (λ x. IsValid x × (rotation x ≡ url ∷ urls)) same (omega arith, append-nil (url ∷ urls))

filter_head {ℓ} :
    {A : Type ℓ} (p : A → Bool) (l q : List A) (x : A) → filter p l ≡ x ∷ q → p x ≡ true
filter_head p [] q x e = absurd (cc)
filter_head p (y ∷ l) q x e = elim (Bool-cases (p y)) [
  | inl kept ↦ let same : y ≡ x = cc (rw kept at e) in rw (← same) kept
  | inr left ↦ filter_head p l q x (rw left at e)
]

served_head :
    (q q' : List String) (url : String)
    → (some url, q') ≡ serve q
    → (rest : List String) × (q ≡ url ∷ rest)
served_head [] q' url e = absurd (cc (ap (λ (t : Option String × List String). t.0) e))
served_head (x ∷ q) q' url e =
    (q, let same : some url ≡ some x = ap (λ (t : Option String × List String). t.0) e in cc)

-- The backend that a call chooses is listed as healthy.
pub choice_listed :
    (checker : HealthChecker) (r : RoundRobinRouter) (url : String)
    → IsValid r
    → (next_backend (some checker) r).0 ≡ some url
    → contains (healthy_backends checker) url ≡ true
choice_listed checker r url v e =
    let (served, _, _) = next_backend-Chooses checker r v in
    let q' = queue (healthy_backends checker) (next_backend (some checker) r).1 in
    let (rest, found) =
      served_head (queue (healthy_backends checker) r) q' url
        (ap (λ (c : Option String). (c, q')) (sym e) ∙ served) in
    filter_head (contains (healthy_backends checker)) (rotation r) rest url found
