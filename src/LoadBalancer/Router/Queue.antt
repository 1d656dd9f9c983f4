-- ===== src/LoadBalancer/Router/Queue.antt =====
-- load_balancer/router.py refines a queue: the healthy backends in the order in which they will be
-- chosen. A choice takes the first and puts it last.
use mathlib.Core.List.{append_assoc, append-nil}
use flight_pulse.Base.{
  ℕ, zero, suc, ◌+◌, ◌≤◌, ◌<◌, String, ◌≡◌, refl, sym, ap, ◌∙◌, inl, inr, true, false, Option, none,
  some, List, [], ◌∷◌, ◌++◌, arith, if◌then◌else◌, Bool-cases, length, get_elem?, take, drop,
  length-append, length-take, length-drop, ◌==◌, contains, string_eq, nat_eq,
}
use flight_pulse.Base.{
  filter, filter-append, get_elem?_total, drop_at, take_at, take_all, drop_all, take-append,
}
use flight_pulse.LoadBalancer.Health.{HealthChecker, healthy_backends}
use flight_pulse.LoadBalancer.Router.{RoundRobinRouter, cycle_next, scan, is_empty, next_backend}

abbrev pub IsValid : RoundRobinRouter → Type 0
IsValid r = r.position < length r.backend_urls

-- The backends in the order of the cycle from here.
abbrev pub rotation : RoundRobinRouter → List String
rotation r = drop r.position r.backend_urls ++ take r.position r.backend_urls

-- The abstract view: those of them that are listed as healthy.
abbrev pub queue : List String → RoundRobinRouter → List String
queue healthy r = filter (contains healthy) (rotation r)

abbrev pub serve : List String → Option String × List String
serve [] = (none, [])
serve (url ∷ urls) = (some url, urls ++ url ∷ [])

-- One `next` of the cycle moves the first of the rotation to its end.
record Turns (r : RoundRobinRouter) (url : String) (rest : List String) : Type 0 where
  found : (cycle_next r).0 ≡ some url
  was : rotation r ≡ url ∷ rest
  becomes : rotation (cycle_next r).1 ≡ rest ++ url ∷ []
  valid : IsValid (cycle_next r).1
  same_backends : (cycle_next r).1.backend_urls ≡ r.backend_urls

abbrev rest_of : RoundRobinRouter → List String
rest_of r = drop (suc r.position) r.backend_urls ++ take r.position r.backend_urls

module _ (urls : List String) (i : ℕ) (url : String) (e : get_elem? urls i ≡ some url) where
  turned_over : i + 1 ≡ length urls → urls ++ [] ≡ (drop (suc i) urls ++ take i urls) ++ url ∷ []
  turned_over last =
      append-nil urls
      ∙ sym (take_all (suc i) urls (omega arith))
      ∙ take_at urls i url e
      ∙ ap (λ l. (l ++ take i urls) ++ url ∷ []) (sym (drop_all (suc i) urls (omega arith)))

  turned : drop (i + 1) urls ++ take (i + 1) urls ≡ (drop (suc i) urls ++ take i urls) ++ url ∷ []
  turned =
      let next : i + 1 ≡ suc i = omega arith in
      ap (λ k. drop k urls ++ take k urls) next
      ∙ ap (λ l. drop (suc i) urls ++ l) (take_at urls i url e)
      ∙ sym (append_assoc (drop (suc i) urls) (take i urls) (url ∷ []))

length-rest_of :
    (r : RoundRobinRouter) (n : ℕ)
    → IsValid r
    → suc n ≤ length r.backend_urls
    → n ≤ length (rest_of r)
length-rest_of r n v fits = omega (
  arith,
  length-append (drop (suc r.position) r.backend_urls) (take r.position r.backend_urls),
  length-drop (suc r.position) r.backend_urls,
  length-take r.position r.backend_urls,
)

cycle_next-Turns : (r : RoundRobinRouter) → IsValid r → (url : String) × Turns r url (rest_of r)
unfolding cycle_next
cycle_next-Turns r v =
    let (url, e) = get_elem?_total r.backend_urls r.position v in
    (
      url,
      record {
        found = e;
        was =
            ap (λ l. l ++ take r.position r.backend_urls) (drop_at r.backend_urls r.position url e);
        becomes = elim (Bool-cases (r.position + 1 == length r.backend_urls)) [
          | inl last ↦ rw last (turned_over r.backend_urls r.position url e (ground arith))
          | inr inside ↦ rw inside (turned r.backend_urls r.position url e)
        ];
        valid = ground arith;
        same_backends = refl;
      },
    )

module _ (healthy : List String) where
  skipped :
      (url : String) (rest : List String)
      → contains healthy url ≡ false
      → filter (contains healthy) (rest ++ url ∷ []) ≡ filter (contains healthy) (url ∷ rest)
  skipped url rest out =
      filter-append (contains healthy) rest (url ∷ [])
      ∙ rw out (append-nil (filter (contains healthy) rest))

  taken :
      (url : String) (rest : List String)
      → contains healthy url ≡ true
      → filter (contains healthy) (rest ++ url ∷ []) ≡ filter (contains healthy) rest ++ url ∷ []
  taken url rest is_in = filter-append (contains healthy) rest (url ∷ []) ∙ rw is_in refl

  scan_hit :
      (n : ℕ) (r : RoundRobinRouter) (url : String)
      → (cycle_next r).0 ≡ some url
      → contains healthy url ≡ true
      → scan (suc n) healthy r ≡ (some url, (cycle_next r).1)
  unfolding scan
  scan_hit n r url found is_in = ground arith

  scan_miss :
      (n : ℕ) (r : RoundRobinRouter) (url : String)
      → (cycle_next r).0 ≡ some url
      → contains healthy url ≡ false
      → scan (suc n) healthy r ≡ scan n healthy (cycle_next r).1
  unfolding scan
  scan_miss n r url found out = ground arith

  -- A call has answered with the head of a queue and left the queue with it at the end.
  abbrev Serves : Option String × RoundRobinRouter → List String → Type 0
  Serves out q = (out.0, queue healthy out.1) ≡ serve q

  abbrev Covers : ℕ → RoundRobinRouter → Type 0
  Covers n r = queue healthy r ≡ filter (contains healthy) (take n (rotation r))

  module _ (r : RoundRobinRouter) (url : String) (rest : List String) (t : Turns r url rest) where
    queue_kept : contains healthy url ≡ false → queue healthy (cycle_next r).1 ≡ queue healthy r
    queue_kept out =
        ap (filter (contains healthy)) t.becomes
        ∙ skipped url rest out
        ∙ sym (ap (filter (contains healthy)) t.was)

    hit-Serves : contains healthy url ≡ true → Serves (some url, (cycle_next r).1) (queue healthy r)
    hit-Serves is_in =
        let before : queue healthy r ≡ url ∷ filter (contains healthy) rest =
          ap (filter (contains healthy)) t.was ∙ rw is_in refl in
        let after : queue healthy (cycle_next r).1 ≡ filter (contains healthy) rest ++ url ∷ [] =
          ap (filter (contains healthy)) t.becomes ∙ taken url rest is_in in
        rw (before, after) refl

    miss-Covers :
        (n : ℕ)
        → n ≤ length rest
        → contains healthy url ≡ false
        → Covers (suc n) r
        → Covers n (cycle_next r).1
    miss-Covers n fits out covers =
        queue_kept out
        ∙ covers
        ∙ ap (λ l. filter (contains healthy) (take (suc n) l)) t.was
        ∙ rw (out, t.becomes)
            (ap (filter (contains healthy)) (sym (take-append n rest (url ∷ []) fits)))

  -- The scan serves the queue if every healthy backend lies within the rounds that are left.
  scan-Serves :
      (n : ℕ) (r : RoundRobinRouter)
      → IsValid r
      → n ≤ length r.backend_urls
      → Covers n r
      → Serves (scan n healthy r) (queue healthy r)
  scan-Serves zero r v fits covers = unfold scan in rw covers refl
  scan-Serves (suc n) r v fits covers =
      let (url, t) = cycle_next-Turns r v in
      elim (Bool-cases (contains healthy url)) [
        | inl is_in ↦ rw (scan_hit n r url t.found is_in) (hit-Serves r url (rest_of r) t is_in)
        | inr out ↦
            rw (scan_miss n r url t.found out, ← queue_kept r url (rest_of r) t out)
              (scan-Serves n (cycle_next r).1 t.valid (rw t.same_backends (omega arith))
                (miss-Covers r url (rest_of r) t n (length-rest_of r n v fits) out covers))
      ]

  scan-IsValid :
      (n : ℕ) (r : RoundRobinRouter)
      → IsValid r
      → IsValid (scan n healthy r).1 × ((scan n healthy r).1.backend_urls ≡ r.backend_urls)
  scan-IsValid zero r v = unfold scan in (v, refl)
  scan-IsValid (suc n) r v =
      let (url, t) = cycle_next-Turns r v in
      elim (Bool-cases (contains healthy url)) [
        | inl is_in ↦ rw (scan_hit n r url t.found is_in) (t.valid, t.same_backends)
        | inr out ↦
            let (valid, same) = scan-IsValid n (cycle_next r).1 t.valid in
            rw (scan_miss n r url t.found out) (valid, same ∙ t.same_backends)
      ]

filter_nothing : (l : List String) → filter (contains []) l ≡ []
filter_nothing [] = refl
filter_nothing (x ∷ l) = filter_nothing l

-- What a call must do: serve the queue, and stay a router of the same backends.
abbrev pub Chooses : List String → RoundRobinRouter → Option String × RoundRobinRouter → Type 0
Chooses healthy r (choice, r') =
    ((choice, queue healthy r') ≡ serve (queue healthy r))
    × IsValid r'
    × (r'.backend_urls ≡ r.backend_urls)

choose_cases :
    (healthy : List String) (r : RoundRobinRouter)
    → IsValid r
    → Chooses healthy r
        (if is_empty healthy then (none, r) else scan (length r.backend_urls) healthy r)
choose_cases [] r v = (rw filter_nothing refl, v, refl)
choose_cases (h ∷ hs) r v =
    let whole : length (rotation r) ≤ length r.backend_urls = omega (
      arith,
      length-append (drop r.position r.backend_urls) (take r.position r.backend_urls),
      length-drop r.position r.backend_urls,
      length-take r.position r.backend_urls,
    ) in
    let (valid, same) = scan-IsValid (h ∷ hs) (length r.backend_urls) r v in
    (
      scan-Serves (h ∷ hs) (length r.backend_urls) r v (omega arith) (
          ap (filter (contains (h ∷ hs)))
            (sym (take_all (length r.backend_urls) (rotation r) whole))),
      valid,
      same,
    )

-- A call of `next_backend` with a health checker, on a router as the constructor or a call leaves
-- it, answers with the first backend, in the order of the cycle, that the checker lists as
-- healthy, and moves it behind the other healthy ones; it answers None exactly when there is none.
-- The router keeps its backends and stays such a router.
pub next_backend-Chooses :
    (checker : HealthChecker) (r : RoundRobinRouter)
    → IsValid r
    → Chooses (healthy_backends checker) r (next_backend (some checker) r)
unfolding next_backend
next_backend-Chooses checker r v = choose_cases (healthy_backends checker) r v
