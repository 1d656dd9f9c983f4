-- ===== src/Ingestion/Routes/Idempotency.antt =====
-- The Idempotency-Key of ingestion/routes.py, for requests that one instance handles one after the
-- other.

use mathlib.Core.Path.{subst}
use flight_pulse.Base.{
  ℕ, ◌+◌, ◌-◌, ◌≤◌, String, ◌≡◌, refl, ◌⊎◌, inl, inr, Bool, true, false, Option, none, some, List,
  [], ◌∷◌, arith, if◌then◌else◌, Bool-cases, Option-cases, length, length-append, ◌==◌, string_eq,
  nat_eq, option_eq, list_eq,
}
use flight_pulse.Base.Dict.{Dict, lookup, insert, lookup-insert}
use flight_pulse.Base.Result.{Result, result_cases}
use flight_pulse.Ingestion.Schemas.{TelemetryBatch, IngestResponse}
use flight_pulse.Ingestion.Routes.{
  Enqueue, enqueued, enqueue_raised, Job, process_telemetry_batch, Service, Answer, bad_json,
  unprocessable, queue_failed, accepted_with, given_key, response_to, enqueue_job, find_cached,
  remember, respond, accept, post_telemetry,
}

pub record Posted (Body : Type 0) : Type 0 where
  pub outcome : Enqueue
  pub idempotency_key : Option String
  pub body : Body

abbrev pub raised_count : Answer → ℕ
raised_count queue_failed = 1
raised_count _ = 0

-- The answer is not a response other than the one the cache holds.
abbrev pub Agrees : {F : Type 0} → String → Answer → Service F → Type 0
Agrees k (accepted_with response) s = lookup k s.idempotency_cache ≡ some response
Agrees k _ s = Unit

inserted_found :
    (k j : String) (response : IngestResponse) (d : Dict String IngestResponse)
    → j ≡ k
    → lookup k (insert j response d) ≡ some response
inserted_found k j response d same =
    ground (arith, lookup-insert k j response d, string_eq.beq_iff k j)

inserted_keeps :
    (k j : String) (response r : IngestResponse) (d : Dict String IngestResponse)
    → lookup j d ≡ none
    → lookup k d ≡ some r
    → lookup k (insert j response d) ≡ some r
inserted_keeps k j response r d absent found =
    ground (arith, lookup-insert k j response d, string_eq.beq_iff k j)

abbrev pub cached_count : {F : Type 0} → String → Service F → ℕ
cached_count k s = elim (lookup k s.idempotency_cache) [ none ↦ 0 | some _ ↦ 1 ]

at_most_one : {F : Type 0} (k : String) (s : Service F) → cached_count k s ≤ 1
at_most_one k s = elim (Option-cases (lookup k s.idempotency_cache)) [
  | inl absent ↦ rw (absent, cached_count) (omega arith)
  | inr (r, found) ↦ rw (found, cached_count) (omega arith)
]

enqueue_cases : (e : Enqueue) → (e ≡ enqueued) ⊎ ((queued : Bool) × (e ≡ enqueue_raised queued))
enqueue_cases enqueued = inl refl
enqueue_cases (enqueue_raised queued) = inr (queued, refl)

module _ {F Body Json E : Type 0} (parse : Body → Option Json)
    (model_validate : Json → Result E (TelemetryBatch F)) where
  abbrev pub post : Posted Body → Service F → Answer × Service F
  post p = post_telemetry parse model_validate p.outcome p.idempotency_key p.body

  abbrev pub after_posts : List (Posted Body) → Service F → Service F
  after_posts [] s = s
  after_posts (p ∷ posts) s = after_posts posts (post p s).1

  -- For the requests with the key `k`: the jobs they queue, and those that queueing failed.
  abbrev pub has_key : String → Posted Body → Bool
  has_key k p = given_key p.idempotency_key == some k

  abbrev pub jobs_for : String → List (Posted Body) → Service F → ℕ
  jobs_for k [] s = 0
  jobs_for k (p ∷ posts) s =
      let (_, s') = post p s in
      let later = jobs_for k posts s' in
      (if has_key k p then length s'.jobs - length s.jobs else 0) + later

  abbrev pub failures_for : String → List (Posted Body) → Service F → ℕ
  failures_for k [] s = 0
  failures_for k (p ∷ posts) s =
      let (answer, s') = post p s in
      let later = failures_for k posts s' in
      (if has_key k p then raised_count answer else 0) + later

  -- Every response to a request with the key is the one that the cache holds in the end.
  abbrev pub AllAgree : String → List (Posted Body) → Service F → Service F → Type 0
  AllAgree k [] s final = Unit
  AllAgree k (p ∷ posts) s final =
      let (answer, s') = post p s in
      (has_key k p ≡ true → Agrees k answer final) × AllAgree k posts s' final

  abbrev Keeps : String → Service F → Service F → Type 0
  Keeps k s s' =
      (r : IngestResponse)
      → lookup k s.idempotency_cache ≡ some r
      → lookup k s'.idempotency_cache ≡ some r

  -- What one request does about the key `k`.
  abbrev Step : String → Posted Body → Service F → Answer × Service F → Type 0
  Step k p s (answer, s') =
      (has_key k p ≡ true
        → Agrees k answer s'
          × (length s'.jobs - length s.jobs + cached_count k s
              ≤ raised_count answer + cached_count k s'))
      × Keeps k s s'

  -- An answer that leaves the service alone, and is no response.
  still : (k : String) (p : Posted Body) (s : Service F) → Step k p s (bad_json, s)
  still k p s = (λ _. (tt, omega arith), λ r h. h)

  still_unprocessable :
      (k : String) (p : Posted Body) (s : Service F) → Step k p s (unprocessable, s)
  still_unprocessable k p s = (λ _. (tt, omega arith), λ r h. h)

  raised-Step :
      (k : String) (p : Posted Body) (queued : Bool) (response : IngestResponse) (job : Job F)
      (s : Service F)
      → Step k p s (respond p.idempotency_key response (enqueue_job (enqueue_raised queued) job s))
  unfolding respond enqueue_job
  raised-Step k p true response job s =
      (λ _. (tt, omega (arith, length-append s.jobs (job ∷ []))), λ r h. h)
  raised-Step k p false response job s = (λ _. (tt, omega arith), λ r h. h)

  queued-Step :
      (k : String) (p : Posted Body) (response : IngestResponse) (job : Job F) (s : Service F)
      → find_cached p.idempotency_key s ≡ none
      → Step k p s (respond p.idempotency_key response (enqueue_job enqueued job s))
  unfolding respond enqueue_job remember find_cached
  queued-Step k p response job s new = elim (Option-cases (given_key p.idempotency_key)) [
    | inl unkeyed ↦ rw (unkeyed, remember) (λ same. absurd (cc), λ r h. h)
    | inr (j, keyed) ↦
        let absent : lookup j s.idempotency_cache ≡ none = rw (keyed, find_cached) at new in
        let d = s.idempotency_cache in
        let longer = length-append s.jobs (job ∷ []) in
        rw (keyed, remember)
          (
            λ same.
                let is_k : j ≡ k = ground (arith, string_eq.beq_iff j k) in
                let before : lookup k d ≡ none = subst (λ x. lookup x d ≡ none) is_k absent in
                let after = inserted_found k j response d is_k in
                (after, rw (before, after, cached_count) (omega arith)),
            λ r. inserted_keeps k j response r d absent,
          )
  ]

  accept-Step :
      (k : String) (p : Posted Body) (s : Service F)
      → find_cached p.idempotency_key s ≡ none
      → Step k p s (accept parse model_validate p.outcome p.idempotency_key p.body s)
  unfolding accept
  accept-Step k p s new = elim (Option-cases (parse p.body)) [
    | inl bad ↦ rw (bad, accept) (still k p s)
    | inr (json, parsed) ↦
        rw (parsed, accept)
          (elim (result_cases (model_validate json)) [
            | inr (e, invalid) ↦ rw (invalid) (still_unprocessable k p s)
            | inl (batch, valid) ↦ rw (valid) (
                let job = process_telemetry_batch batch in
                let response = response_to batch in
                elim (enqueue_cases p.outcome) [
                  | inl done ↦ rw done (queued-Step k p response job s new)
                  | inr (queued, failed) ↦ rw failed (raised-Step k p queued response job s)
                ])
          ])
  ]

  post-Step : (k : String) (p : Posted Body) (s : Service F) → Step k p s (post p s)
  unfolding post_telemetry find_cached
  post-Step k p s = elim (Option-cases (find_cached p.idempotency_key s)) [
    | inl new ↦ rw (new, post_telemetry) (accept-Step k p s new)
    | inr (cached, found) ↦
        rw (found, post_telemetry)
          (
            λ same.
                let here : given_key p.idempotency_key ≡ some k =
                  (option_eq.beq_iff (given_key p.idempotency_key) (some k)).0 same in
                (rw (here, find_cached) at found, omega arith),
            λ r h. h,
          )
  ]

  after-Keeps :
      (k : String) (posts : List (Posted Body)) (s : Service F) → Keeps k s (after_posts posts s)
  after-Keeps k [] s r h = h
  after-Keeps k (p ∷ posts) s r h = after-Keeps k posts (post p s).1 r ((post-Step k p s).1 r h)

  counted : (k : String) (s s' : Service F) → Keeps k s s' → cached_count k s ≤ cached_count k s'
  counted k s s' keeps = elim (Option-cases (lookup k s.idempotency_cache)) [
    | inl absent ↦ rw (absent, cached_count) (omega arith)
    | inr (r, found) ↦ rw (found, keeps r found, cached_count) (omega arith)
  ]

  Agrees-later :
      (k : String) (answer : Answer) (s s' : Service F)
      → Keeps k s s'
      → Agrees k answer s
      → Agrees k answer s'
  Agrees-later k bad_json s s' keeps h = tt
  Agrees-later k unprocessable s s' keeps h = tt
  Agrees-later k queue_failed s s' keeps h = tt
  Agrees-later k (accepted_with r) s s' keeps h = keeps r h

  all_agree :
      (k : String) (posts : List (Posted Body)) (s : Service F)
      → AllAgree k posts s (after_posts posts s)
  all_agree k [] s = tt
  all_agree k (p ∷ posts) s =
      let (answer, s') = post p s in
      (
        λ same.
            Agrees-later k (post p s).0 (post p s).1 (after_posts posts (post p s).1)
              (after-Keeps k posts (post p s).1) ((post-Step k p s).0 same).0,
        all_agree k posts (post p s).1,
      )

  counts :
      (k : String) (posts : List (Posted Body)) (s : Service F)
      → jobs_for k posts s + cached_count k s
        ≤ failures_for k posts s + cached_count k (after_posts posts s)
  counts k [] s = omega arith
  counts k (p ∷ posts) s =
      let step = post-Step k p s in
      let s' = (post p s).1 in
      let later = counts k posts s' in
      elim (Bool-cases (has_key k p)) [
        | inl same ↦ let (_, few) = step.0 same in rw same (omega arith)
        | inr other ↦ let more = counted k s s' step.1 in rw other (omega arith)
      ]

  -- Any requests that one instance handles one after the other, with any keys and bodies, and any
  -- of their `enqueue_job` calls raising: those with the key `k` queue at most one job more than
  -- the number of them that failed to queue, and every response to one of them is the response
  -- that the cache holds for `k` in the end.
  pub one_job_per_key :
      (k : String) (posts : List (Posted Body)) (s : Service F)
      → (jobs_for k posts s ≤ failures_for k posts s + 1) × AllAgree k posts s (after_posts posts s)
  one_job_per_key k posts s =
      let few = counts k posts s in
      let final = after_posts posts s in (omega (arith, at_most_one k final), all_agree k posts s)
