-- ===== src/Ingestion/Routes/Interleaving.antt =====
-- Requests that one instance of ingestion/routes.py handles at the same time: each reads the cache
-- when it arrives, and runs to its end, from `request.json()` on, later.

use mathlib.Core.Path.{subst}
use flight_pulse.Base.{
  ℕ, ◌+◌, ◌-◌, String, ◌≡◌, refl, sym, ap, ◌∙◌, inl, inr, Bool, true, false, Option, none, some,
  List, [], ◌∷◌, ◌++◌, arith, if◌then◌else◌, Bool-cases, Option-cases, All, length, ◌==◌, string_eq,
  nat_eq, option_eq, list_eq,
}
use flight_pulse.Base.Dict.{lookup, lookup-insert}
use flight_pulse.Base.Result.{Result, result_cases}
use flight_pulse.Ingestion.Schemas.{TelemetryBatch, IngestResponse}
use flight_pulse.Ingestion.Routes.{
  Enqueue, enqueued, enqueue_raised, Job, process_telemetry_batch, Service, Answer, accepted_with,
  given_key, response_to, enqueue_job, find_cached, remember, respond, accept,
}
use flight_pulse.Ingestion.Routes.Idempotency.{Posted}

pub record Config (F Body : Type 0) : Type 0 where
  pub service : Service F
  pub in_flight : List (Posted Body)

abbrev pub keyed : {Body : Type 0} → String → Posted Body → Bool
keyed k p = given_key p.idempotency_key == some k

module _ {F Body Json E : Type 0} (parse : Body → Option Json)
    (model_validate : Json → Result E (TelemetryBatch F)) where
  abbrev pub finish : Posted Body → Service F → Answer × Service F
  finish p = accept parse model_validate p.outcome p.idempotency_key p.body

  -- For the key `k`: what is answered to a request with it, and the jobs that the request queues.
  abbrev pub answers_for : String → Posted Body → Answer → List Answer
  answers_for k p answer = if keyed k p then answer ∷ [] else []

  abbrev pub jobs_of : String → Posted Body → Service F → ℕ
  jobs_of k p s = if keyed k p then length (finish p s).1.jobs - length s.jobs else 0

  -- A run, with the jobs that requests with the key `k` queue in it, and the answers they get.
  pub data Trace (k : String) : Config F Body → ℕ → List Answer → Config F Body → Type 0 where
    done : {c : Config F Body} → Trace k c 0 [] c
    cached :
        {c c' : Config F Body} {n : ℕ} {answers : List Answer} (p : Posted Body)
        (response : IngestResponse)
        → find_cached p.idempotency_key c.service ≡ some response
        → Trace k c n answers c'
        → Trace k c n (answers_for k p (accepted_with response) ++ answers) c'
    arrives :
        {c c' : Config F Body} {n : ℕ} {answers : List Answer} (p : Posted Body)
        → find_cached p.idempotency_key c.service ≡ none
        → Trace k (record c { in_flight = p ∷ c.in_flight }) n answers c'
        → Trace k c n answers c'
    finishes :
        {c c' : Config F Body} {n : ℕ} {answers : List Answer} (before after : List (Posted Body))
        (p : Posted Body)
        → c.in_flight ≡ before ++ p ∷ after
        → Trace k
            (record { service = (finish p c.service).1; in_flight = before ++ after })
            n
            answers
            c'
        → Trace k c
            (jobs_of k p c.service + n)
            (answers_for k p (finish p c.service).0 ++ answers)
            c'

  abbrev NoneKeyed : String → List (Posted Body) → Type 0
  NoneKeyed k = All (λ p. keyed k p ≡ false)

  -- The key has its response, and no request that carries it is under way.
  abbrev pub Settled : String → IngestResponse → Config F Body → Type 0
  Settled k response c =
      (lookup k c.service.idempotency_cache ≡ some response) × NoneKeyed k c.in_flight

  NoneKeyed-split :
      (k : String) (before after : List (Posted Body)) (p : Posted Body)
      → NoneKeyed k (before ++ p ∷ after)
      → (keyed k p ≡ false) × NoneKeyed k (before ++ after)
  NoneKeyed-split k [] after p (other, all) = (other, all)
  NoneKeyed-split k (q ∷ before) after p (other, all) =
      let (p_other, rest) = NoneKeyed-split k before after p all in (p_other, (other, rest))

  abbrev KeepsEntry : String → Service F → Service F → Type 0
  KeepsEntry k s s' = lookup k s'.idempotency_cache ≡ lookup k s.idempotency_cache

  remember_other :
      (k : String) (key : Option String) (response : IngestResponse) (s : Service F)
      → (given_key key == some k) ≡ false
      → KeepsEntry k s (remember key response s)
  unfolding remember
  remember_other k key response s other = elim (Option-cases (given_key key)) [
    | inl unkeyed ↦ rw (unkeyed, remember) refl
    | inr (j, has_key) ↦
        let apart : (j == k) ≡ false = rw has_key at other in
        rw (has_key, remember)
          (ground (
            arith,
            lookup-insert k j response s.idempotency_cache,
            string_eq.beq_iff k j,
            string_eq.beq_iff j k,
          ))
  ]

  respond_other :
      (k : String) (key : Option String) (outcome : Enqueue) (response : IngestResponse)
      (job : Job F) (s : Service F)
      → (given_key key == some k) ≡ false
      → KeepsEntry k s (respond key response (enqueue_job outcome job s)).1
  unfolding respond enqueue_job
  respond_other k key enqueued response job s other =
      remember_other k key response (record s { jobs = s.jobs ++ job ∷ [] }) other
  respond_other k key (enqueue_raised true) response job s other = refl
  respond_other k key (enqueue_raised false) response job s other = refl

  finish_other :
      (k : String) (p : Posted Body) (s : Service F)
      → keyed k p ≡ false
      → KeepsEntry k s (finish p s).1
  unfolding accept
  finish_other k p s other = elim (Option-cases (parse p.body)) [
    | inl bad ↦ rw (bad, accept) refl
    | inr (json, parsed) ↦ elim (result_cases (model_validate json)) [
      | inr (e, invalid) ↦ rw (parsed, invalid, accept) refl
      | inl (batch, valid) ↦
          rw (parsed, valid, accept)
            (respond_other k p.idempotency_key p.outcome (response_to batch)
              (process_telemetry_batch batch) s other)
    ]
  ]

  found_cached :
      (k : String) (p : Posted Body) (s : Service F)
      → keyed k p ≡ true
      → find_cached p.idempotency_key s ≡ lookup k s.idempotency_cache
  unfolding find_cached
  found_cached k p s same =
      let here : given_key p.idempotency_key ≡ some k =
        (option_eq.beq_iff (given_key p.idempotency_key) (some k)).0 same in
      rw (here, find_cached) refl

  -- Once a key has its response and no request with it is under way, whatever requests arrive and
  -- finish in whatever order and whatever they come to: the requests with the key queue no job,
  -- each of them is answered with that response, and this stays so.
  pub Settled-stays :
      (k : String) (response : IngestResponse) {c c' : Config F Body} {n : ℕ}
      {answers : List Answer}
      → Settled k response c
      → Trace k c n answers c'
      → (n ≡ 0) × All (λ a. a ≡ accepted_with response) answers × Settled k response c'
  Settled-stays k response settled done = (refl, tt, settled)
  Settled-stays k response {c} (entry, none_keyed) (cached p other found later) =
      let (no_job, all, settled) = Settled-stays k response (entry, none_keyed) later in
      elim (Bool-cases (keyed k p)) [
        | inr apart ↦ rw apart (no_job, all, settled)
        | inl same ↦
            let stored : some other ≡ some response =
              sym found ∙ found_cached k p c.service same ∙ entry in
            let equal : other ≡ response = cc in
            rw same (no_job, (ap accepted_with equal, all), settled)
      ]
  Settled-stays k response {c} (entry, none_keyed) (arrives p new later) =
      elim (Bool-cases (keyed k p)) [
        | inr apart ↦ Settled-stays k response (entry, (apart, none_keyed)) later
        | inl same ↦ let there = found_cached k p c.service same in absurd (cc)
      ]
  Settled-stays k response {c} (entry, none_keyed) (finishes before after p split later) =
      let (apart, others) =
        NoneKeyed-split k before after p (subst (NoneKeyed k) split none_keyed) in
      let kept = finish_other k p c.service apart in
      let (no_job, all, settled) = Settled-stays k response (kept ∙ entry, others) later in
      rw apart (omega arith, all, settled)
