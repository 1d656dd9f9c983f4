-- ===== src/Pipeline.antt =====
-- One batch on its way from load_balancer/server.py through ingestion/routes.py to the queue.
pub mod Delivery
use mathlib.Core.Path.{subst}
use mathlib.Core.List.{append_cancel_left, append-nil}
use flight_pulse.Base.{
  ℕ, ◌+◌, ◌-◌, ◌≤◌, ◌<◌, String, ◌≡◌, refl, sym, ap, ◌∙◌, ◌⊎◌, inl, inr, Bool, true, false, Option,
  none, some, List, [], ◌∷◌, ◌++◌, arith, ltb, Option-cases, All, length, any, string_eq, nat_eq,
  option_eq, list_eq,
}
use flight_pulse.Base.Dict.{Dict}
use flight_pulse.Base.Result.{Result, ok, err}
use flight_pulse.Ingestion.Schemas.{TelemetryBatch, IngestResponse}
use flight_pulse.Ingestion.Routes as Routes
use flight_pulse.Ingestion.Routes.{
  Enqueue, Job, process_telemetry_batch, Service, bad_json, unprocessable, queue_failed,
  accepted_with, find_cached, accept, respond, enqueue_job, enqueued, enqueue_raised,
  post_telemetry, response_to, remember, given_key,
}
use flight_pulse.LoadBalancer.Server.{
  Request, Reply, response, failed, Answer, passed_on, bad_gateway, unavailable, key_error,
  Balancer, Sent, Outcome, Headers, Outgoing, outgoing,
}
use flight_pulse.LoadBalancer.Server.Proxy.{proxy, Setting}
use flight_pulse.LoadBalancer.Server.Proxy.Replies.{WellFormed, Explains, AllFailed, proxy-Good}
use flight_pulse.LoadBalancer.Server.Proxy.Sends.{SendsRequest, proxy_sends}

-- The status that FastAPI gives an answer of the handler: an exception is a 500.
abbrev pub status_of : Routes.Answer → ℕ
status_of bad_json = 500
status_of unprocessable = 422
status_of queue_failed = 500
status_of (accepted_with r) = 200

-- A response that tells of success.
abbrev pub accepts : Reply → Bool
accepts (response status headers content) = ltb status 300
accepts failed = false

remember_jobs :
    {F : Type 0} (key : Option String) (r : IngestResponse) (s : Service F)
    → (remember key r s).jobs ≡ s.jobs
unfolding remember
remember_jobs key r s = elim (Option-cases (given_key key)) [
  | inl nothing ↦ rw (remember, nothing) refl
  | inr (k, given) ↦ rw (remember, given) refl
]

module _ {F Json E : Type 0} (parse : List ℕ → Option Json)
    (model_validate : Json → Result E (TelemetryBatch F))
    (key_of : Dict String String → Option String) where
  -- A request at a service, with what queueing comes to.
  abbrev pub handle : Enqueue → Outgoing → Service F → Routes.Answer × Service F
  handle outcome o service =
      post_telemetry parse model_validate outcome (key_of o.headers) o.body service

  -- What became of the requests that the load balancer sent, and the jobs that they queued: a
  -- request is lost, or a service that has no response for its key yet handles it; its response may
  -- be lost on its way.
  pub data Handled : List Sent → List (Job F) → Type 0 where
    none_sent : Handled [] []
    lost :
        {x : Sent} {sent : List Sent} {jobs : List (Job F)}
        → x.reply ≡ failed
        → Handled sent jobs
        → Handled (x ∷ sent) jobs
    served :
        {x : Sent} {sent : List Sent} {jobs : List (Job F)} (added : List (Job F))
        (outcome : Enqueue) (service : Service F)
        → find_cached (key_of x.outgoing.headers) service ≡ none
        → (handle outcome x.outgoing service).1.jobs ≡ service.jobs ++ added
        → (x.reply ≡ failed)
          ⊎ ((headers : Headers) × (content : List ℕ) × (x.reply
                ≡ response (status_of (handle outcome x.outgoing service).0) headers content))
        → Handled sent jobs
        → Handled (x ∷ sent) (added ++ jobs)

  -- What a batch that validates leads to at a service that has no response for its key.
  abbrev Adds : Job F → Routes.Answer → List (Job F) → List (Job F) → Type 0
  Adds job answer before after =
      (after ≡ before ++ job ∷ []) ⊎ (after ≡ before) × (answer ≡ queue_failed)

  handle-Adds :
      (outcome : Enqueue) (o : Outgoing) (service : Service F) (json : Json)
      (batch : TelemetryBatch F)
      → parse o.body ≡ some json
      → model_validate json ≡ ok batch
      → find_cached (key_of o.headers) service ≡ none
      → let (answer, service') = handle outcome o service in
        Adds (process_telemetry_batch batch) answer service.jobs service'.jobs
  unfolding post_telemetry accept enqueue_job respond
  handle-Adds enqueued o service json batch parses valid fresh =
      rw (fresh, post_telemetry, accept, parses, valid)
        (inl (
          remember_jobs (key_of o.headers) (response_to batch)
            (enqueue_job enqueued (process_telemetry_batch batch) service).1))
  handle-Adds (enqueue_raised true) o service json batch parses valid fresh =
      rw (fresh, post_telemetry, accept, parses, valid) (inl refl)
  handle-Adds (enqueue_raised false) o service json batch parses valid fresh =
      rw (fresh, post_telemetry, accept, parses, valid) (inr (refl, refl))

  abbrev is_accepted : Sent → Bool
  is_accepted x = accepts x.reply

  any_later :
      (x : Sent) (sent : List Sent)
      → any is_accepted (x ∷ sent) ≡ true
      → is_accepted x ≡ false
      → any is_accepted sent ≡ true
  any_later x sent yes_any no_here = ground (arith, no_here)

  refused :
      (answer : Routes.Answer) (x : Sent)
      → answer ≡ queue_failed
      → (x.reply ≡ failed)
        ⊎ ((headers : Headers) × (content : List ℕ) × (x.reply
              ≡ response (status_of answer) headers content))
      → is_accepted x ≡ false
  refused answer x raised (inl lost_reply) = ap accepts lost_reply
  refused answer x raised (inr (headers, content, replied)) =
      ap accepts replied ∙ ap (λ a. ltb (status_of a) 300) raised

  module _ (request : Request) (json : Json) (batch : TelemetryBatch F) where
    -- The jobs are this batch, and there is one if the batch was accepted.
    abbrev Queues : List Sent → List (Job F) → Type 0
    Queues sent jobs =
        All (λ j. j ≡ process_telemetry_batch batch) jobs
        × (any is_accepted sent ≡ true → 0 < length jobs)
        × (length jobs ≤ length sent)

    added_jobs :
        (before after added : List (Job F)) (answer : Routes.Answer)
        → after ≡ before ++ added
        → Adds (process_telemetry_batch batch) answer before after
        → (added ≡ process_telemetry_batch batch ∷ []) ⊎ (added ≡ []) × (answer ≡ queue_failed)
    added_jobs before after added answer e (inl one) =
        inl (append_cancel_left before added (process_telemetry_batch batch ∷ []) (sym e ∙ one))
    added_jobs before after added answer e (inr (same, raised)) =
        inr (append_cancel_left before added [] (sym e ∙ same ∙ sym (append-nil before)), raised)

    Handled-Queues :
        {sent : List Sent} {jobs : List (Job F)}
        → Handled sent jobs
        → All (λ x. x.outgoing ≡ outgoing request x.outgoing.backend_base) sent
        → parse request.body ≡ some json
        → model_validate json ≡ ok batch
        → Queues sent jobs
    Handled-Queues none_sent sends parses valid = (tt, (λ yes_any. absurd (cc)), omega arith)
    Handled-Queues (lost {x = x} {sent = sent} failed_here more) (this, sends) parses valid =
        let (all, some_job, few) = Handled-Queues more sends parses valid in
        (
          all,
          (λ yes_any. some_job (any_later x sent yes_any (ap accepts failed_here))),
          omega arith,
        )
    Handled-Queues
          (served {x = x} {sent = sent} {jobs = jobs} added outcome service fresh adds replied more)
          (this, sends) parses valid =
        let (all, some_job, few) = Handled-Queues more sends parses valid in
        let (answer, service') = handle outcome x.outgoing service in
        let body : x.outgoing.body ≡ request.body = ap (λ (o : Outgoing). o.body) this in
        let step =
          handle-Adds outcome x.outgoing service json batch (ap parse body ∙ parses) valid fresh in
        elim (added_jobs service.jobs service'.jobs added answer adds step) [
          | inl one ↦ rw one ((refl, all), (λ yes_any. omega arith), omega arith)
          | inr (nothing, raised) ↦ rw nothing (
            all,
            (λ yes_any. some_job (any_later x sent yes_any (refused answer x raised replied))),
            omega arith,
          )
        ]

-- A success is passed on from the last backend that was asked.
success_any :
    (failures : List Sent) (last : Sent)
    → accepts last.reply ≡ true
    → any (λ (x : Sent). accepts x.reply) (failures ++ last ∷ []) ≡ true
success_any [] last accepted = ground (arith, accepted)
success_any (x ∷ failures) last accepted = ground (arith, success_any failures last accepted)

-- The client got a status below 300.
abbrev pub IsSuccess : Answer → Type 0
IsSuccess (passed_on status kept content) = status < 300
IsSuccess _ = ⊥

explained_success :
    (sent : List Sent) (answer : Answer)
    → Explains sent answer
    → IsSuccess answer
    → any (λ (x : Sent). accepts x.reply) sent ≡ true
explained_success sent bad_gateway e success = absurd success
explained_success sent unavailable e success = absurd success
explained_success sent key_error e success = absurd success
explained_success sent (passed_on status kept content)
      (failures, last, headers, split, all_failed, same, stripped) success =
    let yes_last : accepts last.reply ≡ true = ap accepts same ∙ ground arith in
    ap (any (λ (x : Sent). accepts x.reply)) split ∙ success_any failures last yes_last

-- A batch is posted through a well-formed load balancer, which may send it to several services, of
-- which each may queue it, fail, or answer too late, and none has a response for its key. If the
-- batch validates, then no job is queued but this batch, at most once for each request sent, so at
-- most 1 + MAX_RETRIES times; and where the client gets a status below 300, it is queued.
pub IsSuccess-queued :
    {F C Json E : Type 0} (parse : List ℕ → Option Json)
    (model_validate : Json → Result E (TelemetryBatch F))
    (key_of : Dict String String → Option String) (s : Setting C) (b : Balancer C) (json : Json)
    (batch : TelemetryBatch F) (jobs : List (Job F))
    → WellFormed b
    → parse s.request.body ≡ some json
    → model_validate json ≡ ok batch
    → Handled parse model_validate key_of (proxy s b).sent jobs
    → All (λ j. j ≡ process_telemetry_batch batch) jobs
      × (length jobs ≤ 1 + s.max_retries)
      × (IsSuccess (proxy s b).answer → 0 < length jobs)
IsSuccess-queued parse model_validate key_of s b json batch jobs valid parses validates handled =
    let (sends, few, unrepeated) = proxy_sends s b in
    let (explains, kept) = proxy-Good s b valid in
    let (all, some_job, fewer) =
      Handled-Queues parse model_validate key_of s.request json batch handled sends parses
        validates in
    (
      all,
      omega arith,
      λ success. some_job (explained_success (proxy s b).sent (proxy s b).answer explains success),
    )
