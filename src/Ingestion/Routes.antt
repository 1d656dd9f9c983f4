-- ===== src/Ingestion/Routes.antt =====
-- ingestion/routes.py: POST /telemetry and POST /extraction-log. Parsing and pydantic's validation
-- are parameters. The handler is two steps, as the `await`s between the two uses of the cache part
-- it: `find_cached` and `accept`.
pub mod Idempotency
pub mod Interleaving
use mathlib.Core.Option
use flight_pulse.Base.{
  ◌+◌, String, Bool, true, false, Option, none, some, List, [], ◌∷◌, ◌++◌, if◌then◌else◌, length,
  ◌==◌, string_eq, nat_eq, option_eq, list_eq,
}
use flight_pulse.Base.Dict.{Dict, lookup, insert}
use flight_pulse.Base.Result.{Result, ok, err}
use flight_pulse.Ingestion.Schemas.{
  TelemetryEvent, TelemetryBatch, IngestResponse, ExtractionLogEntry,
}

-- What `_get_arq_pool` and `enqueue_job` do. A call that raises may have queued the job.
pub data Enqueue : Type 0 where
  enqueued : Enqueue
  enqueue_raised : Bool → Enqueue

pub data Job (F : Type 0) : Type 0 where
  process_telemetry_batch : TelemetryBatch F → Job F
  process_extraction_log : ExtractionLogEntry → Job F

-- `_idempotency_cache`, and the jobs queued so far, newest last.
pub record Service (F : Type 0) : Type 0 where
  pub idempotency_cache : Dict String IngestResponse
  pub jobs : List (Job F)

-- The body is not JSON, the validation error's 422, the response, or what queueing raises.
pub data Answer : Type 0 where
  bad_json unprocessable queue_failed : Answer
  accepted_with : IngestResponse → Answer

-- `if idempotency_key`: neither a missing header nor an empty one is a key.
unfoldable pub given_key : Option String → Option String
given_key none = none
given_key (some k) = if k == "" then none else some k

module _ {F : Type 0} where
  unfoldable pub ingestion_ids_of : List (TelemetryEvent F) → List String
  ingestion_ids_of [] = []
  ingestion_ids_of (e ∷ events) = e.ingestion_id ∷ ingestion_ids_of events

  unfoldable pub response_to : TelemetryBatch F → IngestResponse
  unfolding ingestion_ids_of
  response_to batch = record {
    status = "accepted";
    accepted = length batch.events;
    ingestion_ids = ingestion_ids_of batch.events;
  }

  unfoldable pub enqueue_job : Enqueue → Job F → Service F → Bool × Service F
  enqueue_job enqueued job s = (true, record s { jobs = s.jobs ++ job ∷ [] })
  enqueue_job (enqueue_raised queued) job s =
      (false, if queued then record s { jobs = s.jobs ++ job ∷ [] } else s)

  -- The first use of the cache.
  unfoldable pub find_cached : Option String → Service F → Option IngestResponse
  find_cached key s = elim (given_key key) [ none ↦ none | some k ↦ lookup k s.idempotency_cache ]

  -- The second use of the cache.
  unfoldable pub remember : Option String → IngestResponse → Service F → Service F
  remember key response s = elim (given_key key) [
    | none ↦ s
    | some k ↦ record s { idempotency_cache = insert k response s.idempotency_cache }
  ]

  -- What follows `enqueue_job`.
  unfoldable pub respond : Option String → IngestResponse → Bool × Service F → Answer × Service F
  respond key response (true, s) = (accepted_with response, remember key response s)
  respond key response (false, s) = (queue_failed, s)

module _ {F Body Json E : Type 0} (parse : Body → Option Json)
    (model_validate : Json → Result E (TelemetryBatch F)) where
  -- The handler from `request.json()` on.
  unfoldable pub accept : Enqueue → Option String → Body → Service F → Answer × Service F
  accept outcome key body s = elim (parse body) [
    | none ↦ (bad_json, s)
    | some json ↦ elim (model_validate json) [
      | err e ↦ (unprocessable, s)
      | ok batch ↦
          respond key (response_to batch) (enqueue_job outcome (process_telemetry_batch batch) s)
    ]
  ]

  unfoldable pub post_telemetry : Enqueue → Option String → Body → Service F → Answer × Service F
  post_telemetry outcome key body s = elim (find_cached key s) [
    | some cached ↦ (accepted_with cached, s)
    | none ↦ accept outcome key body s
  ]

-- The request id of the answer, or nothing when queueing raises.
unfoldable pub post_extraction_log :
    {F : Type 0} → Enqueue → ExtractionLogEntry → Service F → Option String × Service F
post_extraction_log outcome entry s =
    let (queued, s') = enqueue_job outcome (process_extraction_log entry) s in
    (if queued then some entry.request_id else none, s')
