-- ===== src/Collector/Producer.antt =====
-- collector/producer.py: one cycle of the collector. What the client returned, what the two posts
-- come to and the values of uuid4 and of the clock are parameters of a cycle.
pub mod Reports
pub mod Environment
pub mod Loop
use mathlib.Core.Option
use flight_pulse.Base.{
  ℕ, String, Bool, true, false, not, ◌&&◌, Option, none, some, List, [], ◌∷◌, ltb, leb,
  if◌then◌else◌, length, string_eq, nat_eq, option_eq, list_eq,
}
use flight_pulse.Base.Int.{ℤ, pos}
use flight_pulse.Base.Result.{Result, ok, err}
use flight_pulse.Collector.Normalizer.{
  Value, null, integer, States, CollectedEvent, NormalizeError, Platform, normalize_batch,
}

-- What `requests.post` does: it raises a RequestException, or returns a response with a status.
pub data PostReply : Type 0 where
  request_exception : PostReply
  response : ℕ → PostReply

-- `raise_for_status`
unfoldable pub raises_for_status : ℕ → Bool
raises_for_status status = leb 400 status && ltb status 600

unfoldable pub succeeds : PostReply → Bool
unfolding raises_for_status
succeeds request_exception = false
succeeds (response status) = not (raises_for_status status)

-- A POST of a batch.
pub record TelemetryPost (E : Type 0) : Type 0 where
  pub idempotency_key : String
  pub events : List E

-- The result, and the POST if there is one.
unfoldable pub send_batch :
    {E : Type 0} → String → PostReply → List E → Bool × Option (TelemetryPost E)
unfolding succeeds
send_batch key reply [] = (true, none)
send_batch key reply (event ∷ events) =
    (succeeds reply, some (record { idempotency_key = key; events = event ∷ events }))

-- The body of a POST to /extraction-log; a field that every entry of the process has alike is in
-- `Settings`.
pub record LogEntry (F : Type 0) : Type 0 where
  pub request_id : String
  pub source : String
  pub collector_id : String
  pub collector_version : String
  pub request_scope : String
  pub extraction_started_at : String
  pub extraction_completed_at : String
  pub source_observation_time : Value F
  pub record_count : ℕ
  pub success : Bool
  pub error_message : Option String

pub record Settings : Type 0 where
  pub collector_id : String
  pub collector_version : String
  pub request_scope : String

-- The random ids and the times of a cycle.
pub record Stamps : Type 0 where
  pub request_id : String
  pub idempotency_key : String
  pub started_at : String
  pub completed_at : String

-- What a cycle sends: the batch and the log entry.
pub record Cycle (F : Type 0) : Type 0 where
  pub telemetry : Option (TelemetryPost (CollectedEvent F))
  pub extraction_log : Option (LogEntry F)

module _ {F : Type 0} (settings : Settings) (stamps : Stamps) where
  unfoldable pub log_entry : ℕ → Bool → Option String → Value F → LogEntry F
  log_entry record_count success error_message source_observation_time = record {
    request_id = stamps.request_id;
    source = "opensky";
    collector_id = settings.collector_id;
    collector_version = settings.collector_version;
    request_scope = settings.request_scope;
    extraction_started_at = stamps.started_at;
    extraction_completed_at = stamps.completed_at;
    source_observation_time = source_observation_time;
    record_count = record_count;
    success = success;
    error_message = error_message;
  }

  -- A cycle without telemetry.
  unfoldable pub failed_extraction : String → Cycle F
  unfolding log_entry
  failed_extraction message = record {
    telemetry = none;
    extraction_log = some (log_entry 0 false (some message) null);
  }

  -- The end of `run_once`, from `send_batch` on.
  unfoldable pub send_events : PostReply → List (CollectedEvent F) → Value F → ℕ × Cycle F
  unfolding send_batch log_entry
  send_events reply events time =
      let (sent_ok, post) = send_batch stamps.idempotency_key reply events in
      let message = if sent_ok then none else some "Failed to send telemetry batch (see logs)" in
      (
        if sent_ok then length events else 0,
        record {
          telemetry = post;
          extraction_log = some (log_entry (length events) sent_ok message time);
        },
      )

  -- `run_once`, after `client.get_states`: an exception with its text, `None`, or a response. The
  -- result is the number of events sent, or what `normalize_batch` raises.
  unfoldable pub run_once :
      Platform F → PostReply → Result String (Option (States F)) → Result NormalizeError ℕ × Cycle F
  unfolding failed_extraction send_events
  run_once platform reply (err message) = (ok 0, failed_extraction message)
  run_once platform reply (ok none) =
      (ok 0, failed_extraction "No data returned from OpenSky (see client logs)")
  run_once platform reply (ok (some raw)) =
      elim (normalize_batch platform raw settings.collector_id) [
        | err e ↦ (err e, record { telemetry = none; extraction_log = none })
        | ok events ↦ let (count, cycle) = send_events reply events raw.time in (ok count, cycle)
      ]
