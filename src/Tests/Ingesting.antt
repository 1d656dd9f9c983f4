-- ===== src/Tests/Ingesting.antt =====
-- ingestion/routes.py, where a request that carries a key is sent again.
use flight_pulse.Base.{
  ℕ, ◌+◌, ◌≤◌, String, ◌≡◌, refl, false, Option, none, some, List, [], ◌∷◌, All, string_eq, nat_eq,
  option_eq, list_eq,
}
use flight_pulse.Base.Int.{pos}
use flight_pulse.Base.Dict.{lookup, insert}
use flight_pulse.Base.Result.{Result, ok, err}
use flight_pulse.Ingestion.Schemas.{IngestResponse, TelemetryEvent, TelemetryBatch}
use flight_pulse.Ingestion.Routes.{
  accepted_with, Enqueue, enqueued, enqueue_raised, Service, post_telemetry, given_key, find_cached,
  accept, respond, enqueue_job, remember, response_to,
}
use flight_pulse.Ingestion.Routes.Interleaving.{
  Config, finish, Trace, arrives, done, cached, finishes, Settled, Settled-stays,
}
use flight_pulse.Ingestion.Routes.Idempotency.{
  Posted, after_posts, jobs_for, failures_for, AllAgree, one_job_per_key,
}

abbrev event : TelemetryEvent ℕ
event = record {
  source = "opensky";
  icao24 = "4b1815";
  callsign = none;
  origin_country = some "Switzerland";
  time_position = none;
  last_contact = some (pos 1700000000);
  longitude = none;
  latitude = none;
  baro_altitude_m = some 3000;
  geo_altitude_m = none;
  velocity_mps = none;
  true_track_deg = none;
  vertical_rate_mps = none;
  on_ground = none;
  ingested_at = "2024-01-01T00:00:00Z";
  ingestion_id = "id-1";
  collector_id = some "collector-1";
}

abbrev parse : List (TelemetryEvent ℕ) → Option (List (TelemetryEvent ℕ))
parse body = some body

-- An empty batch is refused.
abbrev validate : List (TelemetryEvent ℕ) → Result String (TelemetryBatch ℕ)
validate [] = err "empty"
validate (e ∷ events) = ok (record { events = e ∷ events })

abbrev posted : Enqueue → Posted (List (TelemetryEvent ℕ))
posted outcome = record { outcome = outcome; idempotency_key = some "k"; body = event ∷ [] }

-- The first request fails to queue, the next two are a request and its retry.
abbrev posts : List (Posted (List (TelemetryEvent ℕ)))
posts = posted (enqueue_raised false) ∷ posted enqueued ∷ posted enqueued ∷ []

abbrev service : Service ℕ
service = record { idempotency_cache = []; jobs = [] }

one_job_per_key_example :
    (jobs_for parse validate "k" posts service ≤ failures_for parse validate "k" posts service + 1)
    × AllAgree parse validate "k" posts service (after_posts parse validate posts service)
one_job_per_key_example = one_job_per_key parse validate "k" posts service

one_failure : failures_for parse validate "k" posts service ≡ 1
unfolding post_telemetry given_key find_cached lookup accept respond enqueue_job remember insert
one_failure = refl

abbrev answered : Service ℕ
answered = record {
  idempotency_cache =
      ("k", record { status = "accepted"; accepted = 1; ingestion_ids = "id-1" ∷ [] }) ∷ [];
  jobs = [];
}

abbrev other : Posted (List (TelemetryEvent ℕ))
other = record { outcome = enqueued; idempotency_key = some "j"; body = event ∷ [] }

-- A request with another key is under way.
abbrev before : Config ℕ (List (TelemetryEvent ℕ))
before = record { service = answered; in_flight = other ∷ [] }

abbrev after : Config ℕ (List (TelemetryEvent ℕ))
after = record { service = (finish parse validate other answered).1; in_flight = [] }

abbrev response : IngestResponse
response = record { status = "accepted"; accepted = 1; ingestion_ids = "id-1" ∷ [] }

-- It finishes after a retry with the key `k` has arrived.
retry_meanwhile : Trace parse validate "k" before 0 (accepted_with response ∷ []) after
unfolding find_cached given_key lookup
retry_meanwhile = cached (posted enqueued) response refl (finishes [] [] other refl done)

Settled-stays_example :
    (◌≡◌ {A = ℕ} 0 0)
    × All (λ a. a ≡ accepted_with response) (accepted_with response ∷ [])
    × Settled parse validate "k" response after
unfolding lookup given_key
Settled-stays_example = Settled-stays parse validate "k" response (refl, (refl, tt)) retry_meanwhile

-- Two requests with one key that arrive before either finishes queue two jobs.
abbrev empty : Config ℕ (List (TelemetryEvent ℕ))
empty = record { service = service; in_flight = [] }

abbrev once : Service ℕ
once = (finish parse validate (posted enqueued) service).1

abbrev twice : Config ℕ (List (TelemetryEvent ℕ))
twice = record { service = (finish parse validate (posted enqueued) once).1; in_flight = [] }

race : Trace parse validate "k" empty 2 (accepted_with response ∷ accepted_with response ∷ []) twice
unfolding find_cached given_key lookup accept respond enqueue_job remember response_to
race = arrives (posted enqueued) refl (
    arrives (posted enqueued) refl (
      finishes [] (posted enqueued ∷ []) (posted enqueued) refl
        (finishes [] [] (posted enqueued) refl done)))
