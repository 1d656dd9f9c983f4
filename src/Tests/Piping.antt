-- ===== src/Tests/Piping.antt =====
-- One batch through two services, of which the first answers too late: both queue it.
use flight_pulse.Base.{
  ℕ, ◌<◌, String, ◌≡◌, refl, sym, inl, inr, Bool, true, Option, none, some, List, [], ◌∷◌, arith,
  leb, if◌then◌else◌, ◌==◌, string_eq, nat_eq, option_eq, list_eq,
}
use flight_pulse.Base.Dict.{Dict, lookup, insert}
use flight_pulse.Base.Text.{lower}
use flight_pulse.Base.Result.{Result, ok}
use flight_pulse.Ingestion.Schemas.{TelemetryEvent, TelemetryBatch}
use flight_pulse.Ingestion.Routes.{
  Job, Service, enqueued, find_cached, given_key, accept, respond, enqueue_job, remember,
  post_telemetry, process_telemetry_batch as job_of,
}
use flight_pulse.LoadBalancer.Metrics.{new_metrics}
use flight_pulse.LoadBalancer.Health.{new_checker, healthy_backends, mark_unhealthy}
use flight_pulse.LoadBalancer.Health.Invariant.{new_checker-IsValid}
use flight_pulse.LoadBalancer.Router.{next_backend}
use mathlib.Core.Path.{subst}
use flight_pulse.LoadBalancer.Server.{
  Balancer, Sent, outgoing, response, failed, is_safe_to_retry, strip_headers, background,
}
use flight_pulse.LoadBalancer.Server.Proxy.{proxy, attempts_allowed, retryable, Setting}
use flight_pulse.LoadBalancer.Server.Proxy.Replies.{WellFormed}
use flight_pulse.Worker.Database.{Database}
use flight_pulse.Worker.Database.Rows.{row_database}
use flight_pulse.Worker.Persistence.{pushed, operational, commit_raised}
use flight_pulse.Worker.Persistence.Insertion.{no_faults}
use flight_pulse.Worker.Processor.{Backoff, World, prepare}
use flight_pulse.Worker.Processor.Jobs.{Settled}
use flight_pulse.Worker.Processor.Attempts.{Attempt, run_attempts}
use flight_pulse.Pipeline.{Handled, none_sent, served, IsSuccess}
use flight_pulse.Pipeline.Delivery.{batch_stored_once}

abbrev event : String → TelemetryEvent ℕ
event ingestion_id = record {
  source = "opensky";
  icao24 = ingestion_id;
  callsign = none;
  origin_country = none;
  time_position = none;
  last_contact = none;
  longitude = none;
  latitude = none;
  baro_altitude_m = none;
  geo_altitude_m = none;
  velocity_mps = none;
  true_track_deg = none;
  vertical_rate_mps = none;
  on_ground = none;
  ingested_at = "2024-01-01T00:00:00Z";
  ingestion_id = ingestion_id;
  collector_id = none;
}

abbrev batch : TelemetryBatch ℕ
batch = record { events = event "id-1" ∷ event "id-2" ∷ [] }

-- Every body is this batch.
abbrev parse : List ℕ → Option (List ℕ)
parse body = some body

abbrev model_validate : List ℕ → Result String (TelemetryBatch ℕ)
model_validate json = ok batch

abbrev key_of : Dict String String → Option String
key_of headers = lookup "Idempotency-Key" headers

abbrev balancer : Balancer ℕ
balancer = record {
  metrics = new_metrics;
  checker = new_checker ("a" ∷ "b" ∷ []) 2;
  router = record { backend_urls = "a" ∷ "b" ∷ []; position = 1 };
}

balancer-WellFormed : WellFormed balancer
balancer-WellFormed = record {
  checker = new_checker-IsValid ("a" ∷ "b" ∷ []) 2;
  router = omega arith;
}

abbrev setting : Setting ℕ
setting = record {
  zero_ms = 0;
  max_retries = 1;
  request = record {
    method = "POST";
    full_path = "telemetry";
    headers = ("Idempotency-Key", "k") ∷ [];
    query_params = [];
    body = [];
  };
  send = λ attempt o. record {
    reply = if attempt == 0 then failed else response 200 [] [];
    elapsed_ms = 5;
    checks = [];
  };
}

abbrev idle : Service ℕ
idle = record { idempotency_cache = []; jobs = [] }

abbrev jobs : List (Job ℕ)
jobs = job_of batch ∷ job_of batch ∷ []

abbrev first : Sent
first = record { outgoing = outgoing setting.request "b"; reply = failed }

abbrev second : Sent
second = record { outgoing = outgoing setting.request "a"; reply = response 200 [] [] }

sent_twice : (proxy setting balancer).sent ≡ first ∷ second ∷ []
unfolding proxy attempts_allowed retryable is_safe_to_retry strip_headers lower insert next_backend
    healthy_backends new_checker mark_unhealthy lookup background
sent_twice = refl

Handled-both : Handled parse model_validate key_of (first ∷ second ∷ []) jobs
unfolding find_cached post_telemetry given_key accept respond enqueue_job remember lookup
    strip_headers lower insert
Handled-both =
    served {x = first} (job_of batch ∷ []) enqueued idle refl refl (inl refl) (
      served {x = second} (job_of batch ∷ []) enqueued idle refl refl (inr ([], [], refl))
        none_sent)

Handled-twice : Handled parse model_validate key_of (proxy setting balancer).sent jobs
Handled-twice =
    subst (λ sent. Handled parse model_validate key_of sent jobs) (sym sent_twice) Handled-both

abbrev rows : Database ℕ
rows = row_database

abbrev validate : TelemetryBatch ℕ → Result String (List (TelemetryEvent ℕ))
validate b = ok b.events

abbrev at_most_zero : ℕ → Bool
at_most_zero metres = leb metres 0

abbrev backoff : Backoff
backoff = record { base_seconds = 2; max_seconds = 60 }

abbrev world : World rows (TelemetryBatch ℕ)
world = record { table = []; dead_letters = [] }

-- The first job's commit is not answered; its retry comes after the second job.
abbrev attempts : List (Attempt (TelemetryBatch ℕ))
attempts =
    record {
      number = 1;
      payload = batch;
      faults = record {
        raises = λ _. none;
        commit = commit_raised operational true;
        push = pushed;
      };
    }
    ∷ record { number = 1; payload = batch; faults = no_faults }
    ∷ record { number = 2; payload = batch; faults = no_faults }
    ∷ []

batch_stored_once_example :
    let (results, w) = run_attempts rows validate at_most_zero backoff attempts world in
    (IsSuccess (proxy setting balancer).answer → 0 < 2)
    × Settled rows validate at_most_zero backoff (prepare at_most_zero batch.events) world results w
batch_stored_once_example =
    batch_stored_once rows validate at_most_zero backoff parse model_validate key_of setting
      balancer [] batch jobs attempts world balancer-WellFormed refl refl refl Handled-twice
      (inl refl, (inl refl, (inl refl, tt)))
