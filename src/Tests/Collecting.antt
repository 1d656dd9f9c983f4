-- ===== src/Tests/Collecting.antt =====
-- collector/ on two responses of OpenSky that report one observation.
use flight_pulse.Base.{
  map, ℕ, String, ◌≡◌, refl, ◌↔◌, none, some, List, [], ◌∷◌, if◌then◌else◌, All, ◌==◌, string_eq,
  nat_eq, option_eq, list_eq,
}
use flight_pulse.Base.Int.{pos}
use flight_pulse.Base.Dict.{lookup}
use flight_pulse.Base.Format.{strip, ◌+++◌, int_text}
use flight_pulse.Base.Result.{ok, err}
use flight_pulse.Collector.Normalizer.Names.{compute_ingestion_id_iff}
use flight_pulse.Collector.Normalizer.{
  compute_ingestion_id, null, text, integer, StateVector, States, CollectedEvent, Platform,
  normalize_batch, normalized,
}
use flight_pulse.Collector.Normalizer.Batch.{
  Normalizes, kept, state_list, normalize_batch-Normalizes,
}
use flight_pulse.Collector.Normalizer.Identity.{SameObservation, SameObservation-same_id}
use flight_pulse.Collector.OpenSky.{
  bad_status, no_expires_in, TokenManager, Box, query_of, no_retry_after, Network, get_states,
}
use flight_pulse.Collector.OpenSky.Attempts.{Legal, get_states-Legal}
use flight_pulse.Collector.Producer.{
  request_exception, response, Settings, Stamps, run_once, succeeds,
}
use flight_pulse.Collector.Producer.Loop.{Round, run_forever}
use flight_pulse.Collector.Producer.Reports.{Honest, run_once-Honest}

-- `uuid5` as the name itself.
abbrev platform : String → Platform ℕ
platform now = record {
  is_zero = λ x. x == 0;
  float_text = λ x. int_text (pos x);
  uuid5 = λ name. name;
  uuid4 = λ i. now +++ int_text (pos i);
  now = λ i. now;
}

abbrev state : ℕ → StateVector ℕ
state last_contact =
    text "4b1815" ∷ text "SWR12   " ∷ text "Switzerland" ∷ null ∷ integer (pos last_contact) ∷ []

abbrev answer : List (StateVector ℕ) → States ℕ
answer states = record { time = integer (pos 1700000000); states = some states }

-- A state vector without an icao24 comes first.
abbrev first : States ℕ
first = answer ((null ∷ []) ∷ state 1700000000 ∷ [])

abbrev second : States ℕ
second = answer (state 1700000000 ∷ [])

abbrev event_at : String → ℕ → CollectedEvent ℕ
unfolding normalized
event_at now i = normalized (platform now) i (state 1700000000) "collector-1" (some "SWR12")

normalize_batch-Normalizes_example :
    Normalizes
      (platform "t1")
      "collector-1"
      (kept (platform "t1") (state_list first))
      (normalize_batch (platform "t1") first "collector-1")
normalize_batch-Normalizes_example = normalize_batch-Normalizes (platform "t1") first "collector-1"

first_events : normalize_batch (platform "t1") first "collector-1" ≡ ok (event_at "t1" 1 ∷ [])
unfolding normalize_batch lookup strip
first_events = refl

second_events : normalize_batch (platform "t2") second "collector-1" ≡ ok (event_at "t2" 0 ∷ [])
unfolding normalize_batch lookup strip
second_events = refl

SameObservation-same_id_example :
    All
      (λ a. All (λ b. SameObservation a b → a.ingestion_id ≡ b.ingestion_id) (event_at "t2" 0 ∷ []))
      (event_at "t1" 1 ∷ [])
SameObservation-same_id_example =
    SameObservation-same_id (platform "t1") (platform "t2") first second "collector-1" "collector-1"
      (event_at "t1" 1 ∷ []) (event_at "t2" 0 ∷ []) (refl, refl) first_events second_events

-- The first token has expired: 401, and then the data.
abbrev network : Network (States ℕ) ℕ
network = record {
  now = λ i. 100;
  token_reply = λ i. ok (record { access_token = "new"; expires_in = no_expires_in });
  token_at = λ i. 100;
  states_reply = λ i query bearer.
      if bearer == some "new"
      then some (record { status_code = 200; json = some second; retry_after = no_retry_after })
      else some (record { status_code = 401; json = none; retry_after = no_retry_after });
}

abbrev box : Box ℕ
box = (4, 3, 14, 15)

abbrev manager : TokenManager
manager = record {
  client_id = some "id";
  client_secret = some "secret";
  token = some "old";
  expires_at = some 200;
}

get_states-Legal_example :
    Legal network
      (query_of none (some box))
      2
      0
      manager
      (get_states network none (some box) 1 manager)
get_states-Legal_example = get_states-Legal network none (some box) 1 manager

abbrev settings : Settings
settings = record {
  collector_id = "collector-1";
  collector_version = "1.1.0";
  request_scope = "global";
}

abbrev stamps : Stamps
stamps = record { request_id = "r"; idempotency_key = "k"; started_at = "t1"; completed_at = "t2" }

run_once-Honest_example :
    Honest settings stamps
      (platform "t1")
      (response 503)
      (ok (some second))
      (run_once settings stamps (platform "t1") (response 503) (ok (some second)))
run_once-Honest_example =
    run_once-Honest settings stamps (platform "t1") (response 503) (ok (some second))

compute_ingestion_id_iff_example :
    (compute_ingestion_id (platform "t1") "r1" "opensky" (text "4b1815") (integer (pos 17))
      ≡ compute_ingestion_id (platform "t1") "r2" "opensky" (text "4b181") (integer (pos 517)))
    ↔ ((◌≡◌ {A = String} "4b1815" "4b181") × (◌≡◌ {A = ℕ} 17 517))
compute_ingestion_id_iff_example =
    compute_ingestion_id_iff (platform "t1") "r1" "r2" "opensky" "4b1815" "4b181" 17 517
      (λ same. same) refl refl

-- A round without a token, and one that gets a token, posts its event and logs it.
abbrev rounds : List (Round ℕ)
rounds =
    record {
      net = record network { token_reply = λ i. err bad_status };
      platform = platform "t1";
      stamps = stamps;
      telemetry_reply = request_exception;
      log_reply = request_exception;
    }
    ∷ record {
      net = network;
      platform = platform "t2";
      stamps = stamps;
      telemetry_reply = response 202;
      log_reply = response 202;
    }
    ∷ []

rounds_sent :
    map
      (λ ran. ran.result)
      (run_forever settings (some box) (λ e. "exception") (some "id") (some "secret") rounds)
    ≡ ok 0 ∷ ok 1 ∷ []
unfolding run_forever lookup strip succeeds normalize_batch
rounds_sent = refl
