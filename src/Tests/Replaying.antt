-- ===== src/Tests/Replaying.antt =====
-- replay/player.py on a fixture of two events, where the batches complete in reverse order.
use flight_pulse.Base.{
  ℕ, String, ◌≡◌, refl, none, some, List, [], ◌∷◌, arith, if◌then◌else◌, ◌==◌, string_eq, nat_eq,
  option_eq, list_eq,
}
use mathlib.Core.List.{reverse, reverse_perm, Perm}
use flight_pulse.Base.Int.{pos}
use flight_pulse.Base.Format.{strip}
use flight_pulse.Base.Result.{Result, ok}
use flight_pulse.Ingestion.Schemas.{TelemetryEvent}
use flight_pulse.Collector.Producer.{response}
use flight_pulse.Replay.Player.{FixtureError, load_fixture, Environment, run_replay}
use flight_pulse.Replay.Player.Totals.{Future, Accounts, run_replay-Accounts}

abbrev event : String → TelemetryEvent ℕ
event line = record {
  source = "opensky";
  icao24 = line;
  callsign = none;
  origin_country = none;
  time_position = none;
  last_contact = some (pos 1700000000);
  longitude = none;
  latitude = none;
  baro_altitude_m = none;
  geo_altitude_m = none;
  velocity_mps = none;
  true_track_deg = none;
  vertical_rate_mps = none;
  on_ground = none;
  ingested_at = "2024-01-01T00:00:00Z";
  ingestion_id = line;
  collector_id = none;
}

-- A line stands for its payload.
abbrev payload : String → Result FixtureError (TelemetryEvent ℕ)
payload line = ok (event line)

abbrev lines : List String
lines = "4b1815" ∷ "" ∷ "3c6444" ∷ []

abbrev environment : Environment
environment = record {
  salt = "s";
  now_iso = λ n. "2024-01-02T00:00:00Z";
  uuids = λ n. record { uuid5 = λ name. name; uuid4 = λ i. "random" };
  idempotency_key = λ n. "k";
  reply = λ n. if n == 0 then none else some (response 202);
}

abbrev events : List (TelemetryEvent ℕ)
events = event "4b1815" ∷ event "3c6444" ∷ []

loaded : load_fixture payload lines ≡ ok events
unfolding load_fixture strip
loaded = refl

reordered : (l : List Future) → Perm (reverse l) l
reordered l = reverse_perm l

run_replay-Accounts_example :
    Accounts environment "replay" events 1
      (run_replay environment "replay" payload reverse 1 (some lines))
run_replay-Accounts_example =
    run_replay-Accounts environment "replay" payload reverse 1 lines events reordered (omega arith)
      loaded
