-- ===== src/Tests/Exporting.antt =====
-- replay/export_fixture.py, replay/report.py and the configuration of the backends on small inputs.
use flight_pulse.Base.{
  ℕ, ◌*◌, ◌/◌, String, ◌≡◌, refl, ap, ◌∙◌, true, false, Option, none, some, List, [], ◌∷◌, ◌++◌,
  arith, filter, ◌==◌, string_eq, nat_eq, option_eq, list_eq,
}
use flight_pulse.Base.Int.{pos}
use flight_pulse.Base.Format.{strip}
use flight_pulse.Base.Result.{Result, ok}
use flight_pulse.Ingestion.Schemas.{TelemetryEvent}
use flight_pulse.LoadBalancer.Config.{backend_urls_of}
use flight_pulse.LoadBalancer.Health.{HealthChecker, new_checker, get_state, healthy}
use flight_pulse.LoadBalancer.Health.History.{Event, checked, marked, apply_all}
use flight_pulse.LoadBalancer.Health.Recovery.{recovers}
use flight_pulse.Replay.Player.{FixtureError, load_fixture}
use flight_pulse.Replay.ExportFixture.{StoredRow, Source, build_query, record_of, export_fixture}
use flight_pulse.Replay.ExportFixture.RoundTrip.{payloads, ReadsBack, load_fixture-export_fixture}
use flight_pulse.Replay.Report.{
  TestResult, run_results, is_test, PassRate, fetch_dbt_test_pass_rate,
}
use flight_pulse.Replay.Report.Rates.{Rates, fetch_dbt_test_pass_rate-Rates}

-- What happens before and after the second backend answers again; the first one fails meanwhile.
abbrev past : List Event
past = checked "b" false ∷ marked "a" ∷ []

abbrev recent : List Event
recent = checked "b" true ∷ checked "a" false ∷ checked "b" true ∷ []

recovers_example :
    (h : HealthChecker) × (apply_all (past ++ recent) (new_checker ("a" ∷ "b" ∷ []) 2) ≡ some h)
    × (get_state "b" h ≡ some healthy)
recovers_example =
    recovers ("a" ∷ "b" ∷ []) 2 past recent "b" (refl, (refl, (refl, (refl, (refl, tt))))) refl
      ((λ _. refl), ((λ e. absurd (cc)), ((λ _. refl), tt))) (omega arith)

abbrev urls : List String
urls = "http://a:1" ∷ "http://b:2" ∷ []

three_backends :
    backend_urls_of none
    ≡ "http://localhost:8001" ∷ "http://localhost:8002" ∷ "http://localhost:8003" ∷ []
unfolding backend_urls_of
three_backends = refl

blanks_are_left_out : backend_urls_of (some " http://a:1 ,, ,http://b:2") ≡ urls
unfolding backend_urls_of
blanks_are_left_out = refl

abbrev results : List TestResult
results =
    record { unique_id = some "model.flights"; status = some "success" }
    ∷ record { unique_id = some "test.unique"; status = some "pass" }
    ∷ record { unique_id = some "test.not_null"; status = some "fail" }
    ∷ []

abbrev rounded : ℕ → ℕ → ℕ
rounded n total = 100 * n / total

fetch_dbt_test_pass_rate-Rates_example :
    (report : Option (PassRate ℕ)) × (fetch_dbt_test_pass_rate rounded (run_results results)
      ≡ ok report)
    × Rates rounded (filter is_test results) report
fetch_dbt_test_pass_rate-Rates_example = fetch_dbt_test_pass_rate-Rates rounded results

half_pass :
    fetch_dbt_test_pass_rate rounded (run_results results)
    ≡ ok (
        some (record {
          tests_passed = 1;
          tests_total = 2;
          pass_rate_pct = some 50;
          failing_tests = "test.not_null" ∷ [];
        }))
unfolding fetch_dbt_test_pass_rate
half_pass = refl

abbrev event : String → TelemetryEvent ℕ
event ingestion_id = record {
  source = "opensky";
  icao24 = "4b1815";
  callsign = none;
  origin_country = none;
  time_position = none;
  last_contact = none;
  longitude = none;
  latitude = none;
  baro_altitude_m = none;
  geo_altitude_m = none;
  velocity_mps = none;
  true_track_deg = none;
  vertical_rate_mps = none;
  on_ground = none;
  ingested_at = "2024-01-01T00:00:00Z";
  ingestion_id = ingestion_id;
  collector_id = none;
}

abbrev row : String → StoredRow ℕ ℕ
row ingestion_id = record {
  ingestion_id = ingestion_id;
  source = "opensky";
  icao24 = "4b1815";
  collector_id = none;
  payload = event ingestion_id;
  received_at = 1;
  ingested_at = 1;
  processed_at = none;
}

abbrev rows : List (StoredRow ℕ ℕ)
rows = row "id-1" ∷ row "id-2" ∷ []

-- A line stands for its payload.
abbrev source : Source ℕ ℕ
source = record {
  connect = none;
  execute = λ query. ok rows;
  isoformat = λ t. "2024-01-01T00:00:00+00:00";
  dumps = λ r. r.payload.ingestion_id;
}

abbrev payload : String → Result FixtureError (TelemetryEvent ℕ)
payload line = ok (event line)

-- A record with the payload of a row has the row's line.
json :
    (ingestion_id : String)
    → strip ingestion_id ≡ ingestion_id
    → (ingestion_id == "") ≡ false
    → ReadsBack source payload (event ingestion_id)
json ingestion_id bare filled r same =
    let line = ap (λ (e : TelemetryEvent ℕ). strip e.ingestion_id) same ∙ bare in
    (ap (λ s. s == "") line ∙ filled, ap payload line)

load_fixture-export_fixture_example :
    (lines : List String) × (export_fixture source
        (some (pos 24000))
        none
        (some "2026-08-20T00:15:00Z")
      ≡ (ok 2, some lines))
    × (load_fixture payload lines ≡ ok (payloads rows))
unfolding strip record_of
load_fixture-export_fixture_example =
    load_fixture-export_fixture source payload (some (pos 24000)) none (some "2026-08-20T00:15:00Z")
      rows refl refl (json "id-1" refl refl, (json "id-2" refl refl, tt))

query_with_an_end : build_query (some (pos 0)) (some "") (some "2026-08-20T00:15:00Z") ≡ record {
  where_sql = "WHERE ingested_at <= %(end)s";
  limit_sql = "";
  start = none;
  end = some "2026-08-20T00:15:00Z";
  limit = none;
}
unfolding build_query
query_with_an_end = refl
