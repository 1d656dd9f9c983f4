-- ===== src/Ingestion/Schemas.antt =====
-- ingestion/schemas.py. `F` is the type of the floats, which are stored and passed on. Validation
-- is pydantic's: what it accepts is a value of these records.
use flight_pulse.Base.{ℕ, String, Bool, Option, List, string_eq, nat_eq, option_eq, list_eq}
use flight_pulse.Base.Int.{ℤ}

pub record TelemetryEvent (F : Type 0) : Type 0 where
  pub source : String
  pub icao24 : String
  pub callsign : Option String
  pub origin_country : Option String
  pub time_position : Option ℤ
  pub last_contact : Option ℤ
  pub longitude : Option F
  pub latitude : Option F
  pub baro_altitude_m : Option F
  pub geo_altitude_m : Option F
  pub velocity_mps : Option F
  pub true_track_deg : Option F
  pub vertical_rate_mps : Option F
  pub on_ground : Option Bool
  pub ingested_at : String
  pub ingestion_id : String
  pub collector_id : Option String

pub record TelemetryBatch (F : Type 0) : Type 0 where
  pub events : List (TelemetryEvent F)

pub record IngestResponse : Type 0 where
  pub status : String
  pub accepted : ℕ
  pub ingestion_ids : List String

pub record ExtractionLogEntry : Type 0 where
  pub request_id : String
  pub source : String
  pub collector_id : Option String
  pub collector_version : Option String
  pub request_scope : Option String
  pub extraction_started_at : String
  pub extraction_completed_at : Option String
  pub source_observation_time : Option ℤ
  pub record_count : Option ℤ
  pub success : Bool
  pub error_message : Option String
