-- ===== src/Worker/Database.antt =====
-- What the worker relies on of PostgreSQL: the behaviour of the statement that
-- worker/persistence.py sends for raw_telemetry, with the unique index of
-- sql/001_raw_telemetry.sql. `Rows` meets it.
pub mod Rows
use flight_pulse.Base.{
  ℕ, ◌+◌, String, ◌≡◌, Bool, ◌||◌, Option, List, [], ◌∷◌, if◌then◌else◌, length, ◌==◌, contains,
  string_eq, nat_eq, option_eq, list_eq,
}
use flight_pulse.Ingestion.Schemas.{TelemetryEvent}

-- A row of raw_telemetry, as far as the worker writes it. The payload is the event, which the code
-- encodes as JSON.
pub record Row (F : Type 0) : Type 0 where
  pub ingestion_id : String
  pub source : String
  pub icao24 : String
  pub collector_id : Option String
  pub payload : TelemetryEvent F
  pub ingested_at : String

abbrev pub ids : {F : Type 0} → List (Row F) → List String
ids [] = []
ids (r ∷ rows) = r.ingestion_id ∷ ids rows

-- The ids that a statement inserts: of rows with one id the first, unless the id is held.
unfoldable pub new_ids : List String → (String → Bool) → List String
new_ids [] held = []
new_ids (i ∷ is) held = if held i then new_ids is held else i ∷ new_ids is (λ j. j == i || held j)

-- INSERT ... ON CONFLICT (ingestion_id) DO NOTHING RETURNING ingestion_id, as documented.
pub record Database (F : Type 0) : Type 1 where
  pub Table : Type 0
  pub holds : Table → String → Bool
  pub size : Table → ℕ
  -- the table afterwards, and the ids that are returned
  pub insert : List (Row F) → Table → Table × List String
  pub insert_returns :
      (rows : List (Row F)) (t : Table) → (insert rows t).1 ≡ new_ids (ids rows) (holds t)
  pub insert_holds :
      (rows : List (Row F)) (t : Table) (i : String)
      → holds (insert rows t).0 i ≡ (holds t i || contains (ids rows) i)
  pub insert_size :
      (rows : List (Row F)) (t : Table) → size (insert rows t).0 ≡ size t + length (insert rows t).1
