-- ===== src/Replay/ExportFixture.antt =====
-- replay/export_fixture.py: rows of raw_telemetry are written to a fixture. PostgreSQL, `json.dumps`
-- and `isoformat` are parameters, and a file is the list of its lines, as `json.dumps` writes no newline.
pub mod RoundTrip
use mathlib.Core.Option
use flight_pulse.Base.{
  ℕ, ◌+◌, ◌%◌, ◌<◌, String, Bool, Option, none, some, List, [], ◌∷◌, ◌++◌, map, if◌then◌else◌, ◌==◌,
  string_eq, nat_eq, option_eq, list_eq,
}
use flight_pulse.Base.Int.{ℤ, pos, int_eq}
use flight_pulse.Base.Result.{Result, ok, err}
use flight_pulse.Base.Format.{◌+++◌}
use flight_pulse.Base.Search.{join}
use flight_pulse.Ingestion.Schemas.{TelemetryEvent}

-- The text of the query that depends on the arguments, and its parameters.
pub record Query : Type 0 where
  pub where_sql : String
  pub limit_sql : String
  pub start : Option String
  pub end : Option String
  pub limit : Option ℤ

-- `if start:` and `if end:`: an empty text is none.
unfoldable pub given_text : Option String → Option String
given_text none = none
given_text (some s) = if s == "" then none else some s

-- `if limit:`
unfoldable pub given_limit : Option ℤ → Option ℤ
given_limit none = none
given_limit (some n) = if n == pos 0 then none else some n

abbrev clause : String → Option String → List String
clause sql none = []
clause sql (some value) = sql ∷ []

unfoldable pub where_sql_of : List String → String
unfolding join
where_sql_of [] = ""
where_sql_of (c ∷ clauses) = "WHERE " +++ join " AND " (c ∷ clauses)

unfoldable pub build_query : Option ℤ → Option String → Option String → Query
unfolding given_text given_limit where_sql_of
build_query limit start end = record {
  where_sql = where_sql_of (
      clause "ingested_at >= %(start)s" (given_text start)
      ++ clause "ingested_at <= %(end)s" (given_text end));
  limit_sql = elim (given_limit limit) [ none ↦ "" | some n ↦ "LIMIT %(limit)s" ];
  start = given_text start;
  end = given_text end;
  limit = given_limit limit;
}

-- A row that the query returns; `T` is the type of a timestamp.
pub record StoredRow (F T : Type 0) : Type 0 where
  pub ingestion_id : String
  pub source : String
  pub icao24 : String
  pub collector_id : Option String
  pub payload : TelemetryEvent F
  pub received_at : T
  pub ingested_at : T
  pub processed_at : Option T

-- A record of the fixture.
pub record FixtureRecord (F : Type 0) : Type 0 where
  pub ingestion_id : String
  pub source : String
  pub icao24 : String
  pub collector_id : Option String
  pub payload : TelemetryEvent F
  pub received_at : String
  pub ingested_at : String
  pub processed_at : Option String

-- What psycopg raises: `OperationalError`, or another exception.
pub data QueryError : Type 0 where
  operational other_error : QueryError

-- What the export meets: connecting may raise, and then executing the query.
pub record Source (F T : Type 0) : Type 0 where
  pub connect : Option QueryError
  pub execute : Query → Result QueryError (List (StoredRow F T))
  pub isoformat : T → String
  pub dumps : FixtureRecord F → String

module _ {F T : Type 0} (source : Source F T) where
  unfoldable pub record_of : StoredRow F T → FixtureRecord F
  record_of row = record {
    ingestion_id = row.ingestion_id;
    source = row.source;
    icao24 = row.icao24;
    collector_id = row.collector_id;
    payload = row.payload;
    received_at = source.isoformat row.received_at;
    ingested_at = source.isoformat row.ingested_at;
    processed_at = Option.map source.isoformat row.processed_at;
  }

  -- The loop over the rows: the count, and the lines that are written.
  unfoldable pub write_rows : List (StoredRow F T) → ℕ → ℕ × List String
  unfolding record_of
  write_rows [] row_count = (row_count, [])
  write_rows (row ∷ rows) row_count =
      let (count, lines) = write_rows rows (row_count + 1) in
      (count, source.dumps (record_of row) ∷ lines)

  -- The result, and the lines of the output file, if it was opened, which empties it.
  unfoldable pub export_fixture :
      Option ℤ → Option String → Option String → Result QueryError ℕ × Option (List String)
  unfolding build_query write_rows
  export_fixture limit start end = elim source.connect [
    | some e ↦ (err e, none)
    | none ↦ elim (source.execute (build_query limit start end)) [
      | err e ↦ (err e, some [])
      | ok rows ↦ let (count, lines) = write_rows rows 0 in (ok count, some lines)
    ]
  ]

-- What `main` does after the export: `sys.exit(1)`, the exception, or the count, and whether it
-- warns.
pub data Ended : Type 0 where
  exits : Ended
  raises : Ended
  wrote : ℕ → Bool → Ended

unfoldable pub main_end : Result QueryError ℕ → Ended
main_end (err operational) = exits
main_end (err other_error) = raises
main_end (ok count) = wrote count (count == 0)
