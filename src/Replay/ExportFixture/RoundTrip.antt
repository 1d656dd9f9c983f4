-- ===== src/Replay/ExportFixture/RoundTrip.antt =====
-- What replay/export_fixture.py writes, replay/player.py reads.
use flight_pulse.Base.{
  ℕ, ◌+◌, String, ◌≡◌, refl, false, Option, none, some, List, [], ◌∷◌, arith, All, length, ◌==◌,
  string_eq, nat_eq, option_eq, list_eq,
}
use flight_pulse.Base.Int.{ℤ}
use flight_pulse.Base.Format.{strip}
use flight_pulse.Base.Result.{Result, ok}
use flight_pulse.Ingestion.Schemas.{TelemetryEvent}
use flight_pulse.Replay.Player.{FixtureError, load_fixture}
use flight_pulse.Replay.ExportFixture.{
  StoredRow, FixtureRecord, Source, build_query, record_of, write_rows, export_fixture,
}

abbrev pub payloads : {F T : Type 0} → List (StoredRow F T) → List (TelemetryEvent F)
payloads [] = []
payloads (row ∷ rows) = row.payload ∷ payloads rows

module _ {F T : Type 0} (source : Source F T)
    (payload : String → Result FixtureError (TelemetryEvent F)) where
  -- What is assumed of JSON: the text of any record with this payload is not blank, and the payload
  -- is read back from it.
  abbrev pub ReadsBack : TelemetryEvent F → Type 0
  ReadsBack e =
      (r : FixtureRecord F)
      → r.payload ≡ e
      → ((strip (source.dumps r) == "") ≡ false) × (payload (strip (source.dumps r)) ≡ ok e)

  reads_rows :
      (rows : List (StoredRow F T)) (n : ℕ)
      → All ReadsBack (payloads rows)
      → let (count, lines) = write_rows source rows n in
        (count ≡ n + length rows) × (load_fixture payload lines ≡ ok (payloads rows))
  unfolding write_rows load_fixture record_of
  reads_rows [] n json = (omega arith, refl)
  reads_rows (row ∷ rows) n (reads_back, json) =
      let (filled, reads) = reads_back (record_of source row) refl in
      let (count, read) = reads_rows rows (n + 1) json in
      (omega arith, rw (load_fixture, filled, reads, read) refl)

  -- Where the query returns rows, and JSON reads back the payload of any record that has the payload
  -- of a row: the export returns the number of rows and writes a fixture from which the player
  -- reads the payloads of these rows, unchanged, all of them and in the order of the query.
  pub load_fixture-export_fixture :
      (limit : Option ℤ) (start end : Option String) (rows : List (StoredRow F T))
      → source.connect ≡ none
      → source.execute (build_query limit start end) ≡ ok rows
      → All ReadsBack (payloads rows)
      → (lines : List String) × (export_fixture source limit start end
          ≡ (ok (length rows), some lines))
        × (load_fixture payload lines ≡ ok (payloads rows))
  unfolding export_fixture
  load_fixture-export_fixture limit start end rows connected returned json =
      let (count, read) = reads_rows rows 0 json in
      let all : (write_rows source rows 0).0 ≡ length rows = omega arith in
      ((write_rows source rows 0).1, rw (connected, export_fixture, returned, all) refl, read)
