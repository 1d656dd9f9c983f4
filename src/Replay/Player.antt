-- ===== src/Replay/Player.antt =====
-- replay/player.py. The lines of the fixture are parsed by a parameter; a payload is an event with
-- all its fields, as replay/export_fixture.py writes them.
pub mod Totals
use mathlib.Core.Option
use flight_pulse.Base.{
  ℕ, ◌+◌, String, Bool, true, Option, none, some, List, [], ◌∷◌, ◌++◌, if◌then◌else◌, length, ◌==◌,
  string_eq, nat_eq, option_eq, list_eq,
}
use flight_pulse.Base.Int.{ℤ}
use flight_pulse.Base.Result.{Result, ok, err, ◌>>=◌}
use flight_pulse.Base.Format.{int_text, strip, ◌+++◌}
use flight_pulse.Base.Chunks.{chunk}
use flight_pulse.Ingestion.Schemas.{TelemetryEvent}
use flight_pulse.Collector.Producer.{PostReply, send_batch}

-- `uuid5` is `uuid.uuid5` in the module's namespace; `uuid4 i` is the random id that is taken for
-- the event at position `i` of a batch.
pub record Uuids : Type 0 where
  pub uuid5 : String → String
  pub uuid4 : ℕ → String

unfoldable pub fresh_ingestion_id : Uuids → ℕ → String → String → Option ℤ → String → String
fresh_ingestion_id uuids i source icao24 none run_salt = uuids.uuid4 i
fresh_ingestion_id uuids i source icao24 (some last_contact) run_salt =
    uuids.uuid5 (run_salt +++ ":" +++ source +++ ":" +++ icao24 +++ ":" +++ int_text last_contact)

-- What reading the fixture raises.
pub data FixtureError : Type 0 where
  bad_line : FixtureError

module _ {F : Type 0} where
  -- The lines of the file in order; `payload` is `json.loads(line)["payload"]`.
  unfoldable pub load_fixture :
      (String → Result FixtureError (TelemetryEvent F))
      → List String
      → Result FixtureError (List (TelemetryEvent F))
  unfolding strip
  load_fixture payload [] = ok []
  load_fixture payload (line ∷ lines) =
      let rest = load_fixture payload lines in
      let kept = do event ← payload (strip line); events ← rest; ok (event ∷ events)
      in if strip line == "" then rest else kept

  -- The loop of `prepare_batch` in the mode fresh, from position `i` on.
  unfoldable pub freshened :
      Uuids → String → String → ℕ → List (TelemetryEvent F) → List (TelemetryEvent F)
  unfolding fresh_ingestion_id
  freshened uuids now_iso run_salt i [] = []
  freshened uuids now_iso run_salt i (e ∷ events) =
      record e {
        ingestion_id = fresh_ingestion_id uuids i e.source e.icao24 e.last_contact run_salt;
        ingested_at = now_iso;
      }
      ∷ freshened uuids now_iso run_salt (i + 1) events

  unfoldable pub prepare_batch :
      Uuids → String → String → String → List (TelemetryEvent F) → List (TelemetryEvent F)
  unfolding freshened
  prepare_batch uuids mode now_iso run_salt events =
      if mode == "replay" then events else freshened uuids now_iso run_salt 0 events

-- What the player counts.
pub record Summary : Type 0 where
  pub batches_sent : ℕ
  pub events_sent : ℕ
  pub failed_batches : ℕ

-- What a batch's `send_batch` returns, or that it raised.
pub data SendResult : Type 0 where
  returned : Bool → SendResult
  raised : SendResult

-- The loop over `as_completed(futures)`: the length of each batch with the result of sending it.
unfoldable pub collect : List (ℕ × SendResult) → Summary → Summary
collect [] s = s
collect ((batch_len, returned true) ∷ futures) s =
    collect futures
      (record s { batches_sent = s.batches_sent + 1; events_sent = s.events_sent + batch_len })
collect ((batch_len, _) ∷ futures) s =
    collect futures
      (record s { batches_sent = s.batches_sent + 1; failed_batches = s.failed_batches + 1 })

-- `sys.exit(1)`, an exception of `load_fixture`, or the summary.
pub data Replayed : Type 0 where
  exited : Replayed
  unreadable : FixtureError → Replayed
  finished : Summary → Replayed

-- The number of a batch decides its time stamp, its random ids and what its POST comes to, where
-- nothing is an exception that `send_batch` does not catch.
pub record Environment : Type 0 where
  pub salt : String
  pub now_iso : ℕ → String
  pub uuids : ℕ → Uuids
  pub idempotency_key : ℕ → String
  pub reply : ℕ → Option PostReply

unfoldable pub salt_of_run : Environment → String → String
salt_of_run env mode = if mode == "fresh" then env.salt else ""

module _ {F : Type 0} (env : Environment) (mode : String) where
  unfoldable pub send : ℕ → List (TelemetryEvent F) → SendResult
  unfolding send_batch
  send n batch = elim (env.reply n) [
    | none ↦ raised
    | some reply ↦ returned (send_batch (env.idempotency_key n) reply batch).0
  ]

  -- The batches handed to the executor, in order, from number `n` on.
  unfoldable pub submitted : ℕ → List (List (TelemetryEvent F)) → List (List (TelemetryEvent F))
  unfolding prepare_batch salt_of_run
  submitted n [] = []
  submitted n (batch ∷ batches) =
      prepare_batch (env.uuids n) mode (env.now_iso n) (salt_of_run env mode) batch
      ∷ submitted (n + 1) batches

  -- The futures in the order of submission; `as_completed` yields them in some order.
  unfoldable pub futures_of : ℕ → List (List (TelemetryEvent F)) → List (ℕ × SendResult)
  unfolding send
  futures_of n [] = []
  futures_of n (batch ∷ batches) = (length batch, send n batch) ∷ futures_of (n + 1) batches

  -- `run_replay` on the lines of the fixture, nothing if there is no such file; `as_completed` is
  -- the order in which the futures complete. The first part is what was submitted.
  unfoldable pub run_replay :
      (String → Result FixtureError (TelemetryEvent F))
      → (List (ℕ × SendResult) → List (ℕ × SendResult))
      → ℕ
      → Option (List String)
      → List (List (TelemetryEvent F)) × Replayed
  unfolding load_fixture submitted futures_of collect
  run_replay payload as_completed batch_size none = ([], exited)
  run_replay payload as_completed batch_size (some lines) = elim (load_fixture payload lines) [
    | err e ↦ ([], unreadable e)
    | ok [] ↦ ([], exited)
    | ok (event ∷ events) ↦
        let batches = submitted 0 (chunk (event ∷ events) batch_size) in
        (
          batches,
          finished (
              collect (as_completed (futures_of 0 batches))
                (record { batches_sent = 0; events_sent = 0; failed_batches = 0 })),
        )
  ]
