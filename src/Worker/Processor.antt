-- ===== src/Worker/Processor.antt =====
-- worker/processor.py: the arq job of a telemetry batch. pydantic's validation is a parameter, and
-- so is the comparison of an altitude with 0. Delays are in a unit in which the two settings are
-- whole.
pub mod Dedupe
pub mod Identities
pub mod Delays
pub mod Attempts
pub mod DeadLetters
pub mod Jobs
use mathlib.Core.Option
use flight_pulse.Base.{
  ℕ, ◌+◌, ◌-◌, ◌*◌, ◌^◌, min, String, ◌≡◌, ◌↔◌, Bool, true, false, ◌&&◌, Option, none, some, List,
  [], ◌∷◌, ◌++◌, map, arith, if◌then◌else◌, length, Eq, ◌==◌, contains, string_eq, nat_eq,
  option_eq, list_eq,
}
use flight_pulse.Base.Int.{ℤ, int_eq}
use flight_pulse.Base.Result.{Result, ok, err}
use flight_pulse.Ingestion.Schemas.{TelemetryEvent}
use flight_pulse.Worker.Database.{Database}
use flight_pulse.Worker.Persistence.{
  DatabaseError, PersistError, unavailable, uncaught, Push, pushed, push_raised, Faults,
  persist_batch,
}

-- RETRY_BACKOFF_BASE_SECONDS and RETRY_BACKOFF_MAX_SECONDS of worker/settings.py
pub record Backoff : Type 0 where
  pub base_seconds : ℕ
  pub max_seconds : ℕ

-- `2 ** max(attempt - 1, 0)`: subtraction stops at 0.
unfoldable pub compute_backoff_seconds : Backoff → ℕ → ℕ
compute_backoff_seconds settings attempt =
    min (settings.base_seconds * 2 ^ (attempt - 1)) settings.max_seconds

-- The tuple by which `_dedupe_events` tells events apart.
pub record EventKey : Type 0 where
  pub icao24 : String
  pub last_contact : Option ℤ
  pub source : String

abbrev pub key_beq : EventKey → EventKey → Bool
key_beq a b = a.icao24 == b.icao24 && (a.last_contact == b.last_contact && a.source == b.source)

pub key_beq_iff : (a b : EventKey) → (key_beq a b ≡ true) ↔ (a ≡ b)
key_beq_iff a b = ground (
  arith,
  string_eq.beq_iff a.icao24 b.icao24,
  option_eq.beq_iff a.last_contact b.last_contact,
  string_eq.beq_iff a.source b.source,
)

instance abbrev pub key_eq : Eq EventKey
key_eq = record { beq = key_beq; beq_iff = key_beq_iff }

module _ {F : Type 0} where
  abbrev pub event_key : TelemetryEvent F → EventKey
  event_key e = record { icao24 = e.icao24; last_contact = e.last_contact; source = e.source }

  -- `at_most_zero b` is `b <= 0`.
  unfoldable pub normalize_event : (F → Bool) → TelemetryEvent F → TelemetryEvent F
  normalize_event at_most_zero e = elim e.on_ground [
    | some _ ↦ e
    | none ↦ elim e.baro_altitude_m [
      | none ↦ e
      | some b ↦ record e { on_ground = some (at_most_zero b) }
    ]
  ]

  -- The loop of `_dedupe_events`, with the set `seen` as a list.
  unfoldable pub dedupe_from : List EventKey → List (TelemetryEvent F) → List (TelemetryEvent F)
  dedupe_from seen [] = []
  dedupe_from seen (e ∷ events) =
      let skipped = dedupe_from seen events in
      let kept = e ∷ dedupe_from (event_key e ∷ seen) events in
      if contains seen (event_key e) then skipped else kept

  unfoldable pub dedupe_events : List (TelemetryEvent F) → List (TelemetryEvent F)
  unfolding dedupe_from
  dedupe_events = dedupe_from []

-- What a job returns or raises.
pub data JobResult : Type 0 where
  completed : ℕ → ℕ → JobResult
  dead_lettered : JobResult
  retry : ℕ → JobResult
  raised : DatabaseError → JobResult
  push_failed : JobResult

-- An entry of the dead-letter list; `reason` is the text of the validation error.
pub record DeadLetter (P : Type 0) : Type 0 where
  pub reason : String
  pub batch : P

-- Whether the push returns, and the list after it.
unfoldable pub write_to_dead_letter :
    {P : Type 0} → Push → DeadLetter P → List (DeadLetter P) → Bool × List (DeadLetter P)
write_to_dead_letter pushed letter letters = (true, letters ++ letter ∷ [])
write_to_dead_letter (push_raised landed) letter letters =
    (false, if landed then letters ++ letter ∷ [] else letters)

-- What the job reaches: the table, and the Redis list, newest last.
pub record World {F : Type 0} (db : Database F) (P : Type 0) : Type 0 where
  pub table : db.Table
  pub dead_letters : List (DeadLetter P)

-- What the job does with what `persist_batch` did.
unfoldable pub job_result : Backoff → ℕ → ℕ → Result PersistError ℕ → JobResult
job_result settings attempt accepted (ok newly_inserted) = completed accepted newly_inserted
job_result settings attempt accepted (err unavailable) =
    retry (compute_backoff_seconds settings attempt)
job_result settings attempt accepted (err (uncaught e)) = raised e

-- Normalised, then deduplicated.
unfoldable pub prepare :
    {F : Type 0} → (F → Bool) → List (TelemetryEvent F) → List (TelemetryEvent F)
prepare at_most_zero events = dedupe_events (map (normalize_event at_most_zero) events)

module _ {F P : Type 0} (db : Database F) where
  -- `process_telemetry_batch`, at `ctx["job_try"] = attempt`.
  unfoldable pub process_telemetry_batch :
      (P → Result String (List (TelemetryEvent F)))
      → (F → Bool)
      → Backoff
      → Faults
      → ℕ
      → P
      → World db P
      → JobResult × World db P
  unfolding write_to_dead_letter
  process_telemetry_batch validate at_most_zero settings faults attempt payload w =
      elim (validate payload) [
        | err reason ↦
            let letter : DeadLetter P = record { reason = reason; batch = payload } in
            let (returns, letters) = write_to_dead_letter faults.push letter w.dead_letters in
            (if returns then dead_lettered else push_failed, record w { dead_letters = letters })
        | ok events ↦
            let deduped = prepare at_most_zero events in
            let (result, table) = persist_batch db faults deduped w.table in
            (job_result settings attempt (length deduped) result, record w { table = table })
      ]
