-- ===== src/Worker/Processor/DeadLetters.antt =====
-- The dead letters of worker/processor.py, over attempts at valid and invalid batches.
use mathlib.Core.List.{append_assoc, append-nil}
use flight_pulse.Base.{
  ℕ, String, ◌≡◌, refl, sym, ap, ◌∙◌, ◌≢◌, ◌↔◌, inl, inr, Bool, true, false, List, [], ◌∷◌, ◌++◌,
  if◌then◌else◌, Bool-cases, filter, string_eq, nat_eq, option_eq, list_eq,
}
use flight_pulse.Base.Result.{Result, ok, err, result_cases}
use flight_pulse.Ingestion.Schemas.{TelemetryEvent}
use flight_pulse.Worker.Database.{Database}
use flight_pulse.Worker.Persistence.{
  PersistError, unavailable, uncaught, Push, pushed, push_raised, persist_batch,
}
use flight_pulse.Worker.Processor.{
  key_eq, Backoff, JobResult, dead_lettered, push_failed, DeadLetter, write_to_dead_letter, World,
  job_result, prepare, process_telemetry_batch,
}
use flight_pulse.Worker.Processor.Attempts.{Attempt, run_one, run_attempts}

-- The push has taken effect, and it has returned.
abbrev has_landed : Push → Bool
has_landed pushed = true
has_landed (push_raised landed) = landed

abbrev has_returned : Push → Bool
has_returned pushed = true
has_returned (push_raised landed) = false

module _ {P : Type 0} where
  -- The list after a push, and what the job then does.
  push_lem :
      (push : Push) (letter : DeadLetter P) (letters : List (DeadLetter P))
      → let (returns, letters') = write_to_dead_letter push letter letters in
        (letters' ≡ letters ++ (if has_landed push then letter ∷ [] else []))
        × (((if returns then dead_lettered else push_failed) ≡ dead_lettered)
            ↔ (has_returned push ≡ true))
  unfolding write_to_dead_letter
  push_lem pushed letter letters = (refl, (λ h. refl, λ h. refl))
  push_lem (push_raised true) letter letters = (refl, (λ h. absurd (cc), λ h. absurd (cc)))
  push_lem (push_raised false) letter letters =
      (sym (append-nil letters), (λ h. absurd (cc), λ h. absurd (cc)))

-- Storing a batch does not end in a dead letter.
job_result-not_dead :
    (settings : Backoff) (attempt accepted : ℕ) (r : Result PersistError ℕ)
    → job_result settings attempt accepted r ≢ dead_lettered
unfolding job_result
job_result-not_dead settings attempt accepted (ok n) h = cc
job_result-not_dead settings attempt accepted (err unavailable) h = cc
job_result-not_dead settings attempt accepted (err (uncaught e)) h = cc

module _ {F P : Type 0} (db : Database F) (validate : P → Result String (List (TelemetryEvent F)))
    (at_most_zero : F → Bool) (settings : Backoff) where
  abbrev is_ok : Result String (List (TelemetryEvent F)) → Bool
  is_ok (ok events) = true
  is_ok (err reason) = false

  abbrev pub is_valid : Attempt P → Bool
  is_valid a = is_ok (validate a.payload)

  abbrev letter_if : Push → P → Result String (List (TelemetryEvent F)) → List (DeadLetter P)
  letter_if push payload (ok events) = []
  letter_if push payload (err reason) =
      if has_landed push then record { reason = reason; batch = payload } ∷ [] else []

  -- The invalid payloads whose push took effect, each with the reason, in the order of the attempts.
  abbrev pub letters_of : List (Attempt P) → List (DeadLetter P)
  letters_of [] = []
  letters_of (a ∷ attempts) =
      letter_if a.faults.push a.payload (validate a.payload) ++ letters_of attempts

  -- A result tells of a dead letter exactly for an invalid payload whose push returned.
  abbrev pub AllTold : List (Attempt P) → List JobResult → Type 0
  AllTold [] [] = Unit
  AllTold (a ∷ attempts) (r ∷ results) =
      ((r ≡ dead_lettered) ↔ ((is_valid a ≡ false) × (has_returned a.faults.push ≡ true)))
      × AllTold attempts results
  AllTold _ _ = ⊥

  -- What one attempt does, from two worlds with one table.
  abbrev Steps : Attempt P → World db P → World db P → Type 0
  Steps a w v =
      let (r, w') = run_one db validate at_most_zero settings a w in
      let (_, v') = run_one db validate at_most_zero settings a v in
      (w'.dead_letters ≡ w.dead_letters ++ letter_if a.faults.push a.payload (validate a.payload))
      × ((r ≡ dead_lettered) ↔ ((is_valid a ≡ false) × (has_returned a.faults.push ≡ true)))
      × (w'.table ≡ (if is_valid a then v'.table else v.table))

  step : (a : Attempt P) (w v : World db P) → w.table ≡ v.table → Steps a w v
  unfolding process_telemetry_batch write_to_dead_letter job_result
  step a w v same = elim (result_cases (validate a.payload)) [
    | inl (events, valid) ↦
        rw (process_telemetry_batch, valid)
          (
            sym (append-nil w.dead_letters),
            (
              λ h. absurd (job_result-not_dead settings a.number _ _ h),
              λ (invalid, _). absurd (cc),
            ),
            ap (λ t. (persist_batch db a.faults (prepare at_most_zero events) t).1) same,
          )
    | inr (reason, invalid) ↦
        rw (process_telemetry_batch, invalid)
          (let (list, (to, from)) =
              push_lem a.faults.push (record { reason = reason; batch = a.payload })
                w.dead_letters in
            (list, (λ h. (refl, to h), λ (_, h). from h), same))
  ]

  -- The same, with another world that has the same table.
  abbrev Runs : List (Attempt P) → World db P → World db P → Type 0
  Runs attempts w v =
      let (results, w') = run_attempts db validate at_most_zero settings attempts w in
      let valid = filter is_valid attempts in
      (w'.dead_letters ≡ w.dead_letters ++ letters_of attempts)
      × AllTold attempts results
      × (w'.table ≡ (run_attempts db validate at_most_zero settings valid v).1.table)

  from_equal :
      (attempts : List (Attempt P)) (w v : World db P) → w.table ≡ v.table → Runs attempts w v
  unfolding run_attempts
  from_equal [] w v same = (sym (append-nil w.dead_letters), tt, same)
  from_equal (a ∷ attempts) w v same =
      let w' = (run_one db validate at_most_zero settings a w).1 in
      let v' = (run_one db validate at_most_zero settings a v).1 in
      let (list, told, table) = step a w v same in
      let letters = letter_if a.faults.push a.payload (validate a.payload) in
      let (list', told', table') = from_equal attempts w' (if is_valid a then v' else v) (
        table ∙ elim (Bool-cases (is_valid a)) [
          | inl valid ↦ rw valid refl
          | inr invalid ↦ rw invalid refl
        ]) in
      (
        list'
            ∙ ap (λ (l : List (DeadLetter P)). l ++ letters_of attempts) list
            ∙ append_assoc w.dead_letters letters (letters_of attempts),
        (told, told'),
        table' ∙ elim (Bool-cases (is_valid a)) [
          | inl valid ↦ rw valid refl
          | inr invalid ↦ rw invalid refl
        ],
      )

  -- Attempts at any batches, valid and invalid, in any order and with any faults of the database
  -- and of Redis. The dead-letter list gains exactly the invalid payloads whose push took effect,
  -- each with its reason, in the order of the attempts; a job says that it dead-lettered its batch
  -- exactly if the batch is invalid and the push returned; and the table is what the attempts at
  -- the valid batches alone would leave.
  pub run_attempts-letters :
      (attempts : List (Attempt P)) (w : World db P)
      → let (results, w') = run_attempts db validate at_most_zero settings attempts w in
        let valid = filter is_valid attempts in
        (w'.dead_letters ≡ w.dead_letters ++ letters_of attempts)
        × AllTold attempts results
        × (w'.table ≡ (run_attempts db validate at_most_zero settings valid w).1.table)
  run_attempts-letters attempts w = from_equal attempts w w refl
