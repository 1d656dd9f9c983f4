-- ===== src/Worker/ExtractionLog/Once.antt =====
-- An entry of the extraction log under faults and redelivery.
use flight_pulse.Base.{
  ℕ, ◌+◌, String, ◌≡◌, refl, ap, ◌∙◌, ◌⊎◌, inl, inr, Bool, true, false, ◌||◌, List, [], ◌∷◌, arith,
  Option-cases, beq_refl, string_eq, nat_eq, option_eq, list_eq,
}
use flight_pulse.Base.Result.{Result, ok, err}
use flight_pulse.Ingestion.Schemas.{ExtractionLogEntry}
use flight_pulse.Worker.Persistence.{
  PersistError, unavailable, uncaught, Commit, committed, commit_raised, Faults,
}
use flight_pulse.Worker.Processor.{Backoff}
use flight_pulse.Worker.ExtractionLog.{
  LogTable, persist_extraction_log, LogResult, logged, log_result, LogWorld, process_extraction_log,
}

abbrev pub is_logged : LogResult → Bool
is_logged (logged _) = true
is_logged _ = false

abbrev pub any_logged : List LogResult → Bool
any_logged [] = false
any_logged (r ∷ rs) = is_logged r || any_logged rs

commit_cases :
    (c : Commit) → (c ≡ committed) ⊎ ((e : _) × (applied : Bool) × (c ≡ commit_raised e applied))
commit_cases committed = inl refl
commit_cases (commit_raised e applied) = inr (e, applied, refl)

module _ {P : Type 0} (db : LogTable) (validate : P → Result String ExtractionLogEntry)
    (settings : Backoff) where
  -- Attempts from number `attempt` on.
  unfoldable pub run_log_jobs : List Faults → ℕ → P → LogWorld db P → List LogResult × LogWorld db P
  run_log_jobs [] attempt payload w = ([], w)
  run_log_jobs (faults ∷ more) attempt payload w =
      let (result, w') = process_extraction_log db validate settings faults attempt payload w in
      let (results, w'') = run_log_jobs more (attempt + 1) payload w' in (result ∷ results, w'')

  -- The log is as it was, and no attempt said otherwise; or the entry was inserted into it.
  abbrev pub LoggedOnce : ExtractionLogEntry → LogWorld db P → Bool → LogWorld db P → Type 0
  LoggedOnce entry w said w' =
      (w'.dead_letters ≡ w.dead_letters)
      × (((w'.log ≡ w.log) × (said ≡ false)) ⊎ (w'.log ≡ db.insert entry w.log))

  insert_again :
      (entry : ExtractionLogEntry) (t : db.Log)
      → db.insert entry (db.insert entry t) ≡ db.insert entry t
  insert_again entry t =
      db.insert_old entry (db.insert entry t)
        (ground (arith, db.insert_has entry t entry.request_id, beq_refl entry.request_id))

  -- The entry was inserted, or an exception left the log as it was or with the entry.
  abbrev Tried : ExtractionLogEntry → db.Log → Result PersistError Unit × db.Log → Type 0
  Tried entry t (ok _, t') = t' ≡ db.insert entry t
  Tried entry t (err e, t') = (t' ≡ t) ⊎ (t' ≡ db.insert entry t)

  persist-Tried :
      (faults : Faults) (entry : ExtractionLogEntry) (t : db.Log)
      → Tried entry t (persist_extraction_log db faults entry t)
  unfolding persist_extraction_log
  persist-Tried faults entry t = elim (Option-cases (faults.raises 0)) [
    | inr (e, raises) ↦ rw (raises, persist_extraction_log, Tried) (inl refl)
    | inl opened ↦ elim (Option-cases (faults.raises 1)) [
      | inr (e, raises) ↦ rw (opened, raises, persist_extraction_log, Tried) (inl refl)
      | inl executed ↦ elim (commit_cases faults.commit) [
        | inl done ↦ rw (opened, executed, done, persist_extraction_log, Tried) refl
        | inr (e, true, lost) ↦
            rw (opened, executed, lost, persist_extraction_log, Tried) (inr refl)
        | inr (e, false, lost) ↦
            rw (opened, executed, lost, persist_extraction_log, Tried) (inl refl)
      ]
    ]
  ]

  judged :
      (attempt : ℕ) (entry : ExtractionLogEntry) (w : LogWorld db P)
      (out : Result PersistError Unit × db.Log)
      → Tried entry w.log out
      → LoggedOnce entry w
          (is_logged (log_result settings attempt entry out.0))
          (record w { log = out.1 })
  unfolding log_result
  judged attempt entry w (ok _, t) tried = (refl, inr tried)
  judged attempt entry w (err unavailable, t) (inl same) = (refl, inl (same, refl))
  judged attempt entry w (err unavailable, t) (inr done) = (refl, inr done)
  judged attempt entry w (err (uncaught e), t) (inl same) = (refl, inl (same, refl))
  judged attempt entry w (err (uncaught e), t) (inr done) = (refl, inr done)

  one_job :
      (faults : Faults) (attempt : ℕ) (payload : P) (entry : ExtractionLogEntry) (w : LogWorld db P)
      → validate payload ≡ ok entry
      → let (result, w') = process_extraction_log db validate settings faults attempt payload w in
        LoggedOnce entry w (is_logged result) w'
  unfolding process_extraction_log
  one_job faults attempt payload entry w valid =
      rw (valid, process_extraction_log)
        (judged attempt entry w (persist_extraction_log db faults entry w.log)
          (persist-Tried faults entry w.log))

  then_again :
      (entry : ExtractionLogEntry) (w w' w'' : LogWorld db P) (said said_later : Bool)
      → LoggedOnce entry w said w'
      → LoggedOnce entry w' said_later w''
      → LoggedOnce entry w (said || said_later) w''
  then_again entry w w' w'' said said_later (d, inl (same, unsaid)) (d', inl (same', unsaid')) =
      (d' ∙ d, inl (same' ∙ same, ground arith))
  then_again entry w w' w'' said said_later (d, inl (same, unsaid)) (d', inr done) =
      (d' ∙ d, inr (done ∙ ap (db.insert entry) same))
  then_again entry w w' w'' said said_later (d, inr done) (d', inl (same', unsaid')) =
      (d' ∙ d, inr (same' ∙ done))
  then_again entry w w' w'' said said_later (d, inr done) (d', inr done') =
      (d' ∙ d, inr (done' ∙ ap (db.insert entry) done ∙ insert_again entry w.log))

  -- A valid entry, run any number of times from any attempt number, whatever database calls raise
  -- each time: nothing is dead-lettered, and the log is the one before with the entry inserted
  -- once, or it is unchanged and no attempt reported the entry as logged.
  pub run_log_jobs_once :
      (attempts : List Faults) (attempt : ℕ) (payload : P) (entry : ExtractionLogEntry)
      (w : LogWorld db P)
      → validate payload ≡ ok entry
      → let (results, w') = run_log_jobs attempts attempt payload w in
        LoggedOnce entry w (any_logged results) w'
  unfolding run_log_jobs
  run_log_jobs_once [] attempt payload entry w valid = (refl, inl (refl, refl))
  run_log_jobs_once (faults ∷ more) attempt payload entry w valid =
      let out = process_extraction_log db validate settings faults attempt payload w in
      let later = run_log_jobs more (attempt + 1) payload out.1 in
      then_again entry w out.1 later.1 (is_logged out.0) (any_logged later.0)
        (one_job faults attempt payload entry w valid)
        (run_log_jobs_once more (attempt + 1) payload entry out.1 valid)
