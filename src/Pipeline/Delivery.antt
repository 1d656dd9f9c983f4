-- ===== src/Pipeline/Delivery.antt =====
-- One batch on its way from load_balancer/server.py to the table, through the queue and
-- worker/processor.py.
use mathlib.Core.Path.{subst}
use flight_pulse.Base.{
  ℕ, ◌+◌, ◌<◌, String, ◌≡◌, refl, sym, ap, ◌∙◌, ◌⊎◌, inl, inr, Bool, ◌||◌, Option, some, List, [],
  ◌∷◌, arith, All, length, any, string_eq, nat_eq, option_eq, list_eq,
}
use flight_pulse.Base.Dict.{Dict}
use flight_pulse.Base.Result.{Result, ok, err}
use flight_pulse.Ingestion.Schemas.{TelemetryEvent, TelemetryBatch}
use flight_pulse.Ingestion.Routes.{Job, process_telemetry_batch as job_of, process_extraction_log}
use flight_pulse.LoadBalancer.Server.{Balancer}
use flight_pulse.LoadBalancer.Server.Proxy.{proxy, Setting}
use flight_pulse.LoadBalancer.Server.Proxy.Replies.{WellFormed}
use flight_pulse.Worker.Database.{Database}
use flight_pulse.Worker.Persistence.{PersistError, unavailable, uncaught, Faults, persist_batch}
use flight_pulse.Worker.Persistence.Redelivery.{
  deliver, reported, returned, all_reported, any_returned, deliver_once,
}
use flight_pulse.Worker.Processor.{Backoff, JobResult, World, job_result, prepare}
use flight_pulse.Worker.Processor.Jobs.{newly_inserted, any_completed, process_valid, Settled}
use flight_pulse.Worker.Processor.Attempts.{Attempt, run_attempts}
use flight_pulse.Pipeline.{Handled, IsSuccess, IsSuccess-queued}

-- The job is one of the queue.
abbrev pub IsIn : {A : Type 0} → A → List A → Type 0
IsIn a [] = ⊥
IsIn a (x ∷ xs) = (a ≡ x) ⊎ IsIn a xs

module _ {F : Type 0} (db : Database F)
    (validate : TelemetryBatch F → Result String (List (TelemetryEvent F)))
    (at_most_zero : F → Bool) (settings : Backoff) where
  -- Attempts at jobs of the queue.
  abbrev pub Scheduled : List (Job F) → List (Attempt (TelemetryBatch F)) → Type 0
  Scheduled jobs = All (λ a. IsIn (job_of a.payload) jobs)

  abbrev Same : TelemetryBatch F → List (Attempt (TelemetryBatch F)) → Type 0
  Same batch = All (λ a. a.payload ≡ batch)

  batch_of : TelemetryBatch F → Job F → TelemetryBatch F
  batch_of other (job_of batch) = batch
  batch_of other (process_extraction_log entry) = other

  its_payload :
      (batch p : TelemetryBatch F) (jobs : List (Job F))
      → All (λ j. j ≡ job_of batch) jobs
      → IsIn (job_of p) jobs
      → p ≡ batch
  unfolding batch_of
  its_payload batch p [] all queued = absurd queued
  its_payload batch p (j ∷ jobs) (same, all) (inl here) = ap (batch_of batch) (here ∙ same)
  its_payload batch p (j ∷ jobs) (same, all) (inr later) = its_payload batch p jobs all later

  Scheduled-Same :
      (batch : TelemetryBatch F) (jobs : List (Job F))
      (attempts : List (Attempt (TelemetryBatch F)))
      → All (λ j. j ≡ job_of batch) jobs
      → Scheduled jobs attempts
      → Same batch attempts
  Scheduled-Same batch jobs [] all scheduled = tt
  Scheduled-Same batch jobs (a ∷ attempts) all (this, scheduled) =
      (its_payload batch a.payload jobs all this, Scheduled-Same batch jobs attempts all scheduled)

  abbrev faults_of : List (Attempt (TelemetryBatch F)) → List Faults
  faults_of [] = []
  faults_of (a ∷ attempts) = a.faults ∷ faults_of attempts

  abbrev Delivers :
      List JobResult × World db (TelemetryBatch F)
      → List (Result PersistError ℕ) × db.Table
      → World db (TelemetryBatch F)
      → Type 0
  Delivers (results, w') (rs, t) w =
      (w' ≡ (let last : World db (TelemetryBatch F) = record w { table = t } in last))
      × (any_completed results ≡ any_returned db rs)
      × (newly_inserted results ≡ all_reported db rs)

  result_counts :
      (attempt accepted : ℕ) (r : Result PersistError ℕ) (results : List JobResult)
      → let first = job_result settings attempt accepted r in
        (any_completed (first ∷ results) ≡ (returned db r || any_completed results))
        × (newly_inserted (first ∷ results) ≡ reported db r + newly_inserted results)
  unfolding job_result
  result_counts attempt accepted (ok n) results = (refl, refl)
  result_counts attempt accepted (err unavailable) results = (refl, omega arith)
  result_counts attempt accepted (err (uncaught e)) results = (refl, omega arith)

  attempts-Delivers :
      (batch : TelemetryBatch F) (attempts : List (Attempt (TelemetryBatch F)))
      (w : World db (TelemetryBatch F))
      → validate batch ≡ ok batch.events
      → Same batch attempts
      → Delivers
          (run_attempts db validate at_most_zero settings attempts w)
          (deliver db (faults_of attempts) (prepare at_most_zero batch.events) w.table)
          w
  unfolding run_attempts deliver
  attempts-Delivers batch [] w valid same = (refl, refl, refl)
  attempts-Delivers batch (a ∷ attempts) w valid (this, same) =
      let deduped = prepare at_most_zero batch.events in
      let (r, t) = persist_batch db a.faults deduped w.table in
      let w₁ : World db (TelemetryBatch F) = record w { table = t } in
      let (last, completed, counted) = attempts-Delivers batch attempts w₁ valid same in
      let (results, w₂) = run_attempts db validate at_most_zero settings attempts w₁ in
      let (any, sum) = result_counts a.number (length deduped) r results in
      subst
        (λ (x : JobResult × World db (TelemetryBatch F)).
          let later = run_attempts db validate at_most_zero settings attempts x.1 in
          Delivers (x.0 ∷ later.0, later.1)
            (deliver db (a.faults ∷ faults_of attempts) deduped w.table) w)
        (sym (
          process_valid db validate at_most_zero settings a.faults a.number a.payload batch.events w
            (ap validate this ∙ valid)))
        (last, any ∙ ap (λ b. returned db r || b) completed, omega (arith, sum, counted))

  -- A batch is posted through a well-formed load balancer to services that have no response for its
  -- key, and the worker makes any attempts at the jobs that this queues, in any order and with any
  -- faults. If the batch validates, at the service and at the worker: a client that gets a status
  -- below 300 has queued it, nothing is dead-lettered, and the deduplicated batch is stored once,
  -- however often it was queued and attempted, or no attempt completed and nothing is stored.
  pub batch_stored_once :
      {C Json E : Type 0} (parse : List ℕ → Option Json)
      (model_validate : Json → Result E (TelemetryBatch F))
      (key_of : Dict String String → Option String) (s : Setting C) (b : Balancer C) (json : Json)
      (batch : TelemetryBatch F) (jobs : List (Job F))
      (attempts : List (Attempt (TelemetryBatch F))) (w : World db (TelemetryBatch F))
      → WellFormed b
      → parse s.request.body ≡ some json
      → model_validate json ≡ ok batch
      → validate batch ≡ ok batch.events
      → Handled parse model_validate key_of (proxy s b).sent jobs
      → Scheduled jobs attempts
      → let (results, w') = run_attempts db validate at_most_zero settings attempts w in
        (IsSuccess (proxy s b).answer → 0 < length jobs)
        × Settled db validate at_most_zero settings (prepare at_most_zero batch.events) w results w'
  batch_stored_once parse model_validate key_of s b json batch jobs attempts w valid parses
        validates again handled scheduled =
      let deduped = prepare at_most_zero batch.events in
      let (all, few, queued) =
        IsSuccess-queued parse model_validate key_of s b json batch jobs valid parses validates
          handled in
      let (last, completed, counted) =
        attempts-Delivers batch attempts w again
          (Scheduled-Same batch jobs attempts all scheduled) in
      let (results, w') = run_attempts db validate at_most_zero settings attempts w in
      let (rs, t) = deliver db (faults_of attempts) deduped w.table in
      (
        queued,
        subst (λ x. Settled db validate at_most_zero settings deduped w results x) (sym last)
            (elim (deliver_once db deduped w.table (faults_of attempts)) [
              | inl (unchanged, none_returned, _) ↦
                  (refl, inl (unchanged, completed ∙ none_returned))
              | inr (stored, few_rows) ↦ (refl, inr (stored, omega arith))
            ]),
      )
