-- ===== src/Collector/Producer/Reports.antt =====
-- What a cycle of collector/producer.py reports, against what it sends.
use flight_pulse.Base.{
  ℕ, String, ◌≡◌, refl, sym, ◌↔◌, inl, inr, Bool, true, false, ◌&&◌, ◌||◌, Option, none, some, List,
  [], ◌∷◌, if◌then◌else◌, Bool-cases, length, string_eq, nat_eq, option_eq, list_eq,
}
use flight_pulse.Base.Result.{Result, ok, err, result_cases}
use flight_pulse.Collector.Normalizer.{
  States, CollectedEvent, NormalizeError, Platform, normalize_batch,
}
use flight_pulse.Collector.Producer.{
  PostReply, succeeds, TelemetryPost, send_batch, LogEntry, Settings, Stamps, Cycle, log_entry,
  failed_extraction, send_events, run_once,
}

module _ {F : Type 0} (settings : Settings) (stamps : Stamps) (platform : Platform F) where
  -- The events of a fetched response, and nothing if the fetch failed.
  abbrev pub collected :
      Result String (Option (States F)) → Result NormalizeError (List (CollectedEvent F))
  collected (ok (some raw)) = normalize_batch platform raw settings.collector_id
  collected _ = ok []

  abbrev posted_events : Option (TelemetryPost (CollectedEvent F)) → List (CollectedEvent F)
  posted_events none = []
  posted_events (some post) = post.events

  abbrev pub is_fetched : Result String (Option (States F)) → Bool
  is_fetched (ok (some _)) = true
  is_fetched _ = false

  abbrev pub is_empty : List (CollectedEvent F) → Bool
  is_empty [] = true
  is_empty _ = false

  -- The log entry of a cycle that collected `events` and counts `sent` of them.
  abbrev Reports : Bool → List (CollectedEvent F) → ℕ → Option (LogEntry F) → Type 0
  Reports well events sent none = ⊥
  Reports well events sent (some entry) =
      (entry.request_id ≡ stamps.request_id)
      × (entry.record_count ≡ length events)
      × (entry.success ≡ well)
      × ((entry.success ≡ true) ↔ (entry.error_message ≡ none))
      × (sent ≡ (if entry.success then entry.record_count else 0))

  abbrev pub Honest :
      PostReply → Result String (Option (States F)) → Result NormalizeError ℕ × Cycle F → Type 0
  Honest reply fetched (err e, cycle) =
      (collected fetched ≡ err e) × (cycle.telemetry ≡ none) × (cycle.extraction_log ≡ none)
  Honest reply fetched (ok sent, cycle) =
      (events : List (CollectedEvent F)) × (collected fetched ≡ ok events)
      × (posted_events cycle.telemetry ≡ events)
      × Reports (is_fetched fetched && (is_empty events || succeeds reply)) events sent
          cycle.extraction_log

  failed_honest :
      (reply : PostReply) (message : String) (well : Bool)
      → well ≡ false
      → Reports well [] 0 (failed_extraction {F = F} settings stamps message).extraction_log
  unfolding failed_extraction log_entry
  failed_honest reply message well h =
      (refl, refl, sym h, (λ e. absurd (cc), λ e. absurd (cc)), refl)

  events-Honest :
      (reply : PostReply) (raw : States F) (events : List (CollectedEvent F))
      → normalize_batch platform raw settings.collector_id ≡ ok events
      → let (sent, cycle) = send_events settings stamps reply events raw.time in
        Honest reply (ok (some raw)) (ok sent, cycle)
  unfolding send_events send_batch log_entry
  events-Honest reply raw [] e = ([], e, refl, (refl, refl, refl, (λ h. refl, λ h. refl), refl))
  events-Honest reply raw (x ∷ xs) e = elim (Bool-cases (succeeds reply)) [
    | inl sent ↦ (x ∷ xs, e, refl, rw sent (refl, refl, refl, (λ h. refl, λ h. refl), refl))
    | inr lost ↦
        (x ∷ xs, e, refl, rw lost (refl, refl, refl, (λ h. absurd (cc), λ h. absurd (cc)), refl))
  ]

  -- A cycle, whatever the client returns and whatever the POST of the batch comes to: if
  -- `normalize_batch` raises, the cycle raises and sends neither telemetry nor a log entry.
  -- Otherwise it posts all collected events, in one request or none if there are none, and one log
  -- entry, with the cycle's request id and their number. The entry is a success if and only if a
  -- response was fetched and there was nothing to post or the POST succeeded, and has no error
  -- message if and only if it is a success. The result is the number of events of a success,
  -- otherwise 0.
  pub run_once-Honest :
      (reply : PostReply) (fetched : Result String (Option (States F)))
      → Honest reply fetched (run_once settings stamps platform reply fetched)
  unfolding run_once failed_extraction
  run_once-Honest reply (err message) = ([], refl, refl, failed_honest reply message false refl)
  run_once-Honest reply (ok none) = (
    [],
    refl,
    refl,
    failed_honest reply "No data returned from OpenSky (see client logs)" false refl,
  )
  run_once-Honest reply (ok (some raw)) =
      elim (result_cases (normalize_batch platform raw settings.collector_id)) [
        | inr (e, raised) ↦ rw (raised, run_once) (raised, refl, refl)
        | inl (events, normal) ↦ rw (normal, run_once) (events-Honest reply raw events normal)
      ]
