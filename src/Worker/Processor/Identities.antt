-- ===== src/Worker/Processor/Identities.antt =====
-- Which ingestion ids `process_telemetry_batch` of worker/processor.py hands to the database.
use flight_pulse.Base.{
  String, ◌≡◌, refl, sym, ap, ◌∙◌, inl, inr, Bool, true, List, [], ◌∷◌, map, arith, Bool-cases,
  Option-cases, All, ◌==◌, beq_refl, contains, string_eq, nat_eq, option_eq, list_eq,
}
use flight_pulse.Ingestion.Schemas.{TelemetryEvent}
use flight_pulse.Worker.Persistence.Insertion.{event_ids}
use flight_pulse.Worker.Processor.{
  EventKey, key_eq, key_beq_iff, event_key, normalize_event, dedupe_from, dedupe_events, prepare,
}
use flight_pulse.Worker.Processor.Dedupe.{keys, dedupe_events_first}

module _ (f : EventKey → String) where
  contains-map :
      (ks : List EventKey) (k : EventKey) → contains ks k ≡ true → contains (map f ks) (f k) ≡ true
  contains-map [] k h = absurd (cc)
  contains-map (j ∷ ks) k h = elim (Bool-cases (k == j)) [
    | inl same ↦
        let equal : k ≡ j = (key_beq_iff k j).0 same in
        ground (arith, string_eq.beq_iff (f k) (f j), ap f equal)
    | inr other ↦ ground (arith, contains-map ks k)
  ]

  contains-map_within :
      (ks ks' : List EventKey) (i : String)
      → ((k : EventKey) → contains ks k ≡ true → contains ks' k ≡ true)
      → contains (map f ks) i ≡ true
      → contains (map f ks') i ≡ true
  contains-map_within [] ks' i within h = absurd (cc)
  contains-map_within (k ∷ ks) ks' i within h = elim (Bool-cases (i == f k)) [
    | inl same ↦
        let is : i ≡ f k = (string_eq.beq_iff i (f k)).0 same in
        rw is (contains-map ks' k (within k (ground (arith, beq_refl k))))
    | inr other ↦
        contains-map_within ks ks' i (λ j is_in. within j (ground (arith, is_in))) (ground arith)
  ]

  contains-map_same :
      (ks ks' : List EventKey) (i : String)
      → ((k : EventKey) → contains ks k ≡ contains ks' k)
      → contains (map f ks) i ≡ contains (map f ks') i
  contains-map_same ks ks' i same =
      let there = contains-map_within ks ks' i (λ k is_in. sym (same k) ∙ is_in) in
      let back = contains-map_within ks' ks i (λ k is_in. same k ∙ is_in) in
      ground (arith, there, back)

  module _ {F : Type 0} where
    -- The id of an event is decided by its key.
    abbrev pub IdByKey : TelemetryEvent F → Type 0
    IdByKey e = e.ingestion_id ≡ f (event_key e)

    event_ids-keys :
        (events : List (TelemetryEvent F))
        → All IdByKey events
        → event_ids events ≡ map f (keys events)
    event_ids-keys [] all = refl
    event_ids-keys (e ∷ events) (id, all) =
        ap (λ i. i ∷ event_ids events) id ∙ ap (◌∷◌ (f (event_key e))) (event_ids-keys events all)

    dedupe_ids :
        (events : List (TelemetryEvent F)) (seen : List EventKey)
        → All IdByKey events
        → All IdByKey (dedupe_from seen events)
    unfolding dedupe_from
    dedupe_ids [] seen all = tt
    dedupe_ids (e ∷ events) seen (id, all) = elim (Bool-cases (contains seen (event_key e))) [
      | inl old ↦ rw old (dedupe_ids events seen all)
      | inr new ↦ rw new (id, dedupe_ids events (event_key e ∷ seen) all)
    ]

    module _ (at_most_zero : F → Bool) where
      -- Normalization leaves what identifies an event.
      same_identity :
          (e : TelemetryEvent F)
          → (event_key (normalize_event at_most_zero e) ≡ event_key e)
            × ((normalize_event at_most_zero e).ingestion_id ≡ e.ingestion_id)
      unfolding normalize_event
      same_identity e = elim (Option-cases e.on_ground) [
        | inr (b, told) ↦ rw (told, normalize_event) (refl, refl)
        | inl untold ↦ elim (Option-cases e.baro_altitude_m) [
          | inl none_known ↦ rw (untold, none_known, normalize_event) (refl, refl)
          | inr (metres, known) ↦ rw (untold, known, normalize_event) (refl, refl)
        ]
      ]

      normalized_ids :
          (events : List (TelemetryEvent F))
          → All IdByKey events
          → All IdByKey (map (normalize_event at_most_zero) events)
            × (event_ids (map (normalize_event at_most_zero) events) ≡ event_ids events)
      normalized_ids [] all = (tt, refl)
      normalized_ids (e ∷ events) (id, all) =
          let (same_key, same_id) = same_identity e in
          let (later, same) = normalized_ids events all in
          (
            (same_id ∙ id ∙ sym (ap f same_key), later),
            ap (λ i. i ∷ event_ids (map (normalize_event at_most_zero) events)) same_id
                ∙ ap (◌∷◌ e.ingestion_id) same,
          )

      -- A batch in which the key of an event, its icao24, last contact and source, decides its
      -- ingestion id: the events that are handed to the database have the same ids as the batch, so
      -- that normalization and deduplication lose none.
      pub event_ids-prepare :
          (events : List (TelemetryEvent F)) (i : String)
          → All IdByKey events
          → contains (event_ids (prepare at_most_zero events)) i ≡ contains (event_ids events) i
      unfolding prepare dedupe_events
      event_ids-prepare events i all =
          let normalized = map (normalize_event at_most_zero) events in
          let (ids, same) = normalized_ids events all in
          let (_, _, same_keys) = dedupe_events_first normalized in
          ap (λ l. contains l i)
            (event_ids-keys (dedupe_events normalized) (dedupe_ids normalized [] ids))
          ∙ contains-map_same (keys (dedupe_events normalized)) (keys normalized) i same_keys
          ∙ ap (λ l. contains l i) (sym (event_ids-keys normalized ids) ∙ same)
