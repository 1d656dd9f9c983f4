-- ===== src/Collector/Normalizer/Batch.antt =====
-- The events of `normalize_batch` of collector/normalizer.py.
use mathlib.Core.Path.{subst}
use flight_pulse.Base.{
  ℕ, ◌+◌, String, ◌≡◌, refl, sym, ap, ◌∙◌, ◌⊎◌, inl, inr, not, none, some, List, [], ◌∷◌,
  Bool-cases, Option-cases, string_eq, nat_eq, option_eq, list_eq,
}
use flight_pulse.Base.{filter}
use flight_pulse.Base.Result.{Result, ok, err, result_cases}
use flight_pulse.Base.Format.{◌+++◌}
use flight_pulse.Collector.Normalizer.Fields.{value_at, field-value_at}
use flight_pulse.Collector.Normalizer.{
  Value, null, boolean, integer, real, text, sensors, StateVector, States, CollectedEvent,
  NormalizeError, attribute_error, Platform, field, value_text, clean_callsign,
  compute_ingestion_id, normalized, normalize_state_vector, is_skipped, normalize_from,
  normalize_batch,
}

-- `opensky_response.get("states") or []`
abbrev pub state_list : {F : Type 0} → States F → List (StateVector F)
state_list response = elim response.states [ none ↦ [] | some states ↦ states ]

module _ {F : Type 0} (platform : Platform F) where
  -- The event has the identity that the values of the observation decide.
  abbrev pub Identified : CollectedEvent F → Type 0
  Identified e =
      (e.last_contact ≡ null)
      ⊎ (e.ingestion_id
          ≡ platform.uuid5 (
              e.source
              +++ ":"
              +++ value_text platform e.icao24
              +++ ":"
              +++ value_text platform e.last_contact))

  computed :
      (random source : String) (icao24 last_contact : Value F)
      → (last_contact ≡ null)
        ⊎ (compute_ingestion_id platform random source icao24 last_contact
            ≡ platform.uuid5 (
                source
                +++ ":"
                +++ value_text platform icao24
                +++ ":"
                +++ value_text platform last_contact))
  unfolding compute_ingestion_id
  computed random source icao24 null = inl refl
  computed random source icao24 (boolean b) = inr refl
  computed random source icao24 (integer n) = inr refl
  computed random source icao24 (real x) = inr refl
  computed random source icao24 (text s) = inr refl
  computed random source icao24 (sensors ns) = inr refl

  -- The state vectors that have an icao24.
  abbrev pub kept : List (StateVector F) → List (StateVector F)
  kept = filter (λ state. not (is_skipped platform state))

  -- The event is that of a state vector, with the values at the positions that OpenSky gives them.
  abbrev pub Observes : String → CollectedEvent F → StateVector F → Type 0
  Observes collector_id e state =
      (e.source ≡ "opensky")
      × (e.collector_id ≡ collector_id)
      × (e.icao24 ≡ value_at state 0)
      × (clean_callsign platform (value_at state 1) ≡ ok e.callsign)
      × (e.origin_country ≡ value_at state 2)
      × (e.time_position ≡ value_at state 3)
      × (e.last_contact ≡ value_at state 4)
      × (e.longitude ≡ value_at state 5)
      × (e.latitude ≡ value_at state 6)
      × (e.baro_altitude_m ≡ value_at state 7)
      × (e.on_ground ≡ value_at state 8)
      × (e.velocity_mps ≡ value_at state 9)
      × (e.true_track_deg ≡ value_at state 10)
      × (e.vertical_rate_mps ≡ value_at state 11)
      × (e.geo_altitude_m ≡ value_at state 13)
      × Identified e

  -- One event for each, in their order.
  abbrev pub AllObserve : String → List (CollectedEvent F) → List (StateVector F) → Type 0
  AllObserve collector_id [] [] = Unit
  AllObserve collector_id (e ∷ es) (state ∷ states) =
      Observes collector_id e state × AllObserve collector_id es states
  AllObserve collector_id _ _ = ⊥

  -- A value of the callsign that `strip` is not a method of.
  abbrev pub BadCallsign : StateVector F → Type 0
  BadCallsign state = clean_callsign platform (value_at state 1) ≡ err attribute_error

  abbrev pub Some {ℓ} : {A : Type ℓ} → (A → Type 0) → List A → Type 0
  Some P [] = ⊥
  Some P (x ∷ xs) = P x ⊎ Some P xs

  abbrev pub Normalizes :
      String → List (StateVector F) → Result NormalizeError (List (CollectedEvent F)) → Type 0
  Normalizes collector_id states (ok events) = AllObserve collector_id events states
  Normalizes collector_id states (err attribute_error) = Some BadCallsign states

  normalize_state :
      (i : ℕ) (state : StateVector F) (collector_id : String)
      → ((e : CollectedEvent F) × (normalize_state_vector platform i state collector_id ≡ ok e)
          × Observes collector_id e state)
        ⊎ ((normalize_state_vector platform i state collector_id ≡ err attribute_error)
            × BadCallsign state)
  unfolding normalize_state_vector normalized
  normalize_state i state collector_id =
      let at = field-value_at state in
      let cleaned = ap (clean_callsign platform) (at 1 "callsign" refl) in
      elim (result_cases (clean_callsign platform (field state "callsign"))) [
        | inl (callsign, clean) ↦ inl (
          normalized platform i state collector_id callsign,
          rw clean refl,
          (
            refl,
            refl,
            at 0 "icao24" refl,
            sym cleaned ∙ clean,
            at 2 "origin_country" refl,
            at 3 "time_position" refl,
            at 4 "last_contact" refl,
            at 5 "longitude" refl,
            at 6 "latitude" refl,
            at 7 "baro_altitude" refl,
            at 8 "on_ground" refl,
            at 9 "velocity" refl,
            at 10 "true_track" refl,
            at 11 "vertical_rate" refl,
            at 13 "geo_altitude" refl,
            computed (platform.uuid4 i) "opensky" (field state "icao24")
                (field state "last_contact"),
          ),
        )
        | inr (attribute_error, bad) ↦ inr (rw bad refl, sym cleaned ∙ bad)
      ]

  normalize_states :
      (states : List (StateVector F)) (i : ℕ) (collector_id : String)
      → Normalizes collector_id (kept states) (normalize_from platform i states collector_id)
  unfolding normalize_from
  normalize_states [] i collector_id = tt
  normalize_states (state ∷ states) i collector_id =
      let later = normalize_states states (i + 1) collector_id in
      elim (Bool-cases (is_skipped platform state)) [
        | inl skipped ↦ rw (skipped, kept) later
        | inr has_id ↦ elim (normalize_state i state collector_id) [
          | inr (raises, bad) ↦ rw (has_id, raises) (inl bad)
          | inl (e, normal, observes) ↦
              elim (result_cases (normalize_from platform (i + 1) states collector_id)) [
                | inl (es, rest) ↦
                    let all = subst (Normalizes collector_id (kept states)) rest later in
                    rw (has_id, normal, rest) (observes, all)
                | inr (attribute_error, rest) ↦
                    let one = subst (Normalizes collector_id (kept states)) rest later in
                    rw (has_id, normal, rest) (inr one)
              ]
        ]
      ]

  -- A response with a list of states or none: `normalize_batch` returns one event for each state
  -- vector that has an icao24, in their order. Each has the source, the collector, and at each of
  -- the other fields but the times and ids that the collector makes the value that stands at the
  -- field's position in a state vector, null if the vector is shorter; the callsign is stripped.
  -- Its id is the uuid5 of source, icao24 and last contact if there is a last contact. Or the call
  -- raises AttributeError, and one of them has a callsign that is neither false nor text.
  pub normalize_batch-Normalizes :
      (response : States F) (collector_id : String)
      → Normalizes collector_id
          (kept (state_list response))
          (normalize_batch platform response collector_id)
  unfolding normalize_batch
  normalize_batch-Normalizes response collector_id = elim (Option-cases response.states) [
    | inl missing ↦ rw (missing, normalize_batch) tt
    | inr (states, there) ↦ rw (there, normalize_batch) (normalize_states states 0 collector_id)
  ]
