-- ===== src/Collector/Normalizer/Identity.antt =====
-- The identity of an observation across the cycles of collector/normalizer.py.
use mathlib.Core.Path.{subst}
use flight_pulse.Base.{
  String, ◌≡◌, refl, sym, ap, ◌∙◌, ◌≢◌, inl, inr, true, false, List, [], ◌∷◌, All, string_eq,
  nat_eq, option_eq, list_eq,
}
use flight_pulse.Base.Result.{ok}
use flight_pulse.Base.Format.{◌+++◌}
use flight_pulse.Collector.Normalizer.{
  Value, null, boolean, integer, real, text, sensors, StateVector, States, CollectedEvent, Platform,
  value_text, normalize_batch,
}
use flight_pulse.Collector.Normalizer.Batch.{
  Identified, kept, AllObserve, Normalizes, state_list, normalize_batch-Normalizes,
}

module _ {F : Type 0} (platform : Platform F) where
  AllObserve-Identified :
      (collector_id : String) (es : List (CollectedEvent F)) (states : List (StateVector F))
      → AllObserve platform collector_id es states
      → All (λ e. (e.source ≡ "opensky") × Identified platform e) es
  AllObserve-Identified collector_id [] states all = tt
  AllObserve-Identified collector_id (e ∷ es) [] all = absurd all
  AllObserve-Identified collector_id (e ∷ es) (state ∷ states) (o, all) =
      ((o.0, o.15), AllObserve-Identified collector_id es states all)

  pub batch-Identified :
      (response : States F) (collector_id : String) (es : List (CollectedEvent F))
      → normalize_batch platform response collector_id ≡ ok es
      → All (λ e. (e.source ≡ "opensky") × Identified platform e) es
  batch-Identified response collector_id es normal =
      AllObserve-Identified collector_id es (kept platform (state_list response)) (
        subst (Normalizes platform collector_id (kept platform (state_list response))) normal
          (normalize_batch-Normalizes platform response collector_id))

-- Two events are of one observation.
abbrev pub SameObservation : {F : Type 0} → CollectedEvent F → CollectedEvent F → Type 0
SameObservation a b =
    (a.icao24 ≡ b.icao24) × (a.last_contact ≡ b.last_contact) × (a.last_contact ≢ null)

module _ {F : Type 0} (p q : Platform F) where
  -- Two cycles share the functions, not the clock and the random ids.
  abbrev pub SameFunctions : Type 0
  SameFunctions = (p.uuid5 ≡ q.uuid5) × (p.float_text ≡ q.float_text)

  same_text : p.float_text ≡ q.float_text → (v : Value F) → value_text p v ≡ value_text q v
  unfolding value_text
  same_text h null = refl
  same_text h (boolean true) = refl
  same_text h (boolean false) = refl
  same_text h (integer n) = refl
  same_text h (real x) = ap (λ (f : F → String). f x) h
  same_text h (text s) = refl
  same_text h (sensors []) = refl
  same_text h (sensors (n ∷ ns)) = refl

  same_id :
      (a b : CollectedEvent F)
      → SameFunctions
      → (a.source ≡ "opensky") × Identified p a
      → (b.source ≡ "opensky") × Identified q b
      → SameObservation a b
      → a.ingestion_id ≡ b.ingestion_id
  same_id a b (uuid, float) (_, inl missing) _ (_, _, there) = absurd (there missing)
  same_id a b (uuid, float) (_, inr _) (_, inl missing) (_, same, there) =
      absurd (there (same ∙ missing))
  same_id a b (uuid, float) (from_a, inr id_a) (from_b, inr id_b) (icao24, contact, _) =
      let icao24_text = ap (value_text p) icao24 ∙ same_text float b.icao24 in
      let contact_text = ap (value_text p) contact ∙ same_text float b.last_contact in
      let name : String → String → String → String = λ s t u. s +++ ":" +++ t +++ ":" +++ u in
      let same_name : name a.source (value_text p a.icao24) (value_text p a.last_contact)
          ≡ name b.source (value_text q b.icao24) (value_text q b.last_contact) =
        ap (λ s. name s (value_text p a.icao24) (value_text p a.last_contact)) (from_a ∙ sym from_b)
        ∙ ap (λ s. name b.source s (value_text p a.last_contact)) icao24_text
        ∙ ap (name b.source (value_text q b.icao24)) contact_text in
      id_a
      ∙ ap p.uuid5 same_name
      ∙ ap
          (λ (f : String → String).
            f (name b.source (value_text q b.icao24) (value_text q b.last_contact)))
          uuid
      ∙ sym id_b

  same_ids :
      (as' bs : List (CollectedEvent F))
      → SameFunctions
      → All (λ a. (a.source ≡ "opensky") × Identified p a) as'
      → All (λ b. (b.source ≡ "opensky") × Identified q b) bs
      → All (λ a. All (λ b. SameObservation a b → a.ingestion_id ≡ b.ingestion_id) bs) as'
  same_ids [] bs same all_a all_b = tt
  same_ids (a ∷ as') bs same (id_a, all_a) all_b = (one bs all_b, same_ids as' bs same all_a all_b)
    where
      one :
          (bs : List (CollectedEvent F))
          → All (λ b. (b.source ≡ "opensky") × Identified q b) bs
          → All (λ b. SameObservation a b → a.ingestion_id ≡ b.ingestion_id) bs
      one [] all = tt
      one (b ∷ bs) (id_b, all) = (same_id a b same id_a id_b, one bs all)

  -- Two cycles at different times and with different random ids, whose responses normalize to `as'`
  -- and `bs`: any event of the one and any event of the other with the same icao24 and the same
  -- last contact have the same ingestion id, if there is a last contact.
  pub SameObservation-same_id :
      (first second : States F) (first_collector second_collector : String)
      (as' bs : List (CollectedEvent F))
      → SameFunctions
      → normalize_batch p first first_collector ≡ ok as'
      → normalize_batch q second second_collector ≡ ok bs
      → All (λ a. All (λ b. SameObservation a b → a.ingestion_id ≡ b.ingestion_id) bs) as'
  SameObservation-same_id first second first_collector second_collector as' bs same e f =
      same_ids as' bs same (batch-Identified p first first_collector as' e)
        (batch-Identified q second second_collector bs f)
