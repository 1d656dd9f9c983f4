-- ===== src/Worker/Processor/Dedupe.antt =====
-- `_dedupe_events` of worker/processor.py keeps exactly the first event of each key.
use flight_pulse.Base.{
  ◌≡◌, refl, sym, ap, ◌∙◌, inl, inr, Bool, true, false, ◌||◌, List, [], ◌∷◌, ◌++◌, arith,
  if◌then◌else◌, Bool-cases, ◌==◌, beq_refl, contains, string_eq, nat_eq, option_eq, list_eq,
}
use flight_pulse.Base.Int.{int_eq}
use flight_pulse.Ingestion.Schemas.{TelemetryEvent}
use flight_pulse.Worker.Processor.{
  EventKey, key_eq, key_beq_iff, event_key, dedupe_from, dedupe_events,
}

-- No key stands twice.
abbrev pub DistinctKeys : List EventKey → Type 0
DistinctKeys [] = Unit
DistinctKeys (k ∷ ks) = (contains ks k ≡ false) × DistinctKeys ks

contains-snoc :
    (ks : List EventKey) (k j : EventKey) → contains (ks ++ k ∷ []) j ≡ (j == k || contains ks j)
contains-snoc [] k j = refl
contains-snoc (x ∷ ks) k j = ground (arith, contains-snoc ks k j)

or_swap : (a b x y : Bool) → ((a || b) || x) ≡ ((a || b) || y) → (b || (a || x)) ≡ (b || (a || y))
or_swap a b x y h = ground arith

or_true_left : (a b : Bool) → a ≡ true → (a || b) ≡ true
or_true_left a b h = ground arith

or_true_right : (a b : Bool) → b ≡ true → (a || b) ≡ true
or_true_right a b h = ground arith

or_false : (a b : Bool) → a ≡ false → b ≡ false → (a || b) ≡ false
or_false a b h k = ground arith

contains_same :
    (ks : List EventKey) (j k : EventKey) → (j == k) ≡ true → contains ks j ≡ contains ks k
contains_same ks j k e = ap (contains ks) ((key_beq_iff j k).0 e)

-- A key that is there already may be added.
contains_added :
    (seen earlier : List EventKey) (k j : EventKey)
    → contains seen k ≡ true
    → contains seen j ≡ contains earlier j
    → contains seen j ≡ contains (earlier ++ k ∷ []) j
contains_added seen earlier k j old same = elim (Bool-cases (j == k)) [
  | inl is_k ↦ contains_same seen j k is_k ∙ old ∙ sym (contains-snoc earlier k j ∙ rw is_k refl)
  | inr other ↦ same ∙ sym (contains-snoc earlier k j ∙ rw other refl)
]

module _ {F : Type 0} where
  abbrev pub keys : List (TelemetryEvent F) → List EventKey
  keys [] = []
  keys (e ∷ events) = event_key e ∷ keys events

  -- The events whose key no earlier event has; `earlier` are the keys of all that came before,
  -- kept or not.
  abbrev pub first_events : List EventKey → List (TelemetryEvent F) → List (TelemetryEvent F)
  first_events earlier [] = []
  first_events earlier (e ∷ events) =
      if contains earlier (event_key e)
      then first_events (earlier ++ event_key e ∷ []) events
      else e ∷ first_events (earlier ++ event_key e ∷ []) events

  dedupe_first :
      (events : List (TelemetryEvent F)) (seen earlier : List EventKey)
      → ((k : EventKey) → contains seen k ≡ contains earlier k)
      → dedupe_from seen events ≡ first_events earlier events
  unfolding dedupe_from
  dedupe_first [] seen earlier same = refl
  dedupe_first (e ∷ events) seen earlier same =
      let k = event_key e in
      elim (Bool-cases (contains seen k)) [
        | inl old ↦
            rw (old, sym (same k) ∙ old)
              (dedupe_first events seen (earlier ++ k ∷ [])
                (λ j. contains_added seen earlier k j old (same j)))
        | inr new ↦
            rw (new, sym (same k) ∙ new)
              (ap (◌∷◌ e) (
                dedupe_first events (k ∷ seen) (earlier ++ k ∷ [])
                  (λ j. ap (λ b. j == k || b) (same j) ∙ sym (contains-snoc earlier k j))))
      ]

  -- The keys of the kept events, over the keys already seen.
  contains-dedupe :
      (events : List (TelemetryEvent F)) (seen : List EventKey) (k : EventKey)
      → (contains seen k || contains (keys (dedupe_from seen events)) k)
        ≡ (contains seen k || contains (keys events) k)
  unfolding dedupe_from
  contains-dedupe [] seen k = refl
  contains-dedupe (e ∷ events) seen k =
      let j = event_key e in
      elim (Bool-cases (contains seen j)) [
        | inl old ↦ rw old (
            contains-dedupe events seen k ∙ elim (Bool-cases (k == j)) [
              | inl is_j ↦
                  let there : contains seen k ≡ true = contains_same seen k j is_j ∙ old in
                  rw there refl
              | inr other ↦ rw other refl
            ])
        | inr new ↦ rw new (
            or_swap (k == j) (contains seen k) (contains (keys (dedupe_from (j ∷ seen) events)) k)
              (contains (keys events) k) (contains-dedupe events (j ∷ seen) k))
      ]

  dedupe_distinct :
      (events : List (TelemetryEvent F)) (seen : List EventKey)
      → DistinctKeys (keys (dedupe_from seen events))
        × ((k : EventKey)
            → contains seen k ≡ true
            → contains (keys (dedupe_from seen events)) k ≡ false)
  unfolding dedupe_from
  dedupe_distinct [] seen = (tt, λ k is_in. refl)
  dedupe_distinct (e ∷ events) seen =
      let j = event_key e in
      elim (Bool-cases (contains seen j)) [
        | inl old ↦ rw old (dedupe_distinct events seen)
        | inr new ↦
            let (distinct, apart) = dedupe_distinct events (j ∷ seen) in
            rw new (
              (apart j (or_true_left (j == j) (contains seen j) (beq_refl j)), distinct),
              λ k is_in.
                  or_false (k == j) (contains (keys (dedupe_from (j ∷ seen) events)) k)
                    (elim (Bool-cases (k == j)) [
                      | inl is_j ↦ absurd (ground (arith, is_in, new, contains_same seen k j is_j))
                      | inr other ↦ other
                    ])
                    (apart k (or_true_right (k == j) (contains seen k) is_in)),
            )
      ]

  -- Of a batch exactly the events are kept, in their order, whose key no earlier event of the
  -- batch has; the kept keys are all keys of the batch, each once.
  pub dedupe_events_first :
      (events : List (TelemetryEvent F))
      → (dedupe_events events ≡ first_events [] events)
        × DistinctKeys (keys (dedupe_events events))
        × ((k : EventKey) → contains (keys (dedupe_events events)) k ≡ contains (keys events) k)
  unfolding dedupe_events
  dedupe_events_first events = (
    dedupe_first events [] [] (λ k. refl),
    (dedupe_distinct events []).0,
    contains-dedupe events [],
  )
