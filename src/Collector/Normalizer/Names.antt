-- ===== src/Collector/Normalizer/Names.antt =====
-- The text that `_compute_ingestion_id` of collector/normalizer.py hashes tells observations apart.
use flight_pulse.Base.{ℕ, String, ◌≡◌, ap, ◌∙◌, ◌↔◌, true, string_eq, nat_eq, option_eq, list_eq}
use flight_pulse.Base.Int.{pos}
use flight_pulse.Base.Format.{decimal, int_text, ◌+++◌}
use flight_pulse.Base.Decimal.{decimal_injective}
use flight_pulse.Base.Separated.{no_colon, split_colon, cancel_left}
use flight_pulse.Collector.Normalizer.{text, integer, Platform, value_text, compute_ingestion_id}

module _ {F : Type 0} (platform : Platform F) where
  -- uuid5 is the SHA-1 hash of a name: these two names have different ids if they differ.
  abbrev pub NoCollision : String → String → Type 0
  NoCollision s t = platform.uuid5 s ≡ platform.uuid5 t → s ≡ t

  -- The name of an observation.
  abbrev pub name_of : String → String → ℕ → String
  name_of source icao24 last_contact = source +++ ":" +++ icao24 +++ ":" +++ decimal last_contact

  abbrev id_of : String → String → String → ℕ → String
  id_of random source icao24 last_contact =
      compute_ingestion_id platform random source (text icao24) (integer (pos last_contact))

  -- Two observations of one source at Unix times, whose icao24s are texts without a colon: if uuid5
  -- does not give their two names one id by a collision, they have one ingestion id if and only if
  -- they agree in icao24 and last contact, whatever random ids were drawn.
  pub compute_ingestion_id_iff :
      (random random' source icao24 icao24' : String) (m n : ℕ)
      → NoCollision (name_of source icao24 m) (name_of source icao24' n)
      → no_colon icao24 ≡ true
      → no_colon icao24' ≡ true
      → (compute_ingestion_id platform random source (text icao24) (integer (pos m))
          ≡ compute_ingestion_id platform random' source (text icao24') (integer (pos n)))
        ↔ ((icao24 ≡ icao24') × (m ≡ n))
  unfolding compute_ingestion_id value_text int_text
  compute_ingestion_id_iff random random' source icao24 icao24' m n distinct p q = (
    λ same_id.
        let same =
          cancel_left source (":" +++ icao24 +++ ":" +++ decimal m)
            (":" +++ icao24' +++ ":" +++ decimal n) (distinct same_id) in
        let tail =
          cancel_left ":" (icao24 +++ ":" +++ decimal m) (icao24' +++ ":" +++ decimal n) same in
        let (same_icao24, same_text) =
          split_colon icao24 icao24' (decimal m) (decimal n) p q tail in
        (same_icao24, decimal_injective m n same_text),
    λ (same_icao24, same_time).
        ap (λ i. id_of random source i m) same_icao24 ∙ ap (id_of random source icao24') same_time,
  )
