-- ===== src/Collector/Normalizer.antt =====
-- collector/normalizer.py. `F` is the type of the floats of a state vector; their text and their
-- test for zero are parameters, and so are `uuid.uuid5` in the module's namespace, and the values
-- of `uuid.uuid4` and of the clock, by the position of the state vector.
pub mod Batch
pub mod Fields
pub mod Identity
pub mod Names
use mathlib.Core.Option
use flight_pulse.Base.{
  ℕ, ◌+◌, String, Bool, true, false, not, Option, none, some, List, [], ◌∷◌, ◌++◌, if◌then◌else◌,
  ◌==◌, string_eq, nat_eq, option_eq, list_eq,
}
use flight_pulse.Base.Dict.{Dict, lookup}
use flight_pulse.Base.Int.{ℤ, pos, int_eq}
use flight_pulse.Base.Result.{Result, ok, err, ◌>>=◌}
use flight_pulse.Base.Format.{strip, int_text, ◌+++◌}

-- An element of a state vector; `sensors` is an array.
pub data Value (F : Type 0) : Type 0 where
  null : Value F
  boolean : Bool → Value F
  integer : ℤ → Value F
  real : F → Value F
  text : String → Value F
  sensors : List ℤ → Value F

abbrev pub StateVector : Type 0 → Type 0
StateVector F = List (Value F)

-- A response of /states/all.
pub record States (F : Type 0) : Type 0 where
  pub time : Value F
  pub states : Option (List (StateVector F))

-- The dict that `normalize_state_vector` returns.
pub record CollectedEvent (F : Type 0) : Type 0 where
  pub source : String
  pub icao24 : Value F
  pub callsign : Option String
  pub origin_country : Value F
  pub time_position : Value F
  pub last_contact : Value F
  pub longitude : Value F
  pub latitude : Value F
  pub baro_altitude_m : Value F
  pub geo_altitude_m : Value F
  pub velocity_mps : Value F
  pub true_track_deg : Value F
  pub vertical_rate_mps : Value F
  pub on_ground : Value F
  pub ingested_at : String
  pub ingestion_id : String
  pub collector_id : String

-- `raw.strip()` on a value that is no string
pub data NormalizeError : Type 0 where
  attribute_error : NormalizeError

pub record Platform (F : Type 0) : Type 0 where
  pub is_zero : F → Bool
  pub float_text : F → String
  pub uuid5 : String → String
  pub uuid4 : ℕ → String
  pub now : ℕ → String

abbrev pub state_vector_fields : List String
state_vector_fields =
    "icao24" ∷ "callsign" ∷ "origin_country" ∷ "time_position" ∷ "last_contact" ∷ "longitude"
    ∷ "latitude" ∷ "baro_altitude" ∷ "on_ground" ∷ "velocity" ∷ "true_track" ∷ "vertical_rate"
    ∷ "sensors" ∷ "geo_altitude" ∷ "squawk" ∷ "spi" ∷ "position_source" ∷ []

abbrev pub zip {ℓ κ} : {A : Type ℓ} {B : Type κ} → List A → List B → List (A × B)
zip [] ys = []
zip (x ∷ xs) [] = []
zip (x ∷ xs) (y ∷ ys) = (x, y) ∷ zip xs ys

-- `fields.get(name)`
unfoldable pub field : {F : Type 0} → StateVector F → String → Value F
field state name = elim (lookup name (zip state_vector_fields state)) [ none ↦ null | some v ↦ v ]

module _ {F : Type 0} (platform : Platform F) where
  -- `if value`
  unfoldable pub is_truthy : Value F → Bool
  is_truthy null = false
  is_truthy (boolean b) = b
  is_truthy (integer n) = not (n == pos 0)
  is_truthy (real x) = not (platform.is_zero x)
  is_truthy (text s) = not (s == "")
  is_truthy (sensors []) = false
  is_truthy (sensors (_ ∷ _)) = true

  unfoldable sensors_text : ℤ → List ℤ → String
  sensors_text n [] = int_text n
  sensors_text n (m ∷ more) = int_text n +++ ", " +++ sensors_text m more

  -- A value in an f-string.
  unfoldable pub value_text : Value F → String
  unfolding sensors_text
  value_text null = "None"
  value_text (boolean true) = "True"
  value_text (boolean false) = "False"
  value_text (integer n) = int_text n
  value_text (real x) = platform.float_text x
  value_text (text s) = s
  value_text (sensors []) = "[]"
  value_text (sensors (n ∷ more)) = "[" +++ sensors_text n more +++ "]"

  unfoldable pub clean_callsign : Value F → Result NormalizeError (Option String)
  unfolding is_truthy
  clean_callsign (text s) = ok (if s == "" then none else some (strip s))
  clean_callsign other = if is_truthy other then err attribute_error else ok none

  -- `random` is what `uuid.uuid4` returns.
  unfoldable pub compute_ingestion_id : String → String → Value F → Value F → String
  unfolding value_text
  compute_ingestion_id random source icao24 null = random
  compute_ingestion_id random source icao24 last_contact =
      platform.uuid5 (source +++ ":" +++ value_text icao24 +++ ":" +++ value_text last_contact)

  unfoldable pub normalized : ℕ → StateVector F → String → Option String → CollectedEvent F
  unfolding field compute_ingestion_id
  normalized i state collector_id callsign = record {
    source = "opensky";
    icao24 = field state "icao24";
    callsign = callsign;
    origin_country = field state "origin_country";
    time_position = field state "time_position";
    last_contact = field state "last_contact";
    longitude = field state "longitude";
    latitude = field state "latitude";
    baro_altitude_m = field state "baro_altitude";
    geo_altitude_m = field state "geo_altitude";
    velocity_mps = field state "velocity";
    true_track_deg = field state "true_track";
    vertical_rate_mps = field state "vertical_rate";
    on_ground = field state "on_ground";
    ingested_at = platform.now i;
    ingestion_id =
        compute_ingestion_id (platform.uuid4 i) "opensky" (field state "icao24")
          (field state "last_contact");
    collector_id = collector_id;
  }

  unfoldable pub normalize_state_vector :
      ℕ → StateVector F → String → Result NormalizeError (CollectedEvent F)
  unfolding field clean_callsign normalized
  normalize_state_vector i state collector_id = do
    callsign ← clean_callsign (field state "callsign")
    ok (normalized i state collector_id callsign)

  -- `not state or not state[0]`; a null entry is taken for an empty one.
  unfoldable pub is_skipped : StateVector F → Bool
  unfolding is_truthy
  is_skipped [] = true
  is_skipped (icao24 ∷ _) = not (is_truthy icao24)

  -- The loop of `normalize_batch`, from position `i` on.
  unfoldable pub normalize_from :
      ℕ → List (StateVector F) → String → Result NormalizeError (List (CollectedEvent F))
  unfolding is_skipped normalize_state_vector
  normalize_from i [] collector_id = ok []
  normalize_from i (state ∷ states) collector_id =
      let rest = normalize_from (i + 1) states collector_id in
      let kept = do
        event ← normalize_state_vector i state collector_id
        events ← rest
        ok (event ∷ events)
      in if is_skipped state then rest else kept

  unfoldable pub normalize_batch :
      States F → String → Result NormalizeError (List (CollectedEvent F))
  unfolding normalize_from
  normalize_batch response collector_id = elim response.states [
    | none ↦ ok []
    | some states ↦ normalize_from 0 states collector_id
  ]
