-- ===== src/Collector/Producer/Environment.antt =====
-- What collector/producer.py makes of its environment variables. `float` of a text is a parameter,
-- nothing if it raises, and so is the text of a bounding box.
use mathlib.Core.Option
use flight_pulse.Base.{
  String, ◌≡◌, refl, ap, ◌∙◌, ◌&&◌, Option, none, some, if◌then◌else◌, ◌==◌, string_eq, nat_eq,
  option_eq, list_eq,
}
use flight_pulse.Base.Optional.{◌>>=◌}
use text.Mathlib.TextLemmas.{cons-append, nil-append}
use flight_pulse.Base.Format.{◌+++◌}
use flight_pulse.Base.Search.{starts_with}
use flight_pulse.Collector.OpenSky.{Box, is_set}
use flight_pulse.Collector.Producer.{Settings}

-- `s.rsplit(t, 1)[0]` if `t` is in `s`, with `t` first
unfoldable pub before_last : String → String → Option String
unfolding starts_with
before_last t String.[] = if t == "" then some "" else none
before_last t (String.◌∷◌ c s) = elim (before_last t s) [
  | some before ↦ some (String.◌∷◌ c before)
  | none ↦ if starts_with t (String.◌∷◌ c s) then some "" else none
]

-- EXTRACTION_LOG_URL: the variable, or the URL beside that of the telemetry.
unfoldable pub extraction_log_url : Option String → String → String
unfolding before_last
extraction_log_url (some url) telemetry_target_url = url
extraction_log_url none telemetry_target_url =
    elim (before_last "/telemetry" telemetry_target_url) [
      | some s ↦ s
      | none ↦ telemetry_target_url
    ]
    +++ "/extraction-log"

before_last-append : (s : String) → before_last "/telemetry" (s +++ "/telemetry") ≡ some s
unfolding before_last starts_with
before_last-append String.[] = ap (before_last "/telemetry") (nil-append "/telemetry") ∙ refl
before_last-append (String.◌∷◌ c s) =
    ap (before_last "/telemetry") (cons-append c s "/telemetry")
    ∙ rw (before_last, before_last-append s) refl

-- Beside a telemetry endpoint, the endpoint of the extraction log.
extraction_log_url-telemetry :
    (base : String) → extraction_log_url none (base +++ "/telemetry") ≡ base +++ "/extraction-log"
unfolding extraction_log_url
extraction_log_url-telemetry base = rw (before_last-append base) refl

module _ {F : Type 0} (float : String → Option F) where
  abbrev text_of : Option String → String
  text_of none = ""
  text_of (some s) = s

  -- The four variables as floats, nothing if one of them is no float.
  unfoldable pub floats :
      Option String → Option String → Option String → Option String → Option (Box F)
  floats lamin lomin lamax lomax = do
    a ← float (text_of lamin)
    b ← float (text_of lomin)
    c ← float (text_of lamax)
    d ← float (text_of lomax)
    some (a, b, c, d)

  -- BBOX, nothing if `float` raises
  unfoldable pub bbox_of :
      Option String → Option String → Option String → Option String → Option (Option (Box F))
  unfolding is_set floats
  bbox_of lamin lomin lamax lomax =
      if is_set lamin && is_set lomin && is_set lamax && is_set lomax
      then Option.map some (floats lamin lomin lamax lomax)
      else some none

  -- REQUEST_SCOPE
  unfoldable pub request_scope : (Box F → String) → Option (Box F) → String
  request_scope box_text none = "global"
  request_scope box_text (some box) = "bbox=" +++ box_text box

  -- COLLECTOR_ID with its default, COLLECTOR_VERSION and REQUEST_SCOPE
  unfoldable pub settings_of : (Box F → String) → Option String → Option (Box F) → Settings
  unfolding request_scope
  settings_of box_text collector_id bbox = record {
    collector_id = elim collector_id [ none ↦ "collector-1" | some id ↦ id ];
    collector_version = "1.1.0";
    request_scope = request_scope box_text bbox;
  }
