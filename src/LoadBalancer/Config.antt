-- ===== src/LoadBalancer/Config.antt =====
-- load_balancer/config.py: the list of the backends, from the environment.
use flight_pulse.Base.{
  String, ◌≡◌, refl, ap, ◌∙◌, false, Option, none, some, List, [], ◌∷◌, if◌then◌else◌, All, ◌==◌,
  string_eq, nat_eq, option_eq, list_eq,
}
use flight_pulse.Base.Format.{strip}
use flight_pulse.Base.Search.{join}
use flight_pulse.Base.Split.{split_commas, NoComma, split_commas-join}

-- `_default_backends`
abbrev pub default_backends : String
default_backends = "http://localhost:8001,http://localhost:8002,http://localhost:8003"

-- The comprehension.
unfoldable pub kept_urls : List String → List String
unfolding strip
kept_urls [] = []
kept_urls (url ∷ urls) = if strip url == "" then kept_urls urls else strip url ∷ kept_urls urls

-- BACKEND_URLS, with the value of the variable if it is set.
unfoldable pub backend_urls_of : Option String → List String
unfolding kept_urls split_commas
backend_urls_of none = kept_urls (split_commas default_backends)
backend_urls_of (some text) = kept_urls (split_commas text)

-- A URL as it is configured: without commas, without space at its ends, and not empty.
abbrev pub IsUrl : String → Type 0
IsUrl url = NoComma url × (strip url ≡ url) × ((url == "") ≡ false)

kept-All : (urls : List String) → All IsUrl urls → kept_urls urls ≡ urls
unfolding kept_urls
kept-All [] all = refl
kept-All (url ∷ urls) ((none_in, stripped, filled), all) =
    rw (kept_urls, stripped, filled, kept-All urls all) refl

no_commas : (urls : List String) → All IsUrl urls → All NoComma urls
no_commas [] all = tt
no_commas (url ∷ urls) (here, all) = (here.0, no_commas urls all)

-- The value that lists URLs with commas between them is read as these URLs, in their order, also
-- where there are none.
backend_urls_of-join :
    (urls : List String) → All IsUrl urls → backend_urls_of (some (join "," urls)) ≡ urls
unfolding backend_urls_of join
backend_urls_of-join [] all = unfold kept_urls split_commas strip in refl
backend_urls_of-join (url ∷ urls) all =
    ap kept_urls (split_commas-join url urls (no_commas (url ∷ urls) all))
    ∙ kept-All (url ∷ urls) all
