-- ===== src/Base/Split.antt =====
-- `str.split` at a comma, against `join`.
use Prim.Native.Char.{Char, code}
use Prim.Native.String.{String}
use mathlib.Core.Path.{◌≡◌, refl, ap, ◌∙◌}
use mathlib.Core.Bool.{Bool, true, false, not, ◌&&◌}
use mathlib.Core.List.{List, [], ◌∷◌}
use native.Mathlib.Omega.{arith}
use text.Mathlib.TextLemmas.{cons-append, nil-append}
use flight_pulse.Base.Tests.{if◌then◌else◌}
use flight_pulse.Base.Lists.{All}
use flight_pulse.Base.Equality.{◌==◌, nat_eq}
use flight_pulse.Base.Format.{◌+++◌}
use flight_pulse.Base.Search.{join}

abbrev is_comma : Char → Bool
is_comma c = code c == 44

-- A character in front of the first part.
unfoldable pub put_first : Char → List String → List String
put_first c [] = String.◌∷◌ c "" ∷ []
put_first c (part ∷ parts) = String.◌∷◌ c part ∷ parts

-- `s.split(",")`
unfoldable pub split_commas : String → List String
unfolding put_first
split_commas String.[] = "" ∷ []
split_commas (String.◌∷◌ c s) =
    let parts = split_commas s in if is_comma c then "" ∷ parts else put_first c parts

-- The text has no comma.
abbrev pub no_comma : String → Bool
no_comma String.[] = true
no_comma (String.◌∷◌ c s) = not (is_comma c) && no_comma s

abbrev pub NoComma : String → Type 0
NoComma s = no_comma s ≡ true

split_last : (s : String) → NoComma s → split_commas s ≡ s ∷ []
unfolding split_commas
split_last String.[] h = refl
split_last (String.◌∷◌ c s) h = ground (arith, split_last s)

and_true : (a b : Bool) → (a && b) ≡ true → (a ≡ true) × (b ≡ true)
and_true a b h = ground arith

not-true : (a : Bool) → not a ≡ true → a ≡ false
not-true a h = ground arith

split_first : (s t : String) → NoComma s → split_commas (s +++ "," +++ t) ≡ s ∷ split_commas t
unfolding split_commas
split_first String.[] t h =
    ap split_commas
      (nil-append ("," +++ t) ∙ cons-append "," "" t ∙ ap (String.◌∷◌ ",") (nil-append t))
    ∙ refl
split_first (String.◌∷◌ c s) t h =
    let (no_here, rest) = and_true (not (is_comma c)) (no_comma s) h in
    ap split_commas (cons-append c s ("," +++ t))
    ∙ rw (split_commas, not-true (is_comma c) no_here, split_first s t rest) refl

-- Parts without commas are split as they were joined.
pub split_commas-join :
    (s : String) (parts : List String)
    → All NoComma (s ∷ parts)
    → split_commas (join "," (s ∷ parts)) ≡ s ∷ parts
unfolding join
split_commas-join s [] (h, all) = split_last s h
split_commas-join s (t ∷ parts) (h, all) =
    split_first s (join "," (t ∷ parts)) h ∙ ap (◌∷◌ s) (split_commas-join t parts all)
