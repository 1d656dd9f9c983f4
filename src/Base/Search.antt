-- ===== src/Base/Search.antt =====
-- Python's `startswith`, `endswith`, `in` and `join` on strings.
use Prim.Native.String.{String}
use mathlib.Core.Bool.{Bool, true, false, ◌&&◌, ◌||◌}
use mathlib.Core.Path.{◌≡◌, refl, sym, ap, ◌∙◌}
use text.Mathlib.TextLemmas.{cons-append, nil-append}
use native.Mathlib.Omega.{arith}
use flight_pulse.Base.Tests.{Bool-cases}
use mathlib.Core.List.{List, [], ◌∷◌}
use flight_pulse.Base.Tests.{nat_beq}
use mathlib.Core.Logic.{inl, inr}
use flight_pulse.Base.Equality.{beq_refl, ◌==◌, string_eq}
use flight_pulse.Base.Format.{◌+++◌}
use Prim.Native.Char.{code}

-- `s.startswith(t)`, with `t` first
unfoldable pub starts_with : String → String → Bool
starts_with String.[] s = true
starts_with (String.◌∷◌ c t) String.[] = false
starts_with (String.◌∷◌ c t) (String.◌∷◌ d s) = nat_beq (code c) (code d) && starts_with t s

-- `s.endswith(t)`, with `t` first
unfoldable pub ends_with : String → String → Bool
ends_with t String.[] = t == ""
ends_with t (String.◌∷◌ c s) = t == String.◌∷◌ c s || ends_with t s

-- `t in s`
unfoldable pub is_in : String → String → Bool
unfolding starts_with
is_in t String.[] = starts_with t ""
is_in t (String.◌∷◌ c s) = starts_with t (String.◌∷◌ c s) || is_in t s

-- `sep.join(parts)`
unfoldable pub join : String → List String → String
join sep [] = ""
join sep (s ∷ []) = s
join sep (s ∷ t ∷ parts) = s +++ sep +++ join sep (t ∷ parts)

-- What `ends_with` finds is in front of the end.
pub ends_with-append : (t s : String) → ends_with t s ≡ true → (front : String) × (s ≡ front +++ t)
unfolding ends_with
ends_with-append t String.[] h =
    let empty = (string_eq.beq_iff t "").0 h in ("", sym empty ∙ sym (nil-append t))
ends_with-append t (String.◌∷◌ c s) h = elim (Bool-cases (t == String.◌∷◌ c s)) [
  | inl whole ↦ ("", sym ((string_eq.beq_iff t (String.◌∷◌ c s)).0 whole) ∙ sym (nil-append t))
  | inr part ↦
      let (front, same) = ends_with-append t s (ground (arith, part)) in
      (String.◌∷◌ c front, ap (String.◌∷◌ c) same ∙ sym (cons-append c front t))
]

ends_with_self : (t : String) → ends_with t t ≡ true
unfolding ends_with
ends_with_self String.[] = refl
ends_with_self (String.◌∷◌ c t) = rw (beq_refl (String.◌∷◌ c t)) refl

pub append-ends_with : (t front : String) → ends_with t (front +++ t) ≡ true
unfolding ends_with
append-ends_with t String.[] = ap (ends_with t) (nil-append t) ∙ ends_with_self t
append-ends_with t (String.◌∷◌ c front) =
    ap (ends_with t) (cons-append c front t) ∙ elim (Bool-cases (t == String.◌∷◌ c (front +++ t))) [
      | inl whole ↦ rw whole refl
      | inr part ↦ rw part (append-ends_with t front)
    ]
