-- ===== src/Base/Separated.antt =====
-- Texts that `:` separates.
use Prim.Native.Char.{Char, code}
use Prim.Native.String.{String}
use mathlib.Core.Path.{◌≡◌, refl, sym, ap, ◌∙◌}
use mathlib.Core.Bool.{Bool, true, not, ◌&&◌}
use native.Mathlib.Omega.{arith}
use text.Mathlib.TextLemmas.{
  cons-append, nil-append, head-eq_of_cons-eq, tail-eq_of_cons-eq, append_cancel_left,
}
use flight_pulse.Base.Equality.{◌==◌, nat_eq}
use flight_pulse.Base.Format.{◌+++◌}

-- The text has no `:`.
abbrev pub no_colon : String → Bool
no_colon String.[] = true
no_colon (String.◌∷◌ c s) = not (code c == 58) && no_colon s

colon_head : (c : Char) (s u w : String) → ":" +++ u ≡ String.◌∷◌ c s +++ w → code c ≡ 58
colon_head c s u w e =
    let whole =
      sym (cons-append ":" "" u ∙ ap (String.◌∷◌ ":") (nil-append u)) ∙ e ∙ cons-append c s w in
    sym (ap code (head-eq_of_cons-eq whole))

-- Where the first text has no colon, the separator can be found.
pub split_colon :
    (s t u v : String)
    → no_colon s ≡ true
    → no_colon t ≡ true
    → s +++ ":" +++ u ≡ t +++ ":" +++ v
    → (s ≡ t) × (u ≡ v)
split_colon String.[] String.[] u v p q e =
    let same : ":" +++ u ≡ ":" +++ v = sym (nil-append (":" +++ u)) ∙ e ∙ nil-append (":" +++ v) in
    (refl, append_cancel_left ":" u v same)
split_colon String.[] (String.◌∷◌ c t) u v p q e =
    let is_colon = colon_head c t u (":" +++ v) (sym (nil-append (":" +++ u)) ∙ e) in
    absurd (ground (arith, nat_eq.beq_iff (code c) 58))
split_colon (String.◌∷◌ c s) String.[] u v p q e =
    let is_colon = colon_head c s v (":" +++ u) (sym (nil-append (":" +++ v)) ∙ sym e) in
    absurd (ground (arith, nat_eq.beq_iff (code c) 58))
split_colon (String.◌∷◌ c s) (String.◌∷◌ d t) u v p q e =
    let whole = sym (cons-append c s (":" +++ u)) ∙ e ∙ cons-append d t (":" +++ v) in
    let same_head = head-eq_of_cons-eq whole in
    let (same, rest) =
      split_colon s t u v (ground arith) (ground arith) (tail-eq_of_cons-eq whole) in
    (ap (λ x. String.◌∷◌ x s) same_head ∙ ap (String.◌∷◌ d) same, rest)

pub cancel_left : (s t u : String) → s +++ t ≡ s +++ u → t ≡ u
cancel_left s t u e = append_cancel_left s t u e
