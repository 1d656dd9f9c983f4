-- ===== src/Base/Text.antt =====
-- Text that is only compared: `<=` on strings, by code points; and `str.lower` and `str.upper` of
-- ASCII text, as HTTP methods and header names are, with the result as its code points.
use Prim.Native.Char.{code}
use Prim.Native.String.{String}
use Prim.Native.Nat.{ℕ, ◌+◌, ◌-◌}
use mathlib.Core.Path.{◌≡◌, refl}
use mathlib.Core.Logic.{◌⊎◌, inl, inr}
use mathlib.Core.Bool.{Bool, true, false, ◌&&◌}
use mathlib.Core.List.{List, [], ◌∷◌, map}
use flight_pulse.Base.Tests.{leb, ltb, nat_beq, if◌then◌else◌}
use flight_pulse.Base.Sorting.{Ord}
use native.Mathlib.Omega.{arith}

abbrev pub codes : String → List ℕ
codes String.[] = []
codes (String.◌∷◌ c s) = code c ∷ codes s

unfoldable pub lower_code : ℕ → ℕ
lower_code c = if leb b'A' c && leb c b'Z' then c + 32 else c

unfoldable pub upper_code : ℕ → ℕ
upper_code c = if leb b'a' c && leb c b'z' then c - 32 else c

unfoldable pub lower : String → List ℕ
unfolding lower_code
lower s = map lower_code (codes s)

unfoldable pub upper : String → List ℕ
unfolding upper_code
upper s = map upper_code (codes s)

unfoldable pub codes_le : List ℕ → List ℕ → Bool
codes_le [] ys = true
codes_le (x ∷ xs) [] = false
codes_le (x ∷ xs) (y ∷ ys) = if ltb x y then true else (nat_beq x y && codes_le xs ys)

codes_le_total : (xs ys : List ℕ) → (codes_le xs ys ≡ true) ⊎ (codes_le ys xs ≡ true)
unfolding codes_le
codes_le_total [] ys = inl refl
codes_le_total (x ∷ xs) [] = inr refl
codes_le_total (x ∷ xs) (y ∷ ys) = ground (arith, codes_le_total xs ys)

codes_le_trans :
    (xs ys zs : List ℕ) → codes_le xs ys ≡ true → codes_le ys zs ≡ true → codes_le xs zs ≡ true
unfolding codes_le
codes_le_trans [] ys zs h k = refl
codes_le_trans (x ∷ xs) [] zs h k = absurd (cc)
codes_le_trans (x ∷ xs) (y ∷ ys) [] h k = absurd (cc)
codes_le_trans (x ∷ xs) (y ∷ ys) (z ∷ zs) h k = ground (arith, codes_le_trans xs ys zs)

instance unfoldable pub string_ord : Ord String
unfolding codes_le codes_le_total codes_le_trans
string_ord = record {
  le = λ s t. codes_le (codes s) (codes t);
  le_total = λ s t. codes_le_total (codes s) (codes t);
  le_trans = λ s t u. codes_le_trans (codes s) (codes t) (codes u);
}
