-- ===== src/Base/Decimal.antt =====
-- A number is read back from its decimal text.
use Prim.Native.Nat.{ℕ, zero, suc, ◌+◌, ◌-◌, ◌*◌, ◌/◌, ◌%◌, ◌≤◌, ◌<◌}
use Prim.Native.Char.{code}
use Prim.Native.String.{String, ◌++◌}
use mathlib.Core.Path.{◌≡◌, sym, ap, ◌∙◌}
use mathlib.Core.Logic.{inl, inr}
use native.Mathlib.Omega.{arith}
use text.Mathlib.TextLemmas.{cons-append, nil-append}
use flight_pulse.Base.Tests.{leb, Bool-cases}
use flight_pulse.Base.Format.{digit, decimal_digits, decimal}

-- The number that digits stand for, after those of `n`.
abbrev pub read : String → ℕ → ℕ
read String.[] n = n
read (String.◌∷◌ c s) n = read s (n * 10 + (code c - 48))

read-append : (s t : String) (n : ℕ) → read (s ++ t) n ≡ read t (read s n)
read-append String.[] t n = ap (λ (x : String). read x n) (nil-append t)
read-append (String.◌∷◌ c s) t n =
    ap (λ (x : String). read x n) (cons-append c s t) ∙ read-append s t (n * 10 + (code c - 48))

read-digit : (d n : ℕ) → d < 10 → read (digit d) n ≡ n * 10 + d
unfolding digit
read-digit zero n h = omega arith
read-digit (suc zero) n h = omega arith
read-digit (suc (suc zero)) n h = omega arith
read-digit (suc (suc (suc zero))) n h = omega arith
read-digit (suc (suc (suc (suc zero)))) n h = omega arith
read-digit (suc (suc (suc (suc (suc zero))))) n h = omega arith
read-digit (suc (suc (suc (suc (suc (suc zero)))))) n h = omega arith
read-digit (suc (suc (suc (suc (suc (suc (suc zero))))))) n h = omega arith
read-digit (suc (suc (suc (suc (suc (suc (suc (suc zero)))))))) n h = omega arith
read-digit (suc (suc (suc (suc (suc (suc (suc (suc (suc zero))))))))) n h = omega arith
read-digit (suc (suc (suc (suc (suc (suc (suc (suc (suc (suc d)))))))))) n h = absurd (omega arith)

read-decimal_digits : (more n : ℕ) → n ≤ more → read (decimal_digits more n) 0 ≡ n
unfolding decimal_digits
read-decimal_digits zero n h = read-digit (n % 10) 0 (omega arith) ∙ omega arith
read-decimal_digits (suc more) n h = elim (Bool-cases (leb n 9)) [
  | inl short ↦ rw short (read-digit n 0 (ground arith) ∙ omega arith)
  | inr long ↦
      let large : 9 < n = ground arith in
      rw long (
        read-append (decimal_digits more (n / 10)) (digit (n % 10)) 0
        ∙ read-digit (n % 10) (read (decimal_digits more (n / 10)) 0) (omega arith)
        ∙ ap (λ k. k * 10 + n % 10) (read-decimal_digits more (n / 10) (omega arith))
        ∙ omega arith)
]

pub decimal_injective : (m n : ℕ) → decimal m ≡ decimal n → m ≡ n
unfolding decimal
decimal_injective m n e =
    sym (read-decimal_digits m m (omega arith))
    ∙ ap (λ (s : String). read s 0) e
    ∙ read-decimal_digits n n (omega arith)
