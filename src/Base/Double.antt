-- ===== src/Base/Double.antt =====
-- Python's floats where they are read as numbers: IEEE doubles that are positive and normal.
use Prim.Native.Nat.{ℕ, zero, suc, ◌+◌, ◌-◌, ◌*◌, ◌/◌, ◌%◌, ◌^◌}
use flight_pulse.Base.Tests.{ltb, leb, if◌then◌else◌}

-- The double `mantissa / 2 ^ exponent`.
pub record Double : Type 0 where
  pub mantissa : ℕ
  pub exponent : ℕ

-- `p / q`, rounded to the nearest integer, and from the middle to the even one.
unfoldable pub nearest : ℕ → ℕ → ℕ
nearest p q =
    let down = p / q in
    let rest = 2 * (p % q) in
    if ltb rest q then down else if ltb q rest then down + 1 else down + down % 2

-- The first exponent from `e` on that gives `p / q` a mantissa of 53 bits.
unfoldable pub exponent_from : ℕ → ℕ → ℕ → ℕ → ℕ
exponent_from zero p q e = e
exponent_from (suc fuel) p q e =
    let rest = exponent_from fuel p q (e + 1) in
    if leb (4503599627370496 * q) (p * 2 ^ e) then e else rest

-- The double nearest to `p / q`, where that is from 2 ^ -12 up to 2 ^ 53: then the exponent is at
-- most 64.
unfoldable pub double : ℕ → ℕ → Double
unfolding nearest exponent_from
double p q =
    let e = exponent_from 64 p q 0 in record { mantissa = nearest (p * 2 ^ e) q; exponent = e }

-- `x * n`, for an integer that is a double
unfoldable pub times : Double → ℕ → Double
unfolding double
times x n = double (x.mantissa * n) (2 ^ x.exponent)

-- `math.ceil(x)`
unfoldable pub ceil : Double → ℕ
ceil x = (x.mantissa + (2 ^ x.exponent - 1)) / 2 ^ x.exponent
