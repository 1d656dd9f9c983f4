-- ===== src/LoadBalancer/Metrics/Ceiling.antt =====
-- The float ceiling of `_percentile` of load_balancer/metrics.py is the exact one at the
-- percentiles of `snapshot` and the lengths of the window.
use flight_pulse.Base.{
  ℕ, zero, suc, ◌+◌, ◌*◌, ◌/◌, ◌≤◌, ◌<◌, ◌≡◌, refl, sym, ◌⊎◌, inl, inr, Bool, true, ◌&&◌, arith,
  leb, Bool-cases, ◌==◌, string_eq, nat_eq, option_eq, list_eq,
}
use mathlib.Core.Path.{subst}
use flight_pulse.LoadBalancer.Metrics.{ceil_percent, window}

-- The percentiles that `snapshot` asks for.
abbrev pub IsReported : ℕ → Type 0
IsReported pct = (pct ≡ 50) ⊎ (pct ≡ 95) ⊎ (pct ≡ 99)

abbrev is_exact : ℕ → ℕ → Bool
is_exact pct n = ceil_percent pct n == (pct * n + 99) / 100

-- At every length up to `n`.
abbrev all_exact : ℕ → ℕ → Bool
all_exact pct zero = true
all_exact pct (suc n) = is_exact pct (suc n) && all_exact pct n

exact_50 : all_exact 50 window ≡ true
unfolding ceil_percent
exact_50 = refl

exact_95 : all_exact 95 window ≡ true
unfolding ceil_percent
exact_95 = refl

exact_99 : all_exact 99 window ≡ true
unfolding ceil_percent
exact_99 = refl

and_true : (a b : Bool) → (a && b) ≡ true → (a ≡ true) × (b ≡ true)
and_true a b h = ground arith

exact_all : (pct : ℕ) → IsReported pct → all_exact pct window ≡ true
exact_all pct (inl same) = subst (λ k. all_exact k window ≡ true) (sym same) exact_50
exact_all pct (inr (inl same)) = subst (λ k. all_exact k window ≡ true) (sym same) exact_95
exact_all pct (inr (inr same)) = subst (λ k. all_exact k window ≡ true) (sym same) exact_99

exact_below : (pct m n : ℕ) → all_exact pct m ≡ true → 0 < n → n ≤ m → is_exact pct n ≡ true
exact_below pct zero n all positive fits = absurd (omega arith)
exact_below pct (suc m) n all positive fits =
    let (here, rest) = and_true (is_exact pct (suc m)) (all_exact pct m) all in
    elim (Bool-cases (leb n m)) [
      | inl lower ↦ exact_below pct m n rest positive (ground arith)
      | inr top ↦
          let same : suc m ≡ n = ground arith in subst (λ k. is_exact pct k ≡ true) same here
    ]

pub ceil_percent_exact :
    (pct n : ℕ) → IsReported pct → 0 < n → n ≤ window → ceil_percent pct n ≡ (pct * n + 99) / 100
ceil_percent_exact pct n reported positive fits =
    (nat_eq.beq_iff (ceil_percent pct n) ((pct * n + 99) / 100)).0
      (exact_below pct window n (exact_all pct reported) positive fits)
