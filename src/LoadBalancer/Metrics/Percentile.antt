-- ===== src/LoadBalancer/Metrics/Percentile.antt =====
-- `_percentile` of load_balancer/metrics.py against the definition of a nearest-rank percentile.
use flight_pulse.Base.{
  ℕ, zero, suc, ◌+◌, ◌*◌, ◌≤◌, ◌<◌, ◌≡◌, refl, ap, ◌∙◌, inl, inr, Bool, true, not, some, List, [],
  ◌∷◌, arith, if◌then◌else◌, All, length, get_elem?, string_eq, nat_eq,
}
use flight_pulse.LoadBalancer.Metrics.Ceiling.{IsReported, ceil_percent_exact}
use mathlib.Core.Path.{subst}
use flight_pulse.Base.{get_elem?_total}
use flight_pulse.Base.Sorting.{Ord, nat_ord, IsSorted, sort_by-IsSorted, length-sort_by}
use flight_pulse.LoadBalancer.Metrics.{
  Floats, Metrics, window, percentile, percentile_index, sorted_latencies,
}

-- The number of elements that pass a test.
abbrev pub count {ℓ} : {A : Type ℓ} → (A → Bool) → List A → ℕ
count p [] = 0
count p (x ∷ xs) = if p x then suc (count p xs) else count p xs

module _ {F : Type 0} ⦃o : Ord F⦄ where
  -- How many samples are at most `v`, and how many are below it.
  abbrev pub at_most : F → List F → ℕ
  at_most v = count (λ x. o.le x v)

  abbrev pub below : F → List F → ℕ
  below v = count (λ x. not (o.le v x))

  abbrev Ascending : List F → Type 0
  Ascending = IsSorted (λ (x : F). x)

  le_refl : (x : F) → o.le x x ≡ true
  le_refl x = elim (o.le_total x x) [ inl h ↦ h | inr h ↦ h ]

  All-get_elem? :
      (P : F → Type 0) (l : List F) (i : ℕ) (v : F) → All P l → get_elem? l i ≡ some v → P v
  All-get_elem? P [] i v all e = absurd (cc)
  All-get_elem? P (x ∷ l) zero v all e = subst P (cc) all.0
  All-get_elem? P (x ∷ l) (suc i) v all e = All-get_elem? P l i v all.1 e

  none_below : (v : F) (l : List F) → All (λ x. o.le v x ≡ true) l → below v l ≡ 0
  none_below v [] all = refl
  none_below v (x ∷ l) all = ground (arith, none_below v l)

  rank-le-at_most :
      (l : List F) (i : ℕ) (v : F) → Ascending l → get_elem? l i ≡ some v → i + 1 ≤ at_most v l
  rank-le-at_most [] i v h e = absurd (cc)
  rank-le-at_most (x ∷ l) zero v h e = ground (arith, le_refl x)
  rank-le-at_most (x ∷ l) (suc i) v h e =
      let first : o.le x v ≡ true = All-get_elem? (λ y. o.le x y ≡ true) l i v h.0 e in
      ground (arith, rank-le-at_most l i v h.1 e)

  below-le-index :
      (l : List F) (i : ℕ) (v : F) → Ascending l → get_elem? l i ≡ some v → below v l ≤ i
  below-le-index [] i v h e = absurd (cc)
  below-le-index (x ∷ l) zero v h e =
      let same : x ≡ v = cc in ground (arith, le_refl x, none_below x l h.0)
  below-le-index (x ∷ l) (suc i) v h e = ground (arith, below-le-index l i v h.1 e)

reported_bounds : (pct : ℕ) → IsReported pct → (0 < pct) × (pct ≤ 100)
reported_bounds pct (inl same) = (omega arith, omega arith)
reported_bounds pct (inr (inl same)) = (omega arith, omega arith)
reported_bounds pct (inr (inr same)) = (omega arith, omega arith)

percentile_index_bounds :
    (pct n : ℕ)
    → IsReported pct
    → 0 < n
    → n ≤ window
    → (percentile_index pct n < n)
      × (pct * n ≤ 100 * (percentile_index pct n + 1))
      × (100 * percentile_index pct n < pct * n)
unfolding percentile_index
percentile_index_bounds pct n reported r fits =
    let exact = ceil_percent_exact pct n reported r fits in
    let (p, q) = reported_bounds pct reported in
    let small : pct * n ≤ 100 * n = grind arith in
    let some_rank : 0 < pct * n = grind arith in (omega arith, omega arith, omega arith)

-- With a sample the call reads the element at the index of the rank.
percentile_reads :
    (fl : Floats) (l : List fl.Float) (pct : ℕ)
    → 0 < length l
    → percentile fl l pct ≡ get_elem? l (percentile_index pct (length l))
unfolding percentile
percentile_reads fl [] pct h = absurd (omega arith)
percentile_reads fl (x ∷ l) pct h = refl

module _ (fl : Floats) where
  open fl use {Float, order}

  -- The percentiles that `snapshot` reports, 50, 95 and 99, of any non-empty window: the call
  -- returns a value such that at least pct percent of the samples are at most it, and fewer than
  -- pct percent are below it. The rank is the one that Python computes with doubles.
  pub percentile-IsNearestRank :
      (m : Metrics Float) (pct : ℕ)
      → IsReported pct
      → 0 < length m.latencies_ms
      → length m.latencies_ms ≤ window
      → (v : Float) × (percentile fl (sorted_latencies fl m) pct ≡ some v)
        × (pct * length m.latencies_ms ≤ 100 * at_most ⦃o = order⦄ v (sorted_latencies fl m))
        × (100 * below ⦃o = order⦄ v (sorted_latencies fl m) < pct * length m.latencies_ms)
  percentile-IsNearestRank m pct reported r bounded =
      let l = sorted_latencies fl m in
      let size : length l ≡ length m.latencies_ms =
        length-sort_by ⦃o = order⦄ (λ x. x) m.latencies_ms in
      let ascending = sort_by-IsSorted ⦃o = order⦄ (λ (x : Float). x) m.latencies_ms in
      let i = percentile_index pct (length l) in
      let (fits, reached, below_rank) =
        percentile_index_bounds pct (length l) reported (omega arith) (omega arith) in
      let (v, e) = get_elem?_total l i fits in
      let enough = rank-le-at_most ⦃o = order⦄ l i v ascending e in
      let few = below-le-index ⦃o = order⦄ l i v ascending e in
      (
        v,
        percentile_reads fl l pct (omega arith) ∙ e,
        omega (arith, ap (λ (t : ℕ). pct * t) size),
        omega (arith, ap (λ (t : ℕ). pct * t) size),
      )
