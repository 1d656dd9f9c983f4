-- ===== src/Replay/FaultInjection/WorkerFailure/Verdicts.antt =====
-- What the worker scenario of replay/fault_injection.py reports, and of what it has read.

use mathlib.Core.Path.{subst}
use native.Mathlib.Nat.{suc-mul}
use flight_pulse.Base.{
  ℕ, zero, suc, ◌+◌, ◌/◌, ◌-◌, ◌*◌, ◌≤◌, ◌<◌, ◌≡◌, refl, sym, ap, ◌∙◌, ◌⊎◌, inl, inr, true, false,
  ◌&&◌, Option, none, some, List, arith, ltb, leb, Bool-cases, string_eq, nat_eq, option_eq,
  list_eq,
}
use flight_pulse.Base.Int.{pos, difference}
use flight_pulse.Base.Result.{Result, ok, err, result_cases}
use flight_pulse.Replay.FaultInjection.Polling.{Sleeps}
use flight_pulse.Replay.FaultInjection.WorkerFailure.{
  RedisError, Stored, Progress, Setting, is_reached, look, unless_reached, watch, watch_timeout,
  watch_start, watch_recovery, Verdict, pass, gap, unresolved, verdict,
}

unless_reached-stops :
    (q : Progress) (rest : Option (Result RedisError Progress))
    → q.reached_target ≡ true
    → unless_reached q rest ≡ some (ok q)
unfolding unless_reached
unless_reached-stops q rest reached = rw reached refl

unless_reached-goes_on :
    (q : Progress) (rest : Option (Result RedisError Progress))
    → q.reached_target ≡ false
    → unless_reached q rest ≡ rest
unfolding unless_reached
unless_reached-goes_on q rest unreached = rw unreached refl

module _ (s : Setting) where
  -- A round that began in time has left this.
  abbrev pub Looked : ℕ → Progress → Type 0
  Looked m p =
      (s.clock.test m < watch_timeout s)
      × ((keys : List Stored) × (s.result_keys m ≡ ok keys) × (p ≡ look s m keys))

  abbrev pub Watched : Result RedisError Progress → Type 0
  Watched (err e) = (m : ℕ) × (s.clock.test m < watch_timeout s) × (s.result_keys m ≡ err e)
  Watched (ok p) =
      (m : ℕ) × Looked m p
      × ((p.reached_target ≡ true)
          ⊎ (p.reached_target ≡ false) × (watch_timeout s ≤ s.clock.test (m + 1)))

  -- What the round before n has left.
  abbrev Before : ℕ → Progress → Type 0
  Before n p =
      ((n ≡ 0) × (p ≡ watch_start s))
      ⊎ ((m : ℕ) × (m + 1 ≡ n) × Looked m p × (p.reached_target ≡ false))

  abbrev Ends : ℕ → ℕ → Progress → Type 0
  Ends fuel n p =
      (r : Result RedisError Progress) × (watch s (watch_timeout s) fuel n p ≡ some r) × Watched r

  over_now :
      (fuel n : ℕ) (p : Progress)
      → s.clock.test 0 < watch_timeout s
      → Before n p
      → ltb (s.clock.test n) (watch_timeout s) ≡ false
      → Ends (suc fuel) n p
  unfolding watch
  over_now fuel n p early (inl (first, start)) over =
      absurd (ground (arith, ap (λ k. s.clock.test k) first))
  over_now fuel n p early (inr (m, next, looked, unreached)) over =
      let late : watch_timeout s ≤ s.clock.test n = ground (arith, over) in
      (
        ok p,
        rw (over, watch) refl,
        (m, looked, inr (unreached, subst (λ k. watch_timeout s ≤ s.clock.test k) (sym next) late)),
      )

  watch_from :
      (fuel n : ℕ) (p : Progress)
      → Sleeps 5000 s.clock.test
      → s.clock.test 0 < watch_timeout s
      → watch_timeout s ≤ s.clock.test n + fuel * 5000
      → Before n p
      → Ends (suc fuel) n p
  unfolding watch
  watch_from zero n p sleeps early enough before = over_now zero n p early before (ground arith)
  watch_from (suc fuel) n p sleeps early enough before =
      elim (Bool-cases (ltb (s.clock.test n) (watch_timeout s))) [
        | inr over ↦ over_now (suc fuel) n p early before over
        | inl in_time ↦ elim (result_cases (s.result_keys n)) [
          | inr (e, raised) ↦ (err e, rw (in_time, watch, raised) refl, (n, ground arith, raised))
          | inl (keys, read) ↦
              let q = look s n keys in
              let looked : Looked n q = (ground arith, (keys, read, refl)) in
              elim (Bool-cases q.reached_target) [
                | inl reached ↦ (
                  ok q,
                  rw (in_time, watch, read) (unless_reached-stops q _ reached),
                  (n, looked, inl reached),
                )
                | inr unreached ↦
                    let (r, ran, watched) =
                      watch_from fuel (n + 1) q sleeps early
                        (omega (arith, sleeps n, suc-mul fuel 5000))
                        (inr (n, refl, looked, unreached)) in
                    (
                      r,
                      rw (in_time, watch, read) (unless_reached-goes_on q _ unreached ∙ ran),
                      watched,
                    )
              ]
        ]
      ]

-- What a verdict says on the progress `p`, where `before` and `final` are the counts of rows, `now`
-- is the number of batches sent that the last round has read, and `sent` the one reported.
abbrev pub SaysOf : Progress → ℕ → ℕ → ℕ → ℕ → Verdict → Type 0
SaysOf p before final now sent pass =
    (before + p.ground_truth_inserted ≤ final) × (now ≤ p.jobs_counted)
SaysOf p before final now sent (gap low expected) =
    (low ≡ final) × (expected ≡ before + p.ground_truth_inserted) × (final < expected)
SaysOf p before final now sent (unresolved k) =
    (before + p.ground_truth_inserted ≤ final)
    × (now ≡ sent
        → (missing : ℕ) × (k ≡ pos missing) × (0 < missing) × (p.jobs_counted + missing ≡ sent))

abbrev pub Says : Progress → Option ℕ → Option ℕ → ℕ → ℕ → Option Verdict → Type 0
Says p base fin now sent none = (base ≡ none) ⊎ (fin ≡ none)
Says p base fin now sent (some v) =
    (before : ℕ) × (final : ℕ) × (base ≡ some before)
    × (fin ≡ some final)
    × SaysOf p before final now sent v

verdict_known :
    (p : Progress) (before final now sent : ℕ)
    → p.final_count ≡ some final
    → p.reached_target
      ≡ is_reached (some before) (some final) p.jobs_counted p.ground_truth_inserted now
    → Says p (some before) (some final) now sent (verdict (some before) p sent)
unfolding verdict is_reached difference
verdict_known p before final now sent known reached =
    let expected = before + p.ground_truth_inserted in
    elim (Bool-cases p.reached_target) [
      | inl yes_reached ↦
          let both : leb expected final && leb now p.jobs_counted ≡ true =
            sym reached ∙ yes_reached in
          rw (known, yes_reached, verdict) (before, final, refl, refl, (ground arith, ground arith))
      | inr not_reached ↦
          let one : leb expected final && leb now p.jobs_counted ≡ false =
            sym reached ∙ not_reached in
          elim (Bool-cases (ltb final expected)) [
            | inl low ↦
                rw (known, not_reached, low, verdict)
                  (before, final, refl, refl, (refl, refl, ground arith))
            | inr high ↦
                rw (known, not_reached, high, verdict)
                  (
                    before,
                    final,
                    refl,
                    refl,
                    (
                      ground arith,
                      λ same. (sent - p.jobs_counted, ground arith, ground arith, ground arith),
                    ),
                  )
          ]
    ]

pub verdict-Says :
    (p : Progress) (base fin : Option ℕ) (now sent : ℕ)
    → p.final_count ≡ fin
    → p.reached_target ≡ is_reached base fin p.jobs_counted p.ground_truth_inserted now
    → Says p base fin now sent (verdict base p sent)
unfolding verdict
verdict-Says p none fin now sent known reached = inl refl
verdict-Says p (some before) none now sent known reached = rw (known, verdict) (inr refl)
verdict-Says p (some before) (some final) now sent known reached =
    verdict_known p before final now sent known reached

pub watch_recovery-Watched :
    (s : Setting)
    → Sleeps 5000 s.clock.test
    → s.clock.test 0 < watch_timeout s
    → (r : Result RedisError Progress) × (watch_recovery s ≡ some r) × Watched s r
unfolding watch_recovery
watch_recovery-Watched s sleeps early =
    watch_from s (watch_timeout s / 5000 + 1) 0 (watch_start s) sleeps early (omega arith)
      (inl (refl, refl))
