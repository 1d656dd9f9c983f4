-- ===== src/Replay/Report/Rates.antt =====
-- What the rates of replay/report.py are rates of.
use flight_pulse.Base.{
  ℕ, ◌+◌, ◌<◌, String, ◌≡◌, refl, inl, inr, true, Option, none, some, List, [], ◌∷◌, arith,
  if◌then◌else◌, Bool-cases, Option-cases, length, filter, string_eq, nat_eq, option_eq, list_eq,
}
use flight_pulse.Base.Result.{ok}
use flight_pulse.Replay.Report.{
  TestResult, run_results, is_test, is_pass, count_passed, failing_of, PassRate, percent,
  pass_rate_of, fetch_dbt_test_pass_rate,
}

partition : (rs : List TestResult) → count_passed rs + length (failing_of rs) ≡ length rs
unfolding count_passed failing_of
partition [] = refl
partition (r ∷ rs) = elim (Bool-cases (is_pass r)) [
  | inl passes ↦ ground (arith, passes, partition rs)
  | inr fails ↦ ground (arith, fails, partition rs)
]

-- The ids of the tests that did not pass, in order.
abbrev pub AreFailing : List TestResult → List String → Type 0
AreFailing [] failing = failing ≡ []
AreFailing (r ∷ rs) failing =
    if is_pass r
    then AreFailing rs failing
    else (unique_id : String) × (rest : List String) × (r.unique_id ≡ some unique_id)
      × (failing ≡ unique_id ∷ rest)
      × AreFailing rs rest

test_id :
    (r : TestResult) → is_test r ≡ true → (unique_id : String) × (r.unique_id ≡ some unique_id)
unfolding is_test
test_id r test = elim (Option-cases r.unique_id) [
  | inl nothing ↦ absurd (ground (arith, nothing, test))
  | inr there ↦ there
]

failing_of-AreFailing :
    (rs : List TestResult) → AreFailing (filter is_test rs) (failing_of (filter is_test rs))
unfolding failing_of
failing_of-AreFailing [] = refl
failing_of-AreFailing (r ∷ rs) = elim (Bool-cases (is_test r)) [
  | inr other ↦ rw other (failing_of-AreFailing rs)
  | inl test ↦ elim (Bool-cases (is_pass r)) [
    | inl passes ↦ rw (test, passes) (failing_of-AreFailing rs)
    | inr fails ↦
        let (unique_id, there) = test_id r test in
        rw (test, fails)
          (
            unique_id,
            failing_of (filter is_test rs),
            there,
            rw there refl,
            failing_of-AreFailing rs,
          )
  ]
]

module _ {R : Type 0} (rounded : ℕ → ℕ → R) where
  abbrev pub Rates : List TestResult → Option (PassRate R) → Type 0
  Rates tests none = tests ≡ []
  Rates tests (some p) =
      (0 < p.tests_total)
      × (p.tests_total ≡ length tests)
      × (p.tests_passed + length p.failing_tests ≡ p.tests_total)
      × (p.pass_rate_pct ≡ some (rounded p.tests_passed p.tests_total))
      × AreFailing tests p.failing_tests

  pass_rate_of-Rates :
      (tests : List TestResult)
      → AreFailing tests (failing_of tests)
      → Rates tests (pass_rate_of rounded tests)
  unfolding pass_rate_of percent
  pass_rate_of-Rates [] failing = refl
  pass_rate_of-Rates (r ∷ rs) failing =
      (omega arith, refl, partition (r ∷ rs), ground arith, failing)

  -- Whatever results dbt has left: the report counts the tests among them and nothing else, says
  -- that there is no rate exactly if there are none, and otherwise divides the tests that passed by
  -- all of them; the tests that it names as failing are those that did not pass, in order, so with
  -- the passed ones they are all.
  pub fetch_dbt_test_pass_rate-Rates :
      (results : List TestResult)
      → (report : Option (PassRate R)) × (fetch_dbt_test_pass_rate rounded (run_results results)
          ≡ ok report)
        × Rates (filter is_test results) report
  unfolding fetch_dbt_test_pass_rate
  fetch_dbt_test_pass_rate-Rates results = (
    pass_rate_of rounded (filter is_test results),
    refl,
    pass_rate_of-Rates (filter is_test results) (failing_of-AreFailing results),
  )
