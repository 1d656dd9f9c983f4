-- ===== src/Replay/Report.antt =====
-- replay/report.py: the KPI report. What the load balancer, PostgreSQL and the file of dbt give are
-- parameters, and so is the rounding of a quotient.
pub mod Rates
use mathlib.Core.Option
use flight_pulse.Base.{
  ℕ, ◌+◌, String, Bool, false, not, Option, none, some, List, [], ◌∷◌, if◌then◌else◌, length,
  filter, ◌==◌, contains, string_eq, nat_eq, option_eq, list_eq,
}
use flight_pulse.Base.Result.{Result, ok, err}
use flight_pulse.Base.Search.{starts_with}
use flight_pulse.Collector.Producer.{raises_for_status}

-- What `requests.get` and `resp.json()` do; requests raises a `RequestException` for a body that is
-- not JSON too.
pub data HttpReply (A : Type 0) : Type 0 where
  request_exception : HttpReply A
  answered : ℕ → Option A → HttpReply A

unfoldable pub fetch_lb_metrics : {A : Type 0} → HttpReply A → Option A
unfolding raises_for_status
fetch_lb_metrics request_exception = none
fetch_lb_metrics (answered status body) = if raises_for_status status then none else body

-- What connecting and querying raise.
pub data QueryError : Type 0 where
  operational undefined_table other_error : QueryError

-- The row of the mart, if there is one; an error is an exception that is not caught.
unfoldable pub fetch_telemetry_quality :
    {A : Type 0} → Result QueryError (Option A) → Result QueryError (Option A)
fetch_telemetry_quality (ok row) = ok row
fetch_telemetry_quality (err other_error) = err other_error
fetch_telemetry_quality (err _) = ok none

-- The exit codes of `dbt test` that are reported with a warning.
unfoldable pub warns_of_exit : ℕ → Bool
warns_of_exit code = not (contains (0 ∷ 1 ∷ []) code)

-- An entry of `results` of run_results.json.
pub record TestResult : Type 0 where
  pub unique_id : Option String
  pub status : Option String

-- The file: missing, not JSON, or its `results`, where a missing key counts as an empty list.
pub data RunResults : Type 0 where
  missing bad_json : RunResults
  run_results : List TestResult → RunResults

-- `r.get("unique_id", "").startswith("test.")`
unfoldable pub is_test : TestResult → Bool
unfolding starts_with
is_test r = elim r.unique_id [ none ↦ false | some unique_id ↦ starts_with "test." unique_id ]

abbrev pub is_pass : TestResult → Bool
is_pass r = r.status == some "pass"

abbrev id_of : TestResult → String
id_of r = elim r.unique_id [ none ↦ "" | some unique_id ↦ unique_id ]

-- `sum(1 for r in test_results if ...)`
unfoldable pub count_passed : List TestResult → ℕ
count_passed [] = 0
count_passed (r ∷ rs) = if is_pass r then count_passed rs + 1 else count_passed rs

unfoldable pub failing_of : List TestResult → List String
failing_of [] = []
failing_of (r ∷ rs) = if is_pass r then failing_of rs else id_of r ∷ failing_of rs

-- `rounded n d` is `round(100 * n / d, k)`, for the `k` at hand.
pub record PassRate (R : Type 0) : Type 0 where
  pub tests_passed : ℕ
  pub tests_total : ℕ
  pub pass_rate_pct : Option R
  pub failing_tests : List String

module _ {R : Type 0} (rounded : ℕ → ℕ → R) where
  -- `if total else None`
  unfoldable pub percent : ℕ → ℕ → Option R
  percent n total = if total == 0 then none else some (rounded n total)

  unfoldable pub pass_rate_of : List TestResult → Option (PassRate R)
  unfolding count_passed failing_of percent
  pass_rate_of [] = none
  pass_rate_of (r ∷ rs) = some (record {
    tests_passed = count_passed (r ∷ rs);
    tests_total = length (r ∷ rs);
    pass_rate_pct = percent (count_passed (r ∷ rs)) (length (r ∷ rs));
    failing_tests = failing_of (r ∷ rs);
  })

  -- An error is `json.load`'s exception.
  unfoldable pub fetch_dbt_test_pass_rate : RunResults → Result RunResults (Option (PassRate R))
  unfolding is_test pass_rate_of
  fetch_dbt_test_pass_rate missing = ok none
  fetch_dbt_test_pass_rate bad_json = err bad_json
  fetch_dbt_test_pass_rate (run_results results) = ok (pass_rate_of (filter is_test results))

  -- The rate of failed requests, where `none_yet` is 0.0.
  unfoldable pub failed_rate : R → ℕ → ℕ → R
  failed_rate none_yet failed_requests total_requests =
      if total_requests == 0 then none_yet else rounded failed_requests total_requests

  -- The rate of invalid records; the three counts may overlap.
  unfoldable pub invalid_rate : R → ℕ → ℕ → ℕ → ℕ → R
  invalid_rate none_yet latitude longitude velocity total_observations =
      if total_observations == 0
      then none_yet
      else rounded (latitude + longitude + velocity) total_observations
