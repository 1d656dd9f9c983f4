-- ===== src/Replay/FaultInjection/WorkerFailure/Counting.antt =====
-- What `sum_newly_inserted_since` of replay/fault_injection.py counts, key by key.
use flight_pulse.Base.{
  ℕ, ◌+◌, ◌<◌, ◌≡◌, refl, ◌∙◌, inl, inr, Bool, true, not, Option, none, some, List, [], ◌∷◌, arith,
  leb, if◌then◌else◌, Bool-cases, Option-cases, string_eq, nat_eq, option_eq, list_eq,
}
use flight_pulse.Base.Dict.{or_zero}
use flight_pulse.Base.Sums.{sum}
use flight_pulse.Replay.FaultInjection.WorkerFailure.{
  FinishTime, untimed, datetime, number, StoredResult, Stored, unreadable, gone, stored,
  finished_before, counted, count_results, sum_newly_inserted_since,
}

module _ (timestamp : ℕ → ℕ) (since : ℕ) where
  -- The result has a finish time that is read as one before the start.
  abbrev pub IsStale : FinishTime → Type 0
  IsStale untimed = ⊥
  IsStale (datetime utc) = timestamp utc < since
  IsStale (number epoch) = epoch < since

  -- It has none, or one that is read as the start or later.
  abbrev is_new : FinishTime → Bool
  is_new untimed = true
  is_new (datetime utc) = leb since (timestamp utc)
  is_new (number epoch) = leb since epoch

  -- The rows that a key reports for a batch, if it holds a new result of a batch.
  abbrev pub news_of : Stored → Option ℕ
  news_of (stored result) = if is_new result.finish_time then result.newly_inserted else none
  news_of _ = none

  abbrev one_if : Option ℕ → ℕ
  one_if none = 0
  one_if (some _) = 1

  -- What a key adds to the jobs and to the rows.
  abbrev pub tally : Stored → ℕ
  tally key = one_if (news_of key)

  abbrev pub worth : Stored → ℕ
  worth key = or_zero (news_of key)

  new-finished_before :
      (finish_time : FinishTime)
      → finished_before timestamp since finish_time ≡ not (is_new finish_time)
  unfolding finished_before
  new-finished_before untimed = refl
  new-finished_before (datetime utc) = ground arith
  new-finished_before (number epoch) = ground arith

  counted-news_of :
      (result : StoredResult) → counted timestamp since result ≡ news_of (stored result)
  unfolding counted
  counted-news_of result =
      rw (new-finished_before result.finish_time) (elim (Bool-cases (is_new result.finish_time)) [
        | inl new ↦ rw new refl
        | inr old ↦ rw old refl
      ])

  count_results-sums :
      (keys : List Stored) (jobs total : ℕ)
      → let (jobs', total') = count_results timestamp since keys jobs total in
        (jobs' ≡ jobs + sum tally keys) × (total' ≡ total + sum worth keys)
  unfolding count_results
  count_results-sums [] jobs total = (omega arith, omega arith)
  count_results-sums (unreadable ∷ keys) jobs total =
      let (jobs_sum, total_sum) = count_results-sums keys jobs total in (omega arith, omega arith)
  count_results-sums (gone ∷ keys) jobs total =
      let (jobs_sum, total_sum) = count_results-sums keys jobs total in (omega arith, omega arith)
  count_results-sums (stored result ∷ keys) jobs total =
      let same = counted-news_of result in
      elim (Option-cases (news_of (stored result))) [
        | inl skipped ↦
            let (jobs_sum, total_sum) = count_results-sums keys jobs total in
            rw (count_results, same ∙ skipped, skipped) (omega arith, omega arith)
        | inr (n, new) ↦
            let (jobs_sum, total_sum) = count_results-sums keys (jobs + 1) (total + n) in
            rw (count_results, same ∙ new, new) (omega arith, omega arith)
      ]

  -- The jobs counted and the sum are those of the keys with a new result of a batch.
  pub sum_newly_inserted_since-sums :
      (keys : List Stored)
      → let (jobs, inserted) = sum_newly_inserted_since timestamp keys since in
        (jobs ≡ sum tally keys) × (inserted ≡ sum worth keys)
  unfolding sum_newly_inserted_since
  sum_newly_inserted_since-sums keys =
      let (jobs_sum, total_sum) = count_results-sums keys 0 0 in (omega arith, omega arith)
