-- ===== src/Replay/FaultInjection/Polling.antt =====
-- The polling loops of replay/fault_injection.py come to an end, as each round sleeps.
use mathlib.Core.Option
use mathlib.Core.Path.{subst}
use native.Mathlib.Nat.{suc-mul}
use flight_pulse.Base.{
  ℕ, zero, suc, ◌+◌, ◌*◌, ◌/◌, ◌≤◌, ◌<◌, String, ◌≡◌, refl, sym, ap, ◌⊎◌, inl, inr, Bool, true,
  false, Option, none, some, List, arith, ltb, if◌then◌else◌, Bool-cases, Option-cases, ◌==◌,
  string_eq, nat_eq, option_eq, list_eq,
}
use flight_pulse.Replay.FaultInjection.{
  HttpReply, fetch_json, LbStatus, shows, Clock, Polled, found, timed_out, poll, sees, waited,
  wait_for_backend_state, recovery_poll_interval,
}

-- From one head of the loop to the next at least the interval passes.
abbrev pub Sleeps : ℕ → (ℕ → ℕ) → Type 0
Sleeps interval test = (n : ℕ) → test n + interval ≤ test (n + 1)

-- What holds of all rounds before n and of round n holds of those before n + 1.
pub one_more {ℓ} :
    (P : ℕ → Type ℓ) (n : ℕ) → ((m : ℕ) → m < n → P m) → P n → (m : ℕ) → m < n + 1 → P m
one_more P n below here m h = elim (Bool-cases (m == n)) [
  | inl same ↦ subst P (sym ((nat_eq.beq_iff m n).0 same)) here
  | inr other ↦ below m (ground (arith, nat_eq.beq_iff m n))
]

module _ {A : Type 0} (test : ℕ → ℕ) (timeout : ℕ) (ask : ℕ → Option A) where
  -- The rounds before n were in time and found nothing.
  abbrev pub Missed : ℕ → Type 0
  Missed n = (m : ℕ) → m < n → (test m < timeout) × (ask m ≡ none)

  abbrev pub Ended : Polled A → Type 0
  Ended (found a n) = Missed n × (test n < timeout) × (ask n ≡ some a)
  Ended (timed_out n) = Missed n × (timeout ≤ test n)

  abbrev Ends : ℕ → ℕ → Type 0
  Ends fuel n = (r : Polled A) × (poll fuel test timeout ask n ≡ some r) × Ended r

  -- A round ends the loop, or is in time and finds nothing.
  poll_round :
      (fuel n : ℕ) → Missed n → Ends (suc fuel) n ⊎ (ltb (test n) timeout ≡ true) × (ask n ≡ none)
  unfolding poll
  poll_round fuel n missed = elim (Bool-cases (ltb (test n) timeout)) [
    | inr over ↦ inl (timed_out n, rw (over, poll) refl, (missed, ground arith))
    | inl in_time ↦ elim (Option-cases (ask n)) [
      | inr (a, e) ↦ inl (found a n, rw (in_time, e, poll) refl, (missed, ground arith, e))
      | inl nothing ↦ inr (in_time, nothing)
    ]
  ]

  poll_from :
      (interval fuel n : ℕ)
      → Sleeps interval test
      → timeout ≤ test n + fuel * interval
      → Missed n
      → Ends (suc fuel) n
  unfolding poll
  poll_from interval zero n sleeps enough missed = elim (poll_round zero n missed) [
    | inl ends ↦ ends
    | inr (in_time, nothing) ↦ absurd (ground arith)
  ]
  poll_from interval (suc fuel) n sleeps enough missed = elim (poll_round (suc fuel) n missed) [
    | inl ends ↦ ends
    | inr (in_time, nothing) ↦
        let more : timeout ≤ test (n + 1) + fuel * interval =
          omega (arith, sleeps n, suc-mul fuel interval) in
        let (r, ran, ended) =
          poll_from interval fuel (n + 1) sleeps more (
            one_more (λ m. (test m < timeout) × (ask m ≡ none)) n missed (ground arith, nothing)) in
        (r, rw (in_time, nothing, poll) ran, ended)
  ]

  -- With a round more than the time has intervals the loop ends by its test or with an answer.
  pub poll-Ended :
      (interval fuel : ℕ)
      → Sleeps interval test
      → timeout ≤ fuel * interval
      → (r : Polled A) × (poll (suc fuel) test timeout ask 0 ≡ some r) × Ended r
  poll-Ended interval fuel sleeps enough =
      poll_from interval fuel 0 sleeps (omega arith) (λ m h. absurd (omega arith))

-- What `wait_for_backend_state` has seen when it returns.
abbrev pub Waits : String → List String → ℕ → Clock → (ℕ → HttpReply LbStatus) → Bool → ℕ → Type 0
Waits url targets timeout clock replies reached elapsed =
    (n : ℕ) × ((m : ℕ)
      → m < n
      → (clock.test m < timeout) × (shows url targets (fetch_json (replies m)) ≡ false))
    × (elapsed ≡ clock.end n)
    × (if reached
        then (clock.test n < timeout) × (shows url targets (fetch_json (replies n)) ≡ true)
        else timeout ≤ clock.test n)

abbrev if_seen : Bool → Option Bool
if_seen b = if b then some true else none

unseen : (b : Bool) → if_seen b ≡ none → b ≡ false
unseen true e = absurd (cc)
unseen false e = refl

seen : (b a : Bool) → if_seen b ≡ some a → b ≡ true
seen true a e = refl
seen false a e = absurd (cc)

-- If each round takes the two seconds that it sleeps, `wait_for_backend_state` returns, with the
-- time at its return. It says that the state was reached exactly if an answer of /lb-status, in a
-- round that began before the timeout, showed the backend in one of the states, and no earlier one
-- did; otherwise it has asked until the timeout and never saw that.
pub wait_for_backend_state-Waits :
    (url : String) (targets : List String) (timeout : ℕ) (clock : Clock)
    (replies : ℕ → HttpReply LbStatus)
    → Sleeps recovery_poll_interval clock.test
    → (reached : Bool) × (elapsed : ℕ) × (wait_for_backend_state url targets timeout clock replies
        ≡ some (reached, elapsed))
      × Waits url targets timeout clock replies reached elapsed
unfolding wait_for_backend_state waited
wait_for_backend_state-Waits url targets timeout clock replies sleeps =
    let ask : ℕ → Option Bool = λ n. sees url targets (replies n) in
    let (r, ran, ended) =
      poll-Ended clock.test timeout ask recovery_poll_interval (timeout / 2000 + 1) sleeps
        (omega arith) in
    answer r ran ended
  where
    answer :
        (r : Polled Bool)
        → poll (suc (timeout / 2000 + 1)) clock.test timeout (λ n. sees url targets (replies n)) 0
          ≡ some r
        → Ended clock.test timeout (λ n. sees url targets (replies n)) r
        → (reached : Bool) × (elapsed : ℕ) × (wait_for_backend_state url targets timeout clock
              replies
            ≡ some (reached, elapsed))
          × Waits url targets timeout clock replies reached elapsed
    answer (found a n) ran (missed, in_time, here) = (
      true,
      clock.end n,
      ap (Option.map (waited clock)) ran,
      (
        n,
        λ m h. ((missed m h).0, unseen (shows url targets (fetch_json (replies m))) (missed m h).1),
        refl,
        (in_time, seen (shows url targets (fetch_json (replies n))) a here),
      ),
    )
    answer (timed_out n) ran (missed, over) = (
      false,
      clock.end n,
      ap (Option.map (waited clock)) ran,
      (
        n,
        λ m h. ((missed m h).0, unseen (shows url targets (fetch_json (replies m))) (missed m h).1),
        refl,
        over,
      ),
    )
