-- ===== src/Replay/FaultInjection.antt =====
-- replay/fault_injection.py: what its scenarios share. Times are in milliseconds; what the network,
-- psutil and the clock give is a parameter, by the number of the round where a loop asks again.
pub mod Polling
pub mod ApiFailure
pub mod WorkerFailure
pub mod RedisFailure
use mathlib.Core.Option
use flight_pulse.Base.{
  ℕ, zero, suc, ◌+◌, ◌/◌, String, Bool, true, false, ◌&&◌, Option, none, some, List, [], ◌∷◌, ◌++◌,
  map, ltb, if◌then◌else◌, ◌==◌, contains, string_eq, nat_eq, option_eq, list_eq,
}
use flight_pulse.Base.Dict.{Dict, lookup}
use flight_pulse.Base.Format.{◌+++◌, decimal}
use flight_pulse.Base.Search.{ends_with}
use flight_pulse.Collector.Producer.{raises_for_status}

-- What `requests.get` and `resp.json()` do: the request raises, or there is a response with a
-- status whose body is JSON or is not.
pub data HttpReply (A : Type 0) : Type 0 where
  request_error : HttpReply A
  answered : ℕ → Option A → HttpReply A

unfoldable pub fetch_json : {A : Type 0} → HttpReply A → Option A
unfolding raises_for_status
fetch_json request_error = none
fetch_json (answered status body) = if raises_for_status status then none else body

-- A TCP connection of `psutil.net_connections`; the address may be empty, and the pid unknown.
pub record Connection : Type 0 where
  pub port : Option ℕ
  pub listening : Bool
  pub pid : Option ℕ

unfoldable pub listens_on : ℕ → Connection → Bool
listens_on port conn = conn.port == some port && conn.listening

unfoldable pub find_backend_pid : ℕ → List Connection → Option ℕ
unfolding listens_on
find_backend_pid port [] = none
find_backend_pid port (conn ∷ conns) =
    let rest = find_backend_pid port conns in
    elim conn.pid [ none ↦ rest | some pid ↦ if listens_on port conn then some pid else rest ]

-- What killing a process comes to: `sys.exit(1)`, an exception of psutil, or the pid.
pub data Killed : Type 0 where
  exited : Killed
  kill_raised : ℕ → Killed
  killed : ℕ → Killed

-- `raises pid` tells whether psutil raises for the process.
unfoldable pub kill_process : (ℕ → Bool) → ℕ → Killed
kill_process raises pid = if raises pid then kill_raised pid else killed pid

unfoldable pub kill_backend : ℕ → List Connection → (ℕ → Bool) → Killed
unfolding find_backend_pid kill_process
kill_backend port conns raises = elim (find_backend_pid port conns) [
  | none ↦ exited
  | some pid ↦ kill_process raises pid
]

-- The answer of /lb-status: its `backends`, where a missing key counts as an empty dict.
abbrev pub LbStatus : Type 0
LbStatus = Dict String String

-- `status` and its state of the backend, against the states waited for
unfoldable pub shows : String → List String → Option LbStatus → Bool
unfolding lookup
shows backend_url target_states none = false
shows backend_url target_states (some backends) = elim (lookup backend_url backends) [
  | none ↦ false
  | some state ↦ contains target_states state
]

-- A loop that waits: `test n` is the time since its start at the head of round n, and `end n` at
-- its return in that round.
pub record Clock : Type 0 where
  pub test : ℕ → ℕ
  pub end : ℕ → ℕ

-- What a loop ended with: an answer in a round, or the time being over at the head of one.
pub data Polled (A : Type 0) : Type 0 where
  found : A → ℕ → Polled A
  timed_out : ℕ → Polled A

-- `while time.monotonic() - start < timeout`, from round n on; nothing if the fuel is used up.
unfoldable pub poll : {A : Type 0} → ℕ → (ℕ → ℕ) → ℕ → (ℕ → Option A) → ℕ → Option (Polled A)
poll zero test timeout ask n = none
poll (suc fuel) test timeout ask n = elim (ltb (test n) timeout) [
  | false ↦ some (timed_out n)
  | true ↦ elim (ask n) [ some a ↦ some (found a n) | none ↦ poll fuel test timeout ask (n + 1) ]
]

-- RECOVERY_POLL_TIMEOUT_SECONDS and RECOVERY_POLL_INTERVAL_SECONDS
abbrev pub recovery_poll_timeout : ℕ
recovery_poll_timeout = 60000

abbrev pub recovery_poll_interval : ℕ
recovery_poll_interval = 2000

-- What one round of `wait_for_backend_state` finds.
abbrev pub sees : String → List String → HttpReply LbStatus → Option Bool
sees backend_url target_states reply =
    if shows backend_url target_states (fetch_json reply) then some true else none

unfoldable pub waited : Clock → Polled Bool → Bool × ℕ
waited clock (found _ n) = (true, clock.end n)
waited clock (timed_out n) = (false, clock.end n)

-- Each round sleeps for the interval, so this many rounds are enough.
unfoldable pub wait_for_backend_state :
    String → List String → ℕ → Clock → (ℕ → HttpReply LbStatus) → Option (Bool × ℕ)
unfolding fetch_json shows poll waited
wait_for_backend_state backend_url target_states timeout clock replies = Option.map (waited clock) (
    poll (suc (timeout / recovery_poll_interval + 1)) clock.test timeout
      (λ n. sees backend_url target_states (replies n)) 0)

-- The first configured URL that ends with `:` and the port.
unfoldable pub backend_of_port : ℕ → List String → Option String
unfolding ends_with decimal
backend_of_port port [] = none
backend_of_port port (url ∷ urls) =
    let rest = backend_of_port port urls in
    if ends_with (":" +++ decimal port) url then some url else rest
