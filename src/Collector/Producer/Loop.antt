-- ===== src/Collector/Producer/Loop.antt =====
-- The loop of collector/producer.py, as a finite number of rounds. What the services answer in a
-- round and the values of the clock and of uuid4 belong to the round.
pub mod Rounds
use mathlib.Core.Option
use flight_pulse.Base.{
  ℕ, zero, suc, ◌+◌, ◌-◌, ◌*◌, ◌/◌, ◌%◌, ◌^◌, ◌≤◌, ◌<◌, min, max, String, ◌≡◌, refl, sym, ap, ◌∙◌,
  ◌≢◌, ◌↔◌, ◌⊎◌, inl, inr, Bool, true, false, not, ◌&&◌, ◌||◌, Option, none, some, List, [], ◌∷◌,
  ◌++◌, map, arith, ltb, leb, if◌then◌else◌, Bool-cases, Option-cases, All, length, get_elem?, take,
  drop, length-append, take-append-drop, length-take, length-drop, length-map, filter, any, Eq,
  ◌==◌, beq_refl, contains, string_eq, nat_eq, option_eq, list_eq,
}
use flight_pulse.Base.Result.{Result, ok, err}
use flight_pulse.Collector.Normalizer.{States, NormalizeError, Platform}
use flight_pulse.Collector.OpenSky.{
  TokenManager, Box, new_token_manager, is_set, Network, Fetched, states, nothing, bad_json,
  bad_retry_after, no_token, Sent, get_states,
}
use flight_pulse.Collector.Producer.{
  PostReply, succeeds, LogEntry, Settings, Stamps, Cycle, run_once,
}

-- What `os.getenv(name) or None` makes of a variable.
unfoldable pub set_or_none : Option String → Option String
unfolding is_set
set_or_none variable = if is_set variable then variable else none

-- `build_client`, with OPENSKY_CLIENT_ID and OPENSKY_CLIENT_SECRET
unfoldable pub build_client : Option String → Option String → TokenManager
unfolding set_or_none new_token_manager
build_client client_id client_secret =
    new_token_manager (set_or_none client_id) (set_or_none client_secret)

-- The log entry that the ingestion service accepts, if any: a failure is only logged.
unfoldable pub send_extraction_log : {F : Type 0} → PostReply → LogEntry F → Option (LogEntry F)
unfolding succeeds
send_extraction_log reply entry = if succeeds reply then some entry else none

-- What the outside does in a round: the OpenSky services, and the replies to the two posts.
pub record Round (F : Type 0) : Type 0 where
  pub net : Network (States F) F
  pub platform : Platform F
  pub stamps : Stamps
  pub telemetry_reply : PostReply
  pub log_reply : PostReply

-- A round: the requests to OpenSky, what `get_states` and `run_once` return or raise, what is sent,
-- and the log entry that is accepted.
pub record Ran (F : Type 0) : Type 0 where
  pub requests : List (Sent (States F) F)
  pub fetched : Fetched (States F)
  pub result : Result NormalizeError ℕ
  pub cycle : Cycle F
  pub accepted_log : Option (LogEntry F)

-- `bbox` is BBOX, and `exception_text` is `str(exc)` of what `get_states` raises.
module _ {F : Type 0} (settings : Settings) (bbox : Option (Box F))
    (exception_text : Fetched (States F) → String) where
  -- What `run_once` sees of a call of `get_states`.
  unfoldable pub fetched_of : Fetched (States F) → Result String (Option (States F))
  fetched_of (states raw) = ok (some raw)
  fetched_of nothing = ok none
  fetched_of bad_json = err (exception_text bad_json)
  fetched_of bad_retry_after = err (exception_text bad_retry_after)
  fetched_of (no_token e) = err (exception_text (no_token e))

  -- `run_once`, with its call of `get_states`.
  unfoldable pub run_round : TokenManager → Round F → Ran F × TokenManager
  unfolding get_states fetched_of run_once send_extraction_log
  run_round m round =
      let (requests, fetched, m') = get_states round.net none bbox 1 m in
      let (result, cycle) =
        run_once settings round.stamps round.platform round.telemetry_reply (fetched_of fetched) in
      (
        record {
          requests = requests;
          fetched = fetched;
          result = result;
          cycle = cycle;
          accepted_log = elim cycle.extraction_log [
            | none ↦ none
            | some entry ↦ send_extraction_log round.log_reply entry
          ];
        },
        m',
      )

  -- The loop: an exception of a round ends that round only.
  unfoldable pub run_rounds : TokenManager → List (Round F) → List (Ran F)
  unfolding run_round
  run_rounds m [] = []
  run_rounds m (round ∷ rounds) = let (ran, m') = run_round m round in ran ∷ run_rounds m' rounds

  -- `run_forever`
  unfoldable pub run_forever : Option String → Option String → List (Round F) → List (Ran F)
  unfolding build_client run_rounds
  run_forever client_id client_secret rounds =
      run_rounds (build_client client_id client_secret) rounds
