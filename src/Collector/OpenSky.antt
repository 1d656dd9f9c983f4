-- ===== src/Collector/OpenSky.antt =====
-- collector/opensky_client.py. The two HTTP services and the clock are a parameter, by the number
-- of the attempt; times are in seconds, and an `expires_in` is not negative.
pub mod Attempts
pub mod Conclusions
pub mod Tokens
use mathlib.Core.Option
use flight_pulse.Base.{
  ℕ, zero, suc, ◌+◌, ◌-◌, String, Bool, false, not, ◌&&◌, Option, none, some, List, [], ◌∷◌, ltb,
  if◌then◌else◌, ◌==◌, string_eq, nat_eq, option_eq, list_eq,
}
use flight_pulse.Base.Result.{Result, ok, err}

abbrev pub token_refresh_margin_seconds : ℕ
token_refresh_margin_seconds = 30

pub record TokenManager : Type 0 where
  pub client_id : Option String
  pub client_secret : Option String
  pub token : Option String
  pub expires_at : Option ℕ

unfoldable pub new_token_manager : Option String → Option String → TokenManager
new_token_manager client_id client_secret = record {
  client_id = client_id;
  client_secret = client_secret;
  token = none;
  expires_at = none;
}

-- What `requests.post`, `raise_for_status`, reading the token response, or adding its lifetime to
-- the time raises.
pub data TokenError : Type 0 where
  request_failed bad_status bad_token_response bad_expires_in : TokenError

-- `expires_in` of a token response: it is missing, a number, or a value with which no time can be
-- computed, such as a text or null.
pub data Lifetime : Type 0 where
  no_expires_in no_lifetime : Lifetime
  in_seconds : ℕ → Lifetime

pub record TokenReply : Type 0 where
  pub access_token : String
  pub expires_in : Lifetime

-- `resp.headers.get("Retry-After")`: it is missing, a number, or other text, at which `int` raises.
pub data RetryAfter : Type 0 where
  no_retry_after not_a_number : RetryAfter
  after_seconds : ℕ → RetryAfter

-- `json` is `resp.json()`, nothing if that raises.
pub record Response (D : Type 0) : Type 0 where
  pub status_code : ℕ
  pub json : Option D
  pub retry_after : RetryAfter

-- `(lamin, lomin, lamax, lomax)`
abbrev pub Box : Type 0 → Type 0
Box F = F × F × F × F

-- `params` of a request: the keys `icao24`, and `lamin` to `lomax`.
pub record Query (F : Type 0) : Type 0 where
  pub icao24 : Option (List String)
  pub box : Option (Box F)

-- `if icao24`: an empty list is left out.
unfoldable pub query_of : {F : Type 0} → Option (List String) → Option (Box F) → Query F
query_of none bbox = record { icao24 = none; box = bbox }
query_of (some []) bbox = record { icao24 = none; box = bbox }
query_of (some (name ∷ names)) bbox = record { icao24 = some (name ∷ names); box = bbox }

-- What the network and the clock do in each attempt; a request is its parameters and the token it
-- carries, if any.
-- `states_reply` is nothing if `requests.get` raises.
pub record Network (D F : Type 0) : Type 0 where
  pub now : ℕ → ℕ
  pub token_reply : ℕ → Result TokenError TokenReply
  pub token_at : ℕ → ℕ
  pub states_reply : ℕ → Query F → Option String → Option (Response D)

-- `bool(text)` of an optional string
unfoldable pub is_set : Option String → Bool
is_set none = false
is_set (some s) = not (s == "")

unfoldable pub is_authenticated : TokenManager → Bool
unfolding is_set
is_authenticated m = is_set m.client_id && is_set m.client_secret

-- The guard of `get_token`; an expiry time is never false.
unfoldable pub has_valid_token : ℕ → TokenManager → Bool
unfolding is_set
has_valid_token now m =
    is_set m.token && elim m.expires_at [ none ↦ false | some expires_at ↦ ltb now expires_at ]

-- The seconds, nothing if they cannot be computed with.
unfoldable pub expires_in_seconds : TokenReply → Option ℕ
expires_in_seconds r = elim r.expires_in [
  | no_expires_in ↦ some 1800
  | no_lifetime ↦ none
  | in_seconds n ↦ some n
]

-- `_refresh`: the token or what is raised, and the manager. The token is set before the expiry time
-- is computed, so the old expiry time stays if that raises.
unfoldable pub refresh :
    Result TokenError TokenReply → ℕ → TokenManager → Result TokenError String × TokenManager
unfolding expires_in_seconds
refresh (err e) at m = (err e, m)
refresh (ok r) at m =
    let m' : TokenManager = record m { token = some r.access_token } in
    elim (expires_in_seconds r) [
      | none ↦ (err bad_expires_in, m')
      | some n ↦ (
        ok r.access_token,
        record m' { expires_at = some (at + n - token_refresh_margin_seconds) },
      )
    ]

-- A response without data: `None`.
pub data Fetched (D : Type 0) : Type 0 where
  states : D → Fetched D
  nothing bad_json bad_retry_after : Fetched D
  no_token : TokenError → Fetched D

-- A request of `get_states` and what came of it.
pub record Sent (D F : Type 0) : Type 0 where
  pub query : Query F
  pub bearer : Option String
  pub reply : Option (Response D)

-- `if not token`: an empty token is not sent.
unfoldable pub auth_headers : Option String → Option String
unfolding is_set
auth_headers token = if is_set token then token else none

-- What a response ends the loop with, or nothing: the loop goes on.
unfoldable pub conclude : {D : Type 0} → Bool → Option (Response D) → Option (Fetched D)
conclude more none = some nothing
conclude more (some r) =
    if r.status_code == 200
    then some (elim r.json [ some d ↦ states d | none ↦ bad_json ])
    else if r.status_code == 401 && more
    then none
    else if r.status_code == 429
    then some (elim r.retry_after [ not_a_number ↦ bad_retry_after | _ ↦ nothing ])
    else some nothing

module _ {D F : Type 0} (net : Network D F) where
  -- In attempt `i`. An anonymous client has no token.
  unfoldable pub get_token : ℕ → TokenManager → Result TokenError (Option String) × TokenManager
  unfolding is_authenticated has_valid_token refresh
  get_token i m =
      let (fresh, refreshed) = refresh (net.token_reply i) (net.token_at i) m in
      let requested : Result TokenError (Option String) × TokenManager =
        (elim fresh [ ok t ↦ ok (some t) | err e ↦ err e ], refreshed) in
      if not (is_authenticated m)
      then (ok none, m)
      else if has_valid_token (net.now i) m
      then (ok m.token, m)
      else requested

  -- The loop of `get_states`: `left` attempts are left, and the next is number `i`. The requests
  -- that it sends come first.
  unfoldable pub attempts :
      Query F → ℕ → ℕ → ℕ → TokenManager → List (Sent D F) × Fetched D × TokenManager
  unfolding get_token auth_headers conclude
  attempts query max_retries zero i m = ([], nothing, m)
  attempts query max_retries (suc left) i m =
      let (token, m') = get_token i m in
      elim token [
        | err e ↦ ([], no_token e, m')
        | ok t ↦
            let sent : Sent D F = record {
              query = query;
              bearer = auth_headers t;
              reply = net.states_reply i query (auth_headers t);
            } in
            let (later, result, m'') =
              attempts query max_retries left (i + 1) (record m' { token = none }) in
            elim (conclude (ltb i max_retries) sent.reply) [
              | some done ↦ (sent ∷ [], done, m')
              | none ↦ (sent ∷ later, result, m'')
            ]
      ]

  unfoldable pub get_states :
      Option (List String)
      → Option (Box F)
      → ℕ
      → TokenManager
      → List (Sent D F) × Fetched D × TokenManager
  unfolding attempts query_of
  get_states icao24 bbox max_retries m =
      attempts (query_of icao24 bbox) max_retries (max_retries + 1) 0 m
