-- ===== src/Collector/OpenSky/Conclusions.antt =====
-- How a response ends the loop of `get_states` of collector/opensky_client.py.
use flight_pulse.Base.{
  ℕ, ◌≡◌, ◌≢◌, Bool, true, Option, none, some, arith, string_eq, nat_eq, option_eq, list_eq,
}
use flight_pulse.Collector.OpenSky.{
  Response, Fetched, states, nothing, bad_json, bad_retry_after, no_token, conclude,
}

module _ {D : Type 0} where
  abbrev pub status_of : Option (Response D) → ℕ
  status_of none = 0
  status_of (some r) = r.status_code

  abbrev pub json_of : Option (Response D) → Option D
  json_of none = none
  json_of (some r) = r.json

  -- The answer to the last request of a call, against the result of the call.
  abbrev pub Ends : Fetched D → Option (Response D) → Type 0
  Ends (states d) reply = (status_of reply ≡ 200) × (json_of reply ≡ some d)
  Ends bad_json reply = (status_of reply ≡ 200) × (json_of reply ≡ none)
  Ends bad_retry_after reply = status_of reply ≡ 429
  Ends nothing reply = status_of reply ≢ 200
  Ends (no_token e) reply = status_of reply ≡ 401

  pub conclude-Ends :
      (more : Bool) (reply : Option (Response D)) (done : Fetched D)
      → conclude more reply ≡ some done
      → Ends done reply
  unfolding conclude
  conclude-Ends more none (states d) h = ground arith
  conclude-Ends more none nothing h = ground arith
  conclude-Ends more none bad_json h = ground arith
  conclude-Ends more none bad_retry_after h = ground arith
  conclude-Ends more none (no_token e) h = ground arith
  conclude-Ends more (some r) (states d) h = ground (
    arith,
    nat_eq.beq_iff r.status_code 200,
    nat_eq.beq_iff r.status_code 401,
    nat_eq.beq_iff r.status_code 429,
  )
  conclude-Ends more (some r) nothing h = ground (
    arith,
    nat_eq.beq_iff r.status_code 200,
    nat_eq.beq_iff r.status_code 401,
    nat_eq.beq_iff r.status_code 429,
  )
  conclude-Ends more (some r) bad_json h = ground (
    arith,
    nat_eq.beq_iff r.status_code 200,
    nat_eq.beq_iff r.status_code 401,
    nat_eq.beq_iff r.status_code 429,
  )
  conclude-Ends more (some r) bad_retry_after h = ground (
    arith,
    nat_eq.beq_iff r.status_code 200,
    nat_eq.beq_iff r.status_code 401,
    nat_eq.beq_iff r.status_code 429,
  )
  conclude-Ends more (some r) (no_token e) h = ground (
    arith,
    nat_eq.beq_iff r.status_code 200,
    nat_eq.beq_iff r.status_code 401,
    nat_eq.beq_iff r.status_code 429,
  )

  pub conclude_goes_on :
      (more : Bool) (reply : Option (Response D))
      → conclude more reply ≡ none
      → (more ≡ true) × (status_of reply ≡ 401)
  unfolding conclude
  conclude_goes_on more none h = absurd (cc)
  conclude_goes_on more (some r) h = ground (arith, nat_eq.beq_iff r.status_code 401)
