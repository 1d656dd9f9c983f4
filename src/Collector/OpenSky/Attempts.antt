-- ===== src/Collector/OpenSky/Attempts.antt =====
-- The requests of `get_states` of collector/opensky_client.py.
use mathlib.Core.Path.{subst}
use flight_pulse.Base.{
  ℕ, zero, suc, ◌+◌, ◌≤◌, ◌<◌, String, ◌≡◌, refl, sym, ap, inl, inr, true, false, Option, none,
  some, List, [], ◌∷◌, arith, ltb, Bool-cases, Option-cases, length, drop, All, string_eq, nat_eq,
  option_eq, list_eq,
}
use flight_pulse.Base.Result.{ok, err, result_cases}
use flight_pulse.Collector.OpenSky.Conclusions.{status_of, Ends, conclude-Ends, conclude_goes_on}
use flight_pulse.Collector.OpenSky.{
  TokenManager, TokenError, bad_expires_in, expires_in_seconds, TokenReply, Box, Query, query_of,
  Network, is_authenticated, has_valid_token, refresh, Fetched, no_token, Sent, get_token,
  auth_headers, conclude, attempts, get_states, is_set,
}

module _ {D F : Type 0} where
  -- Every request but the last was answered 401.
  abbrev pub Chain : Fetched D → List (Sent D F) → Type 0
  Chain result [] = (e : TokenError) × (result ≡ no_token e)
  Chain result (sent ∷ []) = Ends result sent.reply
  Chain result (sent ∷ next ∷ more) = (status_of sent.reply ≡ 401) × Chain result (next ∷ more)

  Chain-cons :
      (result : Fetched D) (sent : Sent D F) (later : List (Sent D F))
      → status_of sent.reply ≡ 401
      → Chain result later
      → Chain result (sent ∷ later)
  Chain-cons result sent [] unauthorized (e, h) =
      subst (λ r. Ends r sent.reply) (sym h) unauthorized
  Chain-cons result sent (next ∷ more) unauthorized chain = (unauthorized, chain)

module _ {D F : Type 0} (net : Network D F) where
  -- The token of a request that is made after a 401, in attempt `i`.
  abbrev Fresh : ℕ → Option String → Type 0
  Fresh i bearer =
      (r : TokenReply) × (net.token_reply i ≡ ok r) × (bearer ≡ auth_headers (some r.access_token))

  abbrev pub Renewed : ℕ → List (Sent D F) → Type 0
  Renewed i [] = Unit
  Renewed i (sent ∷ more) = Fresh i sent.bearer × Renewed (i + 1) more

  abbrev pub Legal :
      Query F → ℕ → ℕ → TokenManager → List (Sent D F) × Fetched D × TokenManager → Type 0
  Legal query left i m (sents, result, m') =
      (length sents ≤ left)
      × All (λ sent. sent.query ≡ query) sents
      × Chain result sents
      × (is_authenticated m ≡ true → Renewed (i + 1) (drop 1 sents))
      × (is_authenticated m ≡ true → m.token ≡ none → Renewed i sents)

  cleared_known :
      (m : TokenManager)
      → is_authenticated m ≡ true
      → is_authenticated (record m { token = none }) ≡ true
  unfolding is_authenticated
  cleared_known m known = known

  no_valid_token : (now : ℕ) (m : TokenManager) → m.token ≡ none → has_valid_token now m ≡ false
  unfolding has_valid_token is_set
  no_valid_token now m h = rw h refl

  -- What `get_token` does in attempt `i`: an authenticated client stays so, and asks for a token if
  -- it has none.
  renewed_token :
      (i : ℕ) (m : TokenManager) (t : Option String)
      → (get_token net i m).0 ≡ ok t
      → is_authenticated m ≡ true
      → (is_authenticated (get_token net i m).1 ≡ true)
        × (m.token ≡ none → Fresh i (auth_headers t))
  unfolding get_token is_authenticated refresh is_set
  renewed_token i m t got known = elim (Bool-cases (has_valid_token (net.now i) m)) [
    | inl valid ↦ (
      rw (known, get_token, valid) known,
      λ no_token. absurd (ground (arith, no_valid_token (net.now i) m no_token)),
    )
    | inr stale ↦ elim (result_cases (net.token_reply i)) [
      | inr (e, failed) ↦
          let none_got : (get_token net i m).0 ≡ err e =
            rw (known, get_token, stale, failed) refl in
          absurd (cc)
      | inl (r, replied) ↦ elim (Option-cases (expires_in_seconds r)) [
        | inl no_time ↦
            let none_got : (get_token net i m).0 ≡ err bad_expires_in =
              rw (known, get_token, stale, replied, refresh, no_time) refl in
            absurd (cc)
        | inr (n, lasts) ↦
            let new_token : (get_token net i m).0 ≡ ok (some r.access_token) =
              rw (known, get_token, stale, replied, refresh, lasts) refl in
            let same : t ≡ some r.access_token = cc in
            (
              rw (known, get_token, stale, replied, refresh, lasts) known,
              λ _. (r, replied, ap auth_headers same),
            )
      ]
    ]
  ]

  loop :
      (query : Query F) (max_retries left i : ℕ) (m : TokenManager)
      → i + left ≡ max_retries + 1
      → 0 < left
      → Legal query left i m (attempts net query max_retries left i m)
  unfolding attempts
  loop query max_retries zero i m bound h = absurd (omega arith)
  loop query max_retries (suc left) i m bound h =
      let (token, m') = get_token net i m in
      elim (result_cases (get_token net i m).0) [
        | inr (e, failed) ↦ rw (failed, attempts) (omega arith, tt, (e, refl), λ _. tt, λ _ _. tt)
        | inl (t, got) ↦
            let bearer = auth_headers t in
            let reply = net.states_reply i query bearer in
            let renewed = renewed_token i m t got in
            elim (Option-cases (conclude (ltb i max_retries) reply)) [
              | inr (done, ends) ↦
                  rw (got, ends, attempts)
                    (
                      omega arith,
                      (refl, tt),
                      conclude-Ends (ltb i max_retries) reply done ends,
                      λ _. tt,
                      λ known clean. ((renewed known).1 clean, tt),
                    )
              | inl goes_on ↦
                  let (again, unauthorized) = conclude_goes_on (ltb i max_retries) reply goes_on in
                  let cleared : TokenManager = record m' { token = none } in
                  let (few, same, chain, _, fresh) =
                    loop query max_retries left (i + 1) cleared (omega arith) (ground arith) in
                  let result = (attempts net query max_retries left (i + 1) cleared).1 in
                  let later = (attempts net query max_retries left (i + 1) cleared).0 in
                  let sent : Sent D F = record { query = query; bearer = bearer; reply = reply } in
                  rw (got, goes_on, attempts)
                    (
                      omega arith,
                      (refl, same),
                      Chain-cons result sent later unauthorized chain,
                      λ known. fresh (cleared_known m' (renewed known).0) refl,
                      λ known clean. (
                        (renewed known).1 clean,
                        fresh (cleared_known m' (renewed known).0) refl,
                      ),
                    )
            ]
      ]

  -- A call of `get_states`, whatever the services answer: it sends at most `max_retries + 1`
  -- requests, all with the parameters of the call, and all but the last are answered 401. Data is returned only if the last request is
  -- answered 200 with it, None only if it is not answered 200, and an exception is raised only for
  -- a 200 without JSON, a 429, or a failed token request after a 401 or before any request. An
  -- authenticated client sends each request after a 401 with the token it got for that request, and
  -- the first one too if it holds no token.
  pub get_states-Legal :
      (icao24 : Option (List String)) (bbox : Option (Box F)) (max_retries : ℕ) (m : TokenManager)
      → Legal
          (query_of icao24 bbox)
          (max_retries + 1)
          0
          m
          (get_states net icao24 bbox max_retries m)
  unfolding get_states
  get_states-Legal icao24 bbox max_retries m =
      loop (query_of icao24 bbox) max_retries (max_retries + 1) 0 m (omega arith) (omega arith)
