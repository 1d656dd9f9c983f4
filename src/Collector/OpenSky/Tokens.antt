-- ===== src/Collector/OpenSky/Tokens.antt =====
-- The tokens that the requests of `get_states` of collector/opensky_client.py carry.
use flight_pulse.Base.{
  ℕ, zero, suc, ◌+◌, ◌-◌, ◌<◌, String, ◌≡◌, refl, ◌⊎◌, inl, inr, true, Option, none, some, List, [],
  ◌∷◌, arith, ltb, Bool-cases, Option-cases, string_eq, nat_eq, option_eq, list_eq,
}
use mathlib.Core.Path.{subst}
use flight_pulse.Base.Result.{Result, ok, result_cases}
use flight_pulse.Collector.OpenSky.{
  token_refresh_margin_seconds, TokenManager, TokenError, TokenReply, Box, Query, query_of, Network,
  is_set, is_authenticated, has_valid_token, expires_in_seconds, refresh, Sent, get_token,
  auth_headers, conclude, attempts, get_states,
}

-- `Granted r at`: the token service has answered `r` at the time `at`.
module _ (Granted : TokenReply → ℕ → Type 0) where
  -- The expiry time of a grant, with the margin.
  abbrev Until : TokenReply → ℕ → ℕ → Type 0
  Until r at expires_at =
      (n : ℕ) × (expires_in_seconds r ≡ some n)
      × (expires_at ≡ at + n - token_refresh_margin_seconds)

  -- An expiry time that goes with a token granted by `r` at `at`: its own, or if the response gave
  -- no lifetime, that of another grant.
  abbrev pub Expires : TokenReply → ℕ → ℕ → Type 0
  Expires r at expires_at =
      Until r at expires_at
      ⊎ ((expires_in_seconds r ≡ none)
          × ((r' : TokenReply) × (at' : ℕ) × Granted r' at' × Until r' at' expires_at))

  -- A token that a manager holds was granted, and an expiry time that it holds is that of a grant,
  -- the token's if that had a lifetime.
  abbrev pub Holds : TokenManager → Type 0
  Holds m =
      ((t : String)
        → m.token ≡ some t
        → (r : TokenReply) × (at : ℕ) × Granted r at
          × (t ≡ r.access_token)
          × ((e : ℕ) → m.expires_at ≡ some e → Expires r at e))
      × ((e : ℕ)
          → m.expires_at ≡ some e
          → (r : TokenReply) × (at : ℕ) × Granted r at × Until r at e)

  -- The token of a request in attempt `i`: it was granted, for this request or with an expiry time
  -- that is still ahead; the expiry time is its own or, if its response gave no lifetime, that of
  -- another grant.
  abbrev pub Usable : {D F : Type 0} → Network D F → ℕ → Option String → Type 0
  Usable net i none = Unit
  Usable net i (some t) =
      (r : TokenReply) × (at : ℕ) × Granted r at
      × (t ≡ r.access_token)
      × ((net.token_reply i ≡ ok r) ⊎ ((e : ℕ) × (net.now i < e) × Expires r at e))

  abbrev pub AllUsable : {D F : Type 0} → Network D F → ℕ → List (Sent D F) → Type 0
  AllUsable net i [] = Unit
  AllUsable net i (sent ∷ more) = Usable net i sent.bearer × AllUsable net (i + 1) more

  cleared-Holds : (m : TokenManager) → Holds m → Holds (record m { token = none })
  cleared-Holds m holds = (λ t h. absurd (cc), holds.1)

  -- After a refresh.
  refreshed-Holds :
      (r : TokenReply) (at n : ℕ) (m : TokenManager)
      → Granted r at
      → expires_in_seconds r ≡ some n
      → Holds (record m {
        token = some r.access_token;
        expires_at = some (at + n - token_refresh_margin_seconds);
      })
  refreshed-Holds r at n m granted lasts = (
    λ t h. (r, at, granted, ground arith, λ e known. inl (n, lasts, ground arith)),
    λ e known. (r, at, granted, (n, lasts, ground arith)),
  )

  -- After a refresh that raised once it had the token.
  unexpiring-Holds :
      (r : TokenReply) (at : ℕ) (m : TokenManager)
      → Granted r at
      → expires_in_seconds r ≡ none
      → Holds m
      → Holds (record m { token = some r.access_token })
  unexpiring-Holds r at m granted no_time holds =
      (λ t h. (r, at, granted, ground arith, λ e known. inr (no_time, holds.1 e known)), holds.1)

  Usable-auth_headers :
      {D F : Type 0} (net : Network D F) (i : ℕ) (t : Option String)
      → Usable net i t
      → Usable net i (auth_headers t)
  unfolding auth_headers
  Usable-auth_headers net i t usable = elim (Bool-cases (is_set t)) [
    | inl set ↦ rw set usable
    | inr not_set ↦ rw not_set tt
  ]

  valid_before :
      (now : ℕ) (m : TokenManager)
      → has_valid_token now m ≡ true
      → (e : ℕ) × (m.expires_at ≡ some e) × (now < e)
  unfolding has_valid_token
  valid_before now m valid = elim (Option-cases m.expires_at) [
    | inl missing ↦ absurd (ground (arith, missing))
    | inr (e, known) ↦ (e, known, ground (arith, known))
  ]

  held-Usable :
      {D F : Type 0} (net : Network D F) (i : ℕ) (m : TokenManager) (t : Option String)
      → Holds m
      → has_valid_token (net.now i) m ≡ true
      → m.token ≡ t
      → Usable net i t
  held-Usable net i m none holds valid h = tt
  held-Usable net i m (some t) holds valid h =
      let (r, at, granted, same, expires) = holds.0 t h in
      let (e, known, ahead) = valid_before (net.now i) m valid in
      (r, at, granted, same, inr (e, ahead, expires e known))

module _ {D F : Type 0} (Granted : TokenReply → ℕ → Type 0) (net : Network D F)
    (grants : (i : ℕ) (r : TokenReply)
      → net.token_reply i ≡ ok r
      → Granted r (net.token_at i)) where
  got_token :
      (i : ℕ) (t t' : Option String)
      → ◌≡◌ {A = Result TokenError (Option String)} (ok t) (ok t')
      → Usable Granted net i t
      → Usable Granted net i t'
  got_token i t t' h usable = let same : t ≡ t' = cc in subst (Usable Granted net i) same usable

  get_token-Usable :
      (i : ℕ) (m : TokenManager)
      → Holds Granted m
      → Holds Granted (get_token net i m).1
        × ((t : Option String) → (get_token net i m).0 ≡ ok t → Usable Granted net i t)
  unfolding get_token refresh
  get_token-Usable i m holds = elim (Bool-cases (is_authenticated m)) [
    | inr anonymous ↦ rw (anonymous, get_token) (holds, λ t h. got_token i none t h tt)
    | inl known ↦ elim (Bool-cases (has_valid_token (net.now i) m)) [
      | inl valid ↦
          let usable = held-Usable Granted net i m m.token holds valid refl in
          rw (known, get_token, valid) (holds, λ t h. got_token i m.token t h usable)
      | inr stale ↦ elim (result_cases (net.token_reply i)) [
        | inr (e, failed) ↦ rw (known, get_token, stale, failed) (holds, λ t h. absurd (cc))
        | inl (r, replied) ↦
            let granted = grants i r replied in
            elim (Option-cases (expires_in_seconds r)) [
              | inl no_time ↦
                  rw (known, get_token, stale, replied, refresh, no_time)
                    (
                      unexpiring-Holds Granted r (net.token_at i) m granted no_time holds,
                      λ t h. absurd (cc),
                    )
              | inr (n, lasts) ↦
                  rw (known, get_token, stale, replied, refresh, lasts)
                    (
                      refreshed-Holds Granted r (net.token_at i) n m granted lasts,
                      λ t h.
                          got_token i (some r.access_token) t h
                            (r, net.token_at i, granted, refl, inl replied),
                    )
            ]
      ]
    ]
  ]

  loop :
      (query : Query F) (max_retries left i : ℕ) (m : TokenManager)
      → Holds Granted m
      → AllUsable Granted net i (attempts net query max_retries left i m).0
        × Holds Granted (attempts net query max_retries left i m).2
  unfolding attempts
  loop query max_retries zero i m holds = (tt, holds)
  loop query max_retries (suc left) i m holds =
      let (token, m') = get_token net i m in
      let (holds', usable) = get_token-Usable i m holds in
      elim (result_cases (get_token net i m).0) [
        | inr (e, failed) ↦ rw (failed, attempts) (tt, holds')
        | inl (t, got) ↦
            let sendable = Usable-auth_headers Granted net i t (usable t got) in
            let reply = net.states_reply i query (auth_headers t) in
            let cleared : TokenManager = record m' { token = none } in
            let (later, kept) =
              loop query max_retries left (i + 1) cleared (cleared-Holds Granted m' holds') in
            elim (Option-cases (conclude (ltb i max_retries) reply)) [
              | inr (done, ends) ↦ rw (got, ends, attempts) ((sendable, tt), holds')
              | inl goes_on ↦ rw (got, goes_on, attempts) ((sendable, later), kept)
            ]
      ]

  pub get_states-Usable :
      (icao24 : Option (List String)) (bbox : Option (Box F)) (max_retries : ℕ) (m : TokenManager)
      → Holds Granted m
      → AllUsable Granted net 0 (get_states net icao24 bbox max_retries m).0
        × Holds Granted (get_states net icao24 bbox max_retries m).2
  unfolding get_states
  get_states-Usable icao24 bbox max_retries m holds =
      loop (query_of icao24 bbox) max_retries (max_retries + 1) 0 m holds
