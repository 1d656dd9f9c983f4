-- ===== src/Collector/Producer/Loop/Rounds.antt =====
-- The rounds of the loop of collector/producer.py, which share one token manager.
use flight_pulse.Base.{
  ℕ, ◌≤◌, String, ◌≡◌, ◌⊎◌, Option, none, List, [], ◌∷◌, All, length, string_eq, nat_eq, option_eq,
  list_eq,
}
use flight_pulse.Base.Result.{ok}
use flight_pulse.Collector.Normalizer.{States}
use flight_pulse.Collector.OpenSky.{Box, TokenReply, Fetched}
use flight_pulse.Collector.OpenSky.Attempts.{Chain}
use flight_pulse.Collector.OpenSky.Tokens.{AllUsable}
use flight_pulse.Collector.Producer.{Settings}
use flight_pulse.Collector.Producer.Reports.{Honest}
use flight_pulse.Collector.Producer.Loop.{Round, Ran, fetched_of}

module _ {F : Type 0} where
  -- The token service of one of the rounds has answered `r` at the time `at`.
  abbrev pub Granted : List (Round F) → TokenReply → ℕ → Type 0
  Granted [] r at = ⊥
  Granted (round ∷ past) r at =
      ((i : ℕ) × (round.net.token_reply i ≡ ok r) × (round.net.token_at i ≡ at)) ⊎ Granted past r at

module _ {F : Type 0} (settings : Settings) (bbox : Option (Box F))
    (exception_text : Fetched (States F) → String) where
  -- A round against the round's services, after the rounds `past`.
  abbrev pub Sound : List (Round F) → Round F → Ran F → Type 0
  Sound past round ran =
      (length ran.requests ≤ 2)
      × All (λ sent. sent.query ≡ record { icao24 = none; box = bbox }) ran.requests
      × Chain ran.fetched ran.requests
      × AllUsable (Granted (round ∷ past)) round.net 0 ran.requests
      × Honest settings round.stamps round.platform round.telemetry_reply
          (fetched_of settings bbox exception_text ran.fetched) (ran.result, ran.cycle)

  -- The rounds and what they did, one by one.
  abbrev pub AllSound : List (Round F) → List (Round F) → List (Ran F) → Type 0
  AllSound past [] [] = Unit
  AllSound past (round ∷ rounds) (ran ∷ rans) =
      Sound past round ran × AllSound (round ∷ past) rounds rans
  AllSound past _ _ = ⊥
