-- ===== src/Replay/FaultInjection/ApiFailure/Targets.antt =====
-- The backend that the API scenario of replay/fault_injection.py kills: its process and its URL.
use mathlib.Core.Path.{subst}
use flight_pulse.Base.{
  ℕ, String, ◌≡◌, refl, sym, ap, ◌↔◌, ◌⊎◌, inl, inr, true, false, Option, none, some, List, [], ◌∷◌,
  arith, Bool-cases, Option-cases, All, string_eq, nat_eq, option_eq, list_eq,
}
use flight_pulse.Base.Format.{◌+++◌, decimal}
use flight_pulse.Base.Search.{ends_with, ends_with-append, append-ends_with}
use flight_pulse.Replay.FaultInjection.{Connection, listens_on, find_backend_pid, backend_of_port}

module _ (port : ℕ) where
  -- The connection tells that the process listens on the port.
  abbrev pub Listens : Connection → ℕ → Type 0
  Listens conn pid = (conn.port ≡ some port) × (conn.listening ≡ true) × (conn.pid ≡ some pid)

  abbrev pub Silent : Connection → Type 0
  Silent conn = (pid : ℕ) → Listens conn pid → ⊥

  -- The process is that of the first connection that tells of one.
  abbrev pub FirstListener : List Connection → ℕ → Type 0
  FirstListener [] pid = ⊥
  FirstListener (conn ∷ conns) pid = Listens conn pid ⊎ (Silent conn × FirstListener conns pid)

  abbrev Finds : List Connection → Option ℕ → Type 0
  Finds conns none = All Silent conns
  Finds conns (some pid) = FirstListener conns pid

  hears_port :
      (conn : Connection)
      → (listens_on port conn ≡ true) ↔ ((conn.port ≡ some port) × (conn.listening ≡ true))
  unfolding listens_on
  hears_port conn = (λ h. ground arith, λ (p, l). ground arith)

  passed_over :
      (conn : Connection) (conns : List Connection) (r : Option ℕ)
      → Silent conn
      → Finds conns r
      → Finds (conn ∷ conns) r
  passed_over conn conns none silent finds = (silent, finds)
  passed_over conn conns (some pid) silent finds = inr (silent, finds)

  find_backend_pid-Finds : (conns : List Connection) → Finds conns (find_backend_pid port conns)
  unfolding find_backend_pid
  find_backend_pid-Finds [] = tt
  find_backend_pid-Finds (conn ∷ conns) =
      let rest = find_backend_pid port conns in
      let later = find_backend_pid-Finds conns in
      let (to, from) = hears_port conn in
      elim (Option-cases conn.pid) [
        | inl unknown ↦
            let e : find_backend_pid port (conn ∷ conns) ≡ rest =
              rw (find_backend_pid, unknown) refl in
            subst (Finds (conn ∷ conns)) (sym e)
              (passed_over conn conns rest (λ pid (p, l, known). absurd (cc)) later)
        | inr (pid, known) ↦ elim (Bool-cases (listens_on port conn)) [
          | inl hears ↦
              let (p, l) = to hears in
              let e : find_backend_pid port (conn ∷ conns) ≡ some pid =
                rw (find_backend_pid, known, hears) refl in
              subst (Finds (conn ∷ conns)) (sym e) (inl (p, l, known))
          | inr deaf ↦
              let e : find_backend_pid port (conn ∷ conns) ≡ rest =
                rw (find_backend_pid, known, deaf) refl in
              let silent : Silent conn =
                λ other (p, l, _). (let hears = from (p, l) in absurd (cc)) in
              subst (Finds (conn ∷ conns)) (sym e) (passed_over conn conns rest silent later)
        ]
      ]

  pub no_listener :
      (conns : List Connection) → find_backend_pid port conns ≡ none → All Silent conns
  no_listener conns e = subst (Finds conns) e (find_backend_pid-Finds conns)

  pub first_listener :
      (conns : List Connection) (pid : ℕ)
      → find_backend_pid port conns ≡ some pid
      → FirstListener conns pid
  first_listener conns pid e = subst (Finds conns) e (find_backend_pid-Finds conns)

  -- The URL ends with a colon and the port.
  abbrev HasPort : String → Type 0
  HasPort url = (host : String) × (url ≡ host +++ ":" +++ decimal port)

  abbrev pub NoPort : String → Type 0
  NoPort url = HasPort url → ⊥

  -- The first URL that does.
  abbrev pub FirstWithPort : List String → String → Type 0
  FirstWithPort [] url = ⊥
  FirstWithPort (u ∷ urls) url = ((u ≡ url) × HasPort u) ⊎ (NoPort u × FirstWithPort urls url)

  abbrev Picks : List String → Option String → Type 0
  Picks urls none = All NoPort urls
  Picks urls (some url) = FirstWithPort urls url

  other_port : (u : String) → ends_with (":" +++ decimal port) u ≡ false → NoPort u
  other_port u other (host, same) =
      let ends = append-ends_with (":" +++ decimal port) host in
      let here = ap (ends_with (":" +++ decimal port)) same in absurd (cc)

  backend_of_port-Picks : (urls : List String) → Picks urls (backend_of_port port urls)
  unfolding backend_of_port
  backend_of_port-Picks [] = tt
  backend_of_port-Picks (u ∷ urls) =
      let later = backend_of_port-Picks urls in
      elim (Bool-cases (ends_with (":" +++ decimal port) u)) [
        | inl ends ↦
            rw (backend_of_port, ends) (inl (refl, ends_with-append (":" +++ decimal port) u ends))
        | inr other ↦
            rw (backend_of_port, other)
              (next u urls (backend_of_port port urls) (other_port u other) later)
      ]
    where
      next :
          (u : String) (urls : List String) (r : Option String)
          → NoPort u
          → Picks urls r
          → Picks (u ∷ urls) r
      next u urls none no_port picks = (no_port, picks)
      next u urls (some url) no_port picks = inr (no_port, picks)

  pub no_backend : (urls : List String) → backend_of_port port urls ≡ none → All NoPort urls
  no_backend urls e = subst (Picks urls) e (backend_of_port-Picks urls)

  pub first_with_port :
      (urls : List String) (url : String)
      → backend_of_port port urls ≡ some url
      → FirstWithPort urls url
  first_with_port urls url e = subst (Picks urls) e (backend_of_port-Picks urls)
