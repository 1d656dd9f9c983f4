-- ===== src/LoadBalancer/Health/Invariant.antt =====
-- The invariant of load_balancer/health.py under each method, and what `healthy_backends` returns.
use flight_pulse.Base.{
  ℕ, ◌+◌, ◌≤◌, ◌<◌, max, String, ◌≡◌, refl, inl, inr, Bool, false, Option, none, some, List, [],
  ◌∷◌, arith, leb, if◌then◌else◌, Bool-cases, Option-cases, ◌==◌, contains, string_eq, nat_eq,
}
use flight_pulse.Base.Dict.{Dict, lookup, insert, lookup-insert, NodupKeys, insert-NodupKeys}
use flight_pulse.LoadBalancer.Health.{
  BackendState, healthy, unhealthy, recovering, is_healthy, HealthChecker, from_keys, new_checker,
  put_state, count_pass, on_pass, observe, mark_unhealthy, get_state, healthy_keys,
  healthy_backends,
}

-- What the two dicts say of one backend: the counter runs while it recovers, below the number of
-- passes that makes it healthy again, and is 0 otherwise.
abbrev pub Agrees : ℕ → Option BackendState → Option ℕ → Type 0
Agrees required none none = Unit
Agrees required (some recovering) (some n) = (1 ≤ n) × (n < max 2 required)
Agrees required (some _) (some n) = n ≡ 0
Agrees required _ _ = ⊥

pub record IsValid (h : HealthChecker) : Type 0 where
  pub distinct : NodupKeys h.state
  pub agrees :
      (url : String)
      → Agrees h.recoveries_required (lookup url h.state) (lookup url h.consecutive_passes)

-- A method that raised has written nothing; one that returned keeps the invariant.
abbrev pub Keeps : Option HealthChecker → Type 0
Keeps none = Unit
Keeps (some h) = IsValid h

Agrees-put :
    (url u : String) (s : BackendState) (n : ℕ) (h : HealthChecker)
    → IsValid h
    → Agrees h.recoveries_required (some s) (some n)
    → Agrees h.recoveries_required
        (lookup u (put_state url s n h).state)
        (lookup u (put_state url s n h).consecutive_passes)
unfolding put_state
Agrees-put url u s n h v a =
    rw (lookup-insert u url s h.state, lookup-insert u url n h.consecutive_passes)
      (elim (Bool-cases (u == url)) [ inl same ↦ rw same a | inr other ↦ rw other (v.agrees u) ])

pub put_state-IsValid :
    (url : String) (s : BackendState) (n : ℕ) (h : HealthChecker)
    → IsValid h
    → Agrees h.recoveries_required (some s) (some n)
    → IsValid (put_state url s n h)
unfolding put_state
put_state-IsValid url s n h v a = record {
  distinct = insert-NodupKeys url s h.state v.distinct;
  agrees = λ u. unfold put_state in Agrees-put url u s n h v a;
}

-- The counter of a recovering backend goes up by one.
Agrees-count :
    (url u : String) (n : ℕ) (h : HealthChecker)
    → IsValid h
    → lookup url h.state ≡ some recovering
    → 1 ≤ n
    → n < h.recoveries_required
    → Agrees h.recoveries_required (lookup u h.state) (lookup u (insert url n h.consecutive_passes))
Agrees-count url u n h v is pos below =
    rw (lookup-insert u url n h.consecutive_passes) (elim (Bool-cases (u == url)) [
      | inl same ↦ rw (same, (string_eq.beq_iff u url).0 same, is) (pos, omega arith)
      | inr other ↦ rw other (v.agrees u)
    ])

count_pass-IsValid :
    (url : String) (n : ℕ) (h : HealthChecker)
    → IsValid h
    → lookup url h.state ≡ some recovering
    → 1 ≤ n
    → IsValid (count_pass url n h)
unfolding count_pass
count_pass-IsValid url n h v is pos = elim (Bool-cases (leb h.recoveries_required n)) [
  | inl enough ↦ rw enough (put_state-IsValid url healthy 0 h v refl)
  | inr more ↦ rw more (record {
    distinct = v.distinct;
    agrees = λ u. Agrees-count url u n h v is pos (ground arith);
  })
]

on_pass-Keeps :
    (s : BackendState) (url : String) (h : HealthChecker)
    → IsValid h
    → lookup url h.state ≡ some s
    → Keeps (on_pass s url h)
unfolding on_pass
on_pass-Keeps healthy url h v is = v
on_pass-Keeps unhealthy url h v is =
    put_state-IsValid url recovering 1 h v (omega arith, omega arith)
on_pass-Keeps recovering url h v is = elim (Option-cases (lookup url h.consecutive_passes)) [
  | inl missing ↦ rw missing tt
  | inr (n, e) ↦ rw e (count_pass-IsValid url (n + 1) h v is (omega arith))
]

-- The part of `_check_one` under the lock raises and writes nothing, or keeps the invariant.
pub observe-Keeps :
    (url : String) (passed : Bool) (h : HealthChecker) → IsValid h → Keeps (observe url passed h)
unfolding observe
observe-Keeps url passed h v = elim (Option-cases (lookup url h.state)) [
  | inl missing ↦ rw (missing, observe, Keeps) tt
  | inr (s, e) ↦
      rw (e, observe, Keeps)
        (elim (Bool-cases passed) [
          | inl pass ↦ rw pass (on_pass-Keeps s url h v e)
          | inr fail ↦ rw fail (put_state-IsValid url unhealthy 0 h v refl)
        ])
]

pub mark_unhealthy-Keeps :
    (url : String) (h : HealthChecker) → IsValid h → Keeps (mark_unhealthy url h)
unfolding mark_unhealthy
mark_unhealthy-Keeps url h v = elim (Option-cases (lookup url h.state)) [
  | inl missing ↦ rw missing tt
  | inr (s, e) ↦ rw e (put_state-IsValid url unhealthy 0 h v refl)
]

module _ {V : Type 0} (v : V) where
  pub from_keys-NodupKeys :
      (urls : List String) (d : Dict String V) → NodupKeys d → NodupKeys (from_keys v urls d)
  from_keys-NodupKeys [] d h = h
  from_keys-NodupKeys (url ∷ urls) d h =
      from_keys-NodupKeys urls (insert url v d) (insert-NodupKeys url v d h)

  pub lookup-from_keys :
      (us : List String) (d : Dict String V) (url : String)
      → lookup url (from_keys v us d) ≡ (if contains us url then some v else lookup url d)
  lookup-from_keys [] d url = refl
  lookup-from_keys (u ∷ us) d url =
      ground (arith, lookup-from_keys us (insert u v d) url, lookup-insert url u v d)

pub new_checker-IsValid : (urls : List String) (required : ℕ) → IsValid (new_checker urls required)
unfolding new_checker lookup
new_checker-IsValid urls required = record {
  distinct = from_keys-NodupKeys healthy urls [] tt;
  agrees = λ u.
      rw (lookup-from_keys healthy urls [] u, lookup-from_keys {V = ℕ} 0 urls [] u)
        (elim (Bool-cases (contains urls u)) [
          | inl known ↦ rw known refl
          | inr unknown ↦ rw unknown tt
        ]);
}

-- `state == HEALTHY` on a lookup.
abbrev pub found_healthy : Option BackendState → Bool
found_healthy none = false
found_healthy (some s) = is_healthy s

contains-healthy_keys :
    (d : Dict String BackendState) (url : String)
    → NodupKeys d
    → contains (healthy_keys d) url ≡ found_healthy (lookup url d)
unfolding healthy_keys lookup
contains-healthy_keys [] url u = refl
contains-healthy_keys ((k, s) ∷ d) url u =
    ground (arith, contains-healthy_keys d url u.1, string_eq.beq_iff url k)

-- In a checker that meets the invariant, exactly the backends whose state is healthy are listed.
pub contains-healthy_backends :
    (h : HealthChecker) (url : String)
    → IsValid h
    → contains (healthy_backends h) url ≡ found_healthy (get_state url h)
unfolding healthy_backends get_state
contains-healthy_backends h url v = contains-healthy_keys h.state url v.distinct
