-- ===== src/Collector/Normalizer/Fields.antt =====
-- The names that collector/normalizer.py gives to the positions of a state vector.
use flight_pulse.Base.{
  ℕ, zero, suc, String, ◌≡◌, refl, Bool, true, false, not, ◌&&◌, none, some, List, [], ◌∷◌, arith,
  get_elem?, ◌==◌, string_eq, nat_eq, option_eq, list_eq,
}
use flight_pulse.Base.Dict.{lookup}
use flight_pulse.Collector.Normalizer.{Value, null, StateVector, state_vector_fields, zip, field}

-- The value at a position, null beyond the end.
abbrev pub value_at : {F : Type 0} → StateVector F → ℕ → Value F
value_at state k = elim (get_elem? state k) [ none ↦ null | some v ↦ v ]

-- The name is at the position, and not before.
abbrev first_at : ℕ → String → List String → Bool
first_at k name [] = false
first_at zero name (x ∷ names) = name == x
first_at (suc k) name (x ∷ names) = not (name == x) && first_at k name names

lookup-zip :
    {F : Type 0} (k : ℕ) (name : String) (names : List String) (state : StateVector F)
    → first_at k name names ≡ true
    → lookup name (zip names state) ≡ get_elem? state k
unfolding lookup
lookup-zip k name [] state h = absurd (cc)
lookup-zip zero name (x ∷ names) [] h = refl
lookup-zip zero name (x ∷ names) (v ∷ state) h = rw h refl
lookup-zip (suc k) name (x ∷ names) [] h = refl
lookup-zip (suc k) name (x ∷ names) (v ∷ state) h = ground (arith, lookup-zip k name names state)

pub field-value_at :
    {F : Type 0} (state : StateVector F) (k : ℕ) (name : String)
    → first_at k name state_vector_fields ≡ true
    → field state name ≡ value_at state k
unfolding field lookup
field-value_at state k name h = rw (lookup-zip k name state_vector_fields state h) refl
