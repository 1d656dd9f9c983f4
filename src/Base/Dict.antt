-- ===== src/Base/Dict.antt =====
-- A Python dict: its entries in the order of insertion. A write to a key that is there keeps its
-- place.
use Prim.Native.Nat.{ℕ, ◌+◌}
use mathlib.Core.Path.{◌≡◌, refl}
use mathlib.Core.Option.{Option, none, some}
use mathlib.Core.List.{List, [], ◌∷◌}
use native.Mathlib.Omega.{arith}
use flight_pulse.Base.Tests.{if◌then◌else◌}
use flight_pulse.Base.Equality.{Eq, ◌==◌}

abbrev pub Dict {ℓ κ} : Type ℓ → Type κ → Type (ℓ ⊔ κ)
Dict K V = List (K × V)

abbrev pub keys {ℓ κ} : {K : Type ℓ} {V : Type κ} → Dict K V → List K
keys [] = []
keys ((k, _) ∷ d) = k ∷ keys d

-- Stuck calls of it are values by which other components count.
abbrev pub or_zero : Option ℕ → ℕ
or_zero none = 0
or_zero (some n) = n

module _ {ℓ κ} {K : Type ℓ} {V : Type κ} ⦃e : Eq K⦄ where
  unfoldable pub lookup : K → Dict K V → Option V
  lookup k [] = none
  lookup k ((j, v) ∷ d) = if k == j then some v else lookup k d

  -- `d[k] = v`
  unfoldable pub insert : K → V → Dict K V → Dict K V
  insert k v [] = (k, v) ∷ []
  insert k v ((j, w) ∷ d) = if k == j then (j, v) ∷ d else (j, w) ∷ insert k v d

  pub lookup-insert :
      (j k : K) (v : V) (d : Dict K V)
      → lookup j (insert k v d) ≡ (if j == k then some v else lookup j d)
  unfolding insert lookup
  lookup-insert j k v [] = refl
  lookup-insert j k v ((i, w) ∷ d) =
      ground (arith, e.beq_iff j k, e.beq_iff j i, e.beq_iff k i, lookup-insert j k v d)

  pub keys-insert_old :
      (k : K) (v w : V) (d : Dict K V) → lookup k d ≡ some w → keys (insert k v d) ≡ keys d
  unfolding insert lookup
  keys-insert_old k v w [] h = ground arith
  keys-insert_old k v w ((j, x) ∷ d) h = ground (arith, keys-insert_old k v w d)

  -- No key stands twice.
  abbrev pub NodupKeys : Dict K V → Type κ
  NodupKeys [] = Unit
  NodupKeys ((k, _) ∷ d) = (lookup k d ≡ none) × NodupKeys d

  pub insert-NodupKeys : (k : K) (v : V) (d : Dict K V) → NodupKeys d → NodupKeys (insert k v d)
  unfolding insert
  insert-NodupKeys k v [] _ = (unfold lookup in refl, tt)
  insert-NodupKeys k v ((j, _) ∷ d) (fresh, u) =
      ground (arith, insert-NodupKeys k v d u, lookup-insert j k v d, e.beq_iff j k, e.beq_iff k j)

-- `d[k] += 1` on a `defaultdict(int)`
unfoldable pub increment {ℓ} : {K : Type ℓ} ⦃e : Eq K⦄ → K → Dict K ℕ → Dict K ℕ
increment k d = insert k (or_zero (lookup k d) + 1) d

abbrev pub total {ℓ} : {K : Type ℓ} → Dict K ℕ → ℕ
total [] = 0
total ((_, n) ∷ d) = n + total d

module _ {ℓ} {K : Type ℓ} ⦃e : Eq K⦄ where
  total-insert :
      (k : K) (n : ℕ) (d : Dict K ℕ) → total (insert k n d) + or_zero (lookup k d) ≡ total d + n
  unfolding insert lookup
  total-insert k n [] = omega arith
  total-insert k n ((j, m) ∷ d) = ground (arith, total-insert k n d)

  pub total-increment : (k : K) (d : Dict K ℕ) → total (increment k d) ≡ total d + 1
  unfolding increment
  total-increment k d = omega (arith, total-insert k (or_zero (lookup k d) + 1) d)

  pub lookup-increment :
      (j k : K) (d : Dict K ℕ)
      → or_zero (lookup j (increment k d))
        ≡ (if j == k then or_zero (lookup j d) + 1 else or_zero (lookup j d))
  unfolding increment
  lookup-increment j k d =
      ground (arith, lookup-insert j k (or_zero (lookup k d) + 1) d, e.beq_iff j k)
