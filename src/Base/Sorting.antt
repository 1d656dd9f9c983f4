-- ===== src/Base/Sorting.antt =====
-- Python's `sorted` and `list.sort(key=...)`: the stable ascending sort by a key.
use mathlib.Core.Path.{◌≡◌, refl}
use mathlib.Core.Logic.{◌⊎◌, inl, inr}
use mathlib.Core.Bool.{Bool, true, false}
use mathlib.Core.List.{List, [], ◌∷◌, Perm}
use mathlib.Core.List.Perm
use Prim.Native.Nat.{ℕ, ◌+◌}
use native.Mathlib.Omega.{arith}
use flight_pulse.Base.Tests.{leb, if◌then◌else◌, Bool-cases}
use flight_pulse.Base.Lists.{All, length}

-- A total preorder as the language's `<=` decides it.
pub record Ord {ℓ} (A : Type ℓ) : Type ℓ where
  pub le : A → A → Bool
  pub le_total : (a b : A) → (le a b ≡ true) ⊎ (le b a ≡ true)
  pub le_trans : (a b c : A) → le a b ≡ true → le b c ≡ true → le a c ≡ true

leb_total : (a b : ℕ) → (leb a b ≡ true) ⊎ (leb b a ≡ true)
leb_total a b = grind arith

leb_trans : (a b c : ℕ) → leb a b ≡ true → leb b c ≡ true → leb a c ≡ true
leb_trans a b c h k = ground arith

instance abbrev pub nat_ord : Ord ℕ
unfolding leb_total leb_trans
nat_ord = record { le = leb; le_total = leb_total; le_trans = leb_trans }

module _ {ℓ κ} {A : Type ℓ} {K : Type κ} ⦃o : Ord K⦄ (key : A → K) where
  unfoldable pub insert_sorted : A → List A → List A
  insert_sorted a [] = a ∷ []
  insert_sorted a (b ∷ l) = if o.le (key a) (key b) then a ∷ b ∷ l else b ∷ insert_sorted a l

  unfoldable pub sort_by : List A → List A
  unfolding insert_sorted
  sort_by [] = []
  sort_by (a ∷ l) = insert_sorted a (sort_by l)

  -- Each element is at most every later one.
  abbrev pub IsSorted : List A → Type 0
  IsSorted [] = Unit
  IsSorted (a ∷ l) = All (λ b. o.le (key a) (key b) ≡ true) l × IsSorted l

  All-insert_sorted :
      (P : A → Type 0) (a : A) (l : List A) → P a → All P l → All P (insert_sorted a l)
  unfolding insert_sorted
  All-insert_sorted P a [] p h = (p, tt)
  All-insert_sorted P a (b ∷ l) p h = elim (Bool-cases (o.le (key a) (key b))) [
    | inl before ↦ rw before (p, h)
    | inr after ↦ rw after (h.0, All-insert_sorted P a l p h.1)
  ]

  All-le :
      (a b : A) (l : List A)
      → o.le (key a) (key b) ≡ true
      → All (λ c. o.le (key b) (key c) ≡ true) l
      → All (λ c. o.le (key a) (key c) ≡ true) l
  All-le a b [] h all = tt
  All-le a b (c ∷ l) h all = (o.le_trans (key a) (key b) (key c) h all.0, All-le a b l h all.1)

  le_of_not_le : (a b : A) → o.le (key a) (key b) ≡ false → o.le (key b) (key a) ≡ true
  le_of_not_le a b h = elim (o.le_total (key a) (key b)) [ inl p ↦ cc | inr p ↦ p ]

  insert_sorted-IsSorted : (a : A) (l : List A) → IsSorted l → IsSorted (insert_sorted a l)
  unfolding insert_sorted
  insert_sorted-IsSorted a [] h = (tt, tt)
  insert_sorted-IsSorted a (b ∷ l) h = elim (Bool-cases (o.le (key a) (key b))) [
    | inl before ↦ rw before ((before, All-le a b l before h.0), h)
    | inr after ↦ rw after (
      All-insert_sorted (λ c. o.le (key b) (key c) ≡ true) a l (le_of_not_le a b after) h.0,
      insert_sorted-IsSorted a l h.1,
    )
  ]

  pub sort_by-IsSorted : (l : List A) → IsSorted (sort_by l)
  unfolding sort_by
  sort_by-IsSorted [] = tt
  sort_by-IsSorted (a ∷ l) = insert_sorted-IsSorted a (sort_by l) (sort_by-IsSorted l)

  insert_sorted-perm : (a : A) (l : List A) → Perm (insert_sorted a l) (a ∷ l)
  unfolding insert_sorted
  insert_sorted-perm a [] = Perm.refl (a ∷ [])
  insert_sorted-perm a (b ∷ l) = elim (Bool-cases (o.le (key a) (key b))) [
    | inl before ↦ rw before (Perm.refl (a ∷ b ∷ l))
    | inr after ↦ rw after (Perm.trans (Perm.cons b (insert_sorted-perm a l)) (Perm.swap a b l))
  ]

  pub sort_by-perm : (l : List A) → Perm (sort_by l) l
  unfolding sort_by
  sort_by-perm [] = Perm.refl []
  sort_by-perm (a ∷ l) =
      Perm.trans (insert_sorted-perm a (sort_by l)) (Perm.cons a (sort_by-perm l))

  length-insert_sorted : (a : A) (l : List A) → length (insert_sorted a l) ≡ length l + 1
  unfolding insert_sorted
  length-insert_sorted a [] = omega arith
  length-insert_sorted a (b ∷ l) = ground (arith, length-insert_sorted a l)

  pub length-sort_by : (l : List A) → length (sort_by l) ≡ length l
  unfolding sort_by
  length-sort_by [] = refl
  length-sort_by (a ∷ l) = omega (arith, length-insert_sorted a (sort_by l), length-sort_by l)
