-- ===== src/Base/Chunks.antt =====
-- `xs[i : i + size] for i in range(0, len(xs), size)`, for a positive size.
use Prim.Native.Nat.{ℕ, zero, suc, ◌+◌, ◌≤◌, ◌<◌, ◌*◌}
use mathlib.Core.Path.{◌≡◌, refl, ap, ◌∙◌}
use mathlib.Core.List.{List, [], ◌∷◌, ◌++◌}
use native.Mathlib.Omega.{arith}
use native.Mathlib.Decide.{dec_lt}
use flight_pulse.Base.Lists.{All, length, take, drop, take-append-drop, length-take, length-drop}

module _ {ℓ} {A : Type ℓ} where
  -- The first argument bounds the number of rounds; the length of the list is enough.
  unfoldable pub slices : ℕ → ℕ → List A → List (List A)
  slices zero size xs = []
  slices (suc rounds) size [] = []
  slices (suc rounds) size (x ∷ xs) = take size (x ∷ xs) ∷ slices rounds size (drop size (x ∷ xs))

  unfoldable pub chunk : List A → ℕ → List (List A)
  unfolding slices
  chunk xs size = slices (length xs) size xs

  abbrev pub concat : List (List A) → List A
  concat [] = []
  concat (xs ∷ xss) = xs ++ concat xss

  concat-slices :
      (rounds size : ℕ) (xs : List A)
      → 0 < size
      → length xs ≤ rounds
      → concat (slices rounds size xs) ≡ xs
  unfolding slices
  concat-slices zero size [] p h = refl
  concat-slices zero size (x ∷ xs) p h = absurd (omega arith)
  concat-slices (suc rounds) size [] p h = refl
  concat-slices (suc rounds) size (x ∷ xs) p h =
      ap (λ l. take size (x ∷ xs) ++ l)
        (concat-slices rounds size (drop size (x ∷ xs)) p
          (omega (arith, length-drop size (x ∷ xs))))
      ∙ take-append-drop size (x ∷ xs)

  -- A slice is not empty, and has at most `size` elements.
  abbrev pub Fits : ℕ → List A → Type 0
  Fits size xs = (0 < length xs) × (length xs ≤ size)

  slices_fit : (rounds size : ℕ) (xs : List A) → 0 < size → All (Fits size) (slices rounds size xs)
  unfolding slices
  slices_fit zero size xs p = tt
  slices_fit (suc rounds) size [] p = tt
  slices_fit (suc rounds) size (x ∷ xs) p = (
    (omega (arith, length-take size (x ∷ xs)), omega (arith, length-take size (x ∷ xs))),
    slices_fit rounds size (drop size (x ∷ xs)) p,
  )

  slices_none : (rounds size : ℕ) (xs : List A) → length xs ≡ 0 → length (slices rounds size xs) ≡ 0
  unfolding slices
  slices_none zero size xs h = refl
  slices_none (suc rounds) size [] h = refl
  slices_none (suc rounds) size (x ∷ xs) h = absurd (omega arith)

  slices_count :
      (rounds size : ℕ) (xs : List A)
      → 0 < size
      → length xs ≤ rounds
      → (length xs ≤ size * length (slices rounds size xs))
        × (size * length (slices rounds size xs) < length xs + size)
  unfolding slices
  slices_count zero size [] p h = (omega arith, omega arith)
  slices_count zero size (x ∷ xs) p h = absurd (omega arith)
  slices_count (suc rounds) size [] p h = (omega arith, omega arith)
  slices_count (suc rounds) size (x ∷ xs) p h =
      let rest = drop size (x ∷ xs) in
      let shorter = length-drop size (x ∷ xs) in
      let n = length (slices rounds size rest) in
      let (low, high) = slices_count rounds size rest p (omega (arith, shorter)) in
      let small : size * n < suc (length xs) = elim (dec_lt (length xs) size) [
        | yes last ↦
            let none_left : n ≡ 0 = slices_none rounds size rest (omega (arith, shorter)) in
            omega (arith, ap (λ (k : ℕ). size * k) none_left)
        | no more ↦ omega (arith, shorter)
      ] in
      (omega (arith, shorter), omega arith)

  pub concat-chunk : (xs : List A) (size : ℕ) → 0 < size → concat (chunk xs size) ≡ xs
  unfolding chunk
  concat-chunk xs size p = concat-slices (length xs) size xs p (omega arith)

  pub chunk-Fits : (xs : List A) (size : ℕ) → 0 < size → All (Fits size) (chunk xs size)
  unfolding chunk
  chunk-Fits xs size p = slices_fit (length xs) size xs p

  -- The number of slices is the length divided by the size, rounded up.
  pub chunk_count :
      (xs : List A) (size : ℕ)
      → 0 < size
      → (length xs ≤ size * length (chunk xs size))
        × (size * length (chunk xs size) < length xs + size)
  unfolding chunk
  chunk_count xs size p = slices_count (length xs) size xs p (omega arith)
