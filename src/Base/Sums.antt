-- ===== src/Base/Sums.antt =====
-- Sums over a list, which its order does not change.
use Prim.Native.Nat.{ℕ, ◌+◌}
use mathlib.Core.Path.{◌≡◌, refl, ap, ◌∙◌}
use mathlib.Core.List.{List, [], ◌∷◌, Perm, Permᴰ}
use mathlib.Core.List.Permᴰ.{nil, cons, swap, trans}
use mathlib.Core.Logic.{∥∥₁_elim}
use native.Mathlib.Omega.{arith}

module _ {A : Type 0} where
  abbrev pub sum : (A → ℕ) → List A → ℕ
  sum f [] = 0
  sum f (x ∷ xs) = f x + sum f xs

  sum_permᴰ : (f : A → ℕ) {xs ys : List A} → Permᴰ xs ys → sum f xs ≡ sum f ys
  sum_permᴰ f nil = refl
  sum_permᴰ f (cons e p) = omega (arith, ap f e, sum_permᴰ f p)
  sum_permᴰ f (swap e₁ e₂) = omega (arith, ap f e₁, ap f e₂)
  sum_permᴰ f (trans p q) = sum_permᴰ f p ∙ sum_permᴰ f q

  pub sum_perm : (f : A → ℕ) {xs ys : List A} → Perm xs ys → sum f xs ≡ sum f ys
  sum_perm f p = ∥∥₁_elim p (hlevel) (sum_permᴰ f)
