-- ===== src/Base/Lists.antt =====
-- Lists measured by native numbers, under the library's names.
use Prim.Native.Nat.{ℕ, zero, suc, ◌+◌}
use mathlib.Core.Path.{◌≡◌, refl, ap}
use mathlib.Core.Option
use mathlib.Core.Option.{Option, none, some}
use mathlib.Core.List.{List, [], ◌∷◌, ◌++◌}
use native.Mathlib.Omega.{arith}

module _ {ℓ} {A : Type ℓ} where
  abbrev pub length : List A → ℕ
  length [] = 0
  length (x ∷ xs) = suc (length xs)

  pub length-append : (xs ys : List A) → length (xs ++ ys) ≡ length xs + length ys
  length-append [] ys = omega arith
  length-append (x ∷ xs) ys = omega (arith, length-append xs ys)

module _ {ℓ} {A : Type ℓ} (same : Discrete A) where
  -- LREM key 1 value, and ZREM where every member stands once: the first occurrence goes, and
  -- `none` answers that nothing was removed.
  unfoldable pub remove_one : A → List A → Option (List A)
  remove_one a [] = none
  remove_one a (x ∷ xs) = elim (same a x) [
    | yes _ ↦ some xs
    | no _ ↦ Option.map (λ ys. x ∷ ys) (remove_one a xs)
  ]

module _ {ℓ} {A : Type ℓ} where
  -- RPOP: the last element and what stands before it.
  unfoldable pub pop_last : List A → Option (A × List A)
  pop_last [] = none
  pop_last (x ∷ []) = some (x, [])
  pop_last (x ∷ y ∷ r) = Option.map (λ p. (p.0, x ∷ p.1)) (pop_last (y ∷ r))

module _ {ℓ} {A : Type ℓ} where
  unfoldable pub take : ℕ → List A → List A
  take zero xs = []
  take (suc n) [] = []
  take (suc n) (x ∷ xs) = x ∷ take n xs

  unfoldable pub drop : ℕ → List A → List A
  drop zero xs = xs
  drop (suc n) [] = []
  drop (suc n) (x ∷ xs) = drop n xs

  pub take-drop : (n : ℕ) (xs : List A) → take n xs ++ drop n xs ≡ xs
  unfolding take drop
  take-drop zero xs = refl
  take-drop (suc n) [] = refl
  take-drop (suc n) (x ∷ xs) = ap (λ z. x ∷ z) (take-drop n xs)
