-- ===== src/Base/Lists.antt =====
-- Lists measured by native numbers, and predicates over all elements.
use Prim.Native.Nat.{ℕ, suc, ◌+◌}
use mathlib.Core.Path.{◌≡◌, refl, ap}
use mathlib.Core.Option.{Option, none, some}
use mathlib.Core.List.{List, [], ◌∷◌, ◌++◌}
use native.Mathlib.Omega.{arith}

module _ {ℓ} {A : Type ℓ} where
  abbrev pub length : List A → ℕ
  length [] = 0
  length (x ∷ xs) = suc (length xs)

  pub length-append : (xs ys : List A) → length (xs ++ ys) ≡ length xs + length ys
  length-append [] ys = omega arith
  length-append (x ∷ xs) ys = omega (arith, length-append xs ys)

  -- `v.back()` of a vector; an empty one has none.
  abbrev pub back : List A → Option A
  back [] = none
  back (x ∷ []) = some x
  back (x ∷ y ∷ ys) = back (y ∷ ys)

  -- from `v.begin()` to `v.end() - 1`, and what `v.pop_back()` leaves
  abbrev pub but_last : List A → List A
  but_last [] = []
  but_last (x ∷ []) = []
  but_last (x ∷ y ∷ r) = x ∷ but_last (y ∷ r)

  pub but_last-append : (xs : List A) (y : A) → but_last (xs ++ y ∷ []) ≡ xs
  but_last-append [] y = refl
  but_last-append (x ∷ []) y = refl
  but_last-append (x ∷ z ∷ zs) y = ap (λ r. x ∷ r) (but_last-append (z ∷ zs) y)

  pub back_cons : (x : A) (xs : List A) → (y : A) × (back (x ∷ xs) ≡ some y)
  back_cons x [] = (x, refl)
  back_cons x (y ∷ ys) = back_cons y ys

  pub back-append : (xs : List A) (y : A) → back (xs ++ y ∷ []) ≡ some y
  back-append [] y = refl
  back-append (x ∷ []) y = refl
  back-append (x ∷ z ∷ zs) y = back-append (z ∷ zs) y

module _ {ℓ κ} {A : Type ℓ} (P : A → Type κ) where
  abbrev pub All : List A → Type κ
  All [] = Unit
  All (x ∷ xs) = P x × All xs

  pub All-append : (xs ys : List A) → All xs → All ys → All (xs ++ ys)
  All-append [] ys hx hy = hy
  All-append (x ∷ xs) ys hx hy = (hx.0, All-append xs ys hx.1 hy)
