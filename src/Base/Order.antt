-- ===== src/Base/Order.antt =====
-- Linear orders by a three-way comparison, and the lexicographic order of lists.
use Prim.Native.Nat.{Ordering}
use mathlib.Core.Path.{◌≡◌, refl}
use mathlib.Core.List.{List, [], ◌∷◌}
use native.Mathlib.Omega.{arith}
use deska.Base.Text.{
  Text, flip, text_compare, text_compare_refl, text_compare_eq, text_compare-flip,
  text_compare_trans,
}

pub record LinearOrder (A : Type 0) : Type 0 where
  pub cmp : A → A → Ordering
  pub cmp_refl : (a : A) → cmp a a ≡ Ordering.eq
  pub cmp_eq : (a b : A) → cmp a b ≡ Ordering.eq → a ≡ b
  pub cmp_flip : (a b : A) → cmp b a ≡ flip (cmp a b)
  pub cmp_trans :
      (a b c : A) → cmp a b ≡ Ordering.lt → cmp b c ≡ Ordering.lt → cmp a c ≡ Ordering.lt

abbrev pub text_order : LinearOrder Text
text_order = record {
  cmp = text_compare;
  cmp_refl = text_compare_refl;
  cmp_eq = text_compare_eq;
  cmp_flip = text_compare-flip;
  cmp_trans = text_compare_trans;
}

module _ {A : Type 0} (o : LinearOrder A) where
  unfoldable pub list_compare : List A → List A → Ordering
  list_compare [] [] = Ordering.eq
  list_compare [] (y ∷ ys) = Ordering.lt
  list_compare (x ∷ xs) [] = Ordering.gt
  list_compare (x ∷ xs) (y ∷ ys) = elim (o.cmp x y) [
    | Ordering.lt ↦ Ordering.lt
    | Ordering.gt ↦ Ordering.gt
    | Ordering.eq ↦ list_compare xs ys
  ]

  pub list_compare_refl : (a : List A) → list_compare a a ≡ Ordering.eq
  unfolding list_compare
  list_compare_refl [] = refl
  list_compare_refl (x ∷ xs) = ground (arith, list_compare_refl xs, o.cmp_refl x)

  pub list_compare_eq : (a b : List A) → list_compare a b ≡ Ordering.eq → a ≡ b
  unfolding list_compare
  list_compare_eq [] [] h = refl
  list_compare_eq [] (y ∷ ys) h = ground arith
  list_compare_eq (x ∷ xs) [] h = ground arith
  list_compare_eq (x ∷ xs) (y ∷ ys) h = ground (arith, list_compare_eq xs ys, o.cmp_eq x y)

  pub list_compare-flip : (a b : List A) → list_compare b a ≡ flip (list_compare a b)
  unfolding list_compare
  list_compare-flip [] [] = refl
  list_compare-flip [] (y ∷ ys) = refl
  list_compare-flip (x ∷ xs) [] = refl
  list_compare-flip (x ∷ xs) (y ∷ ys) = ground (arith, list_compare-flip xs ys, o.cmp_flip x y)

  pub list_compare_trans :
      (a b c : List A)
      → list_compare a b ≡ Ordering.lt
      → list_compare b c ≡ Ordering.lt
      → list_compare a c ≡ Ordering.lt
  unfolding list_compare
  list_compare_trans [] [] c h k = ground arith
  list_compare_trans [] (y ∷ ys) [] h k = ground arith
  list_compare_trans [] (y ∷ ys) (z ∷ zs) h k = refl
  list_compare_trans (x ∷ xs) [] c h k = ground arith
  list_compare_trans (x ∷ xs) (y ∷ ys) [] h k = ground arith
  list_compare_trans (x ∷ xs) (y ∷ ys) (z ∷ zs) h k = ground (
    arith,
    list_compare_trans xs ys zs,
    o.cmp_trans x y z,
    o.cmp_eq x y,
    o.cmp_eq y z,
    o.cmp_refl x,
  )

  abbrev pub list_order : LinearOrder (List A)
  list_order = record {
    cmp = list_compare;
    cmp_refl = list_compare_refl;
    cmp_eq = list_compare_eq;
    cmp_flip = list_compare-flip;
    cmp_trans = list_compare_trans;
  }
