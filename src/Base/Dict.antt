-- ===== src/Base/Dict.antt =====
-- `std::map` as the list of its entries in the order of the keys.
use Prim.Native.Nat.{Ordering}
use mathlib.Core.Path.{◌≡◌, refl}
use mathlib.Core.Option.{Option, none, some}
use mathlib.Core.List.{List, [], ◌∷◌}
use native.Mathlib.Omega.{arith}
use deska.Base.Tests.{if◌then◌else◌}
use deska.Base.Text.{is_eq, Text, text_compare, text_compare_refl, text_compare_eq}

-- A type with a three-way comparison that is a strict total order.
pub record Ord (K : Type 0) : Type 0 where
  pub cmp : K → K → Ordering
  pub cmp_refl : (a : K) → cmp a a ≡ Ordering.eq
  pub cmp_eq : (a b : K) → cmp a b ≡ Ordering.eq → a ≡ b

instance abbrev pub text_ord : Ord Text
text_ord = record { cmp = text_compare; cmp_refl = text_compare_refl; cmp_eq = text_compare_eq }

abbrev pub Dict : Type 0 → Type 0 → Type 0
Dict K V = List (K × V)

module _ {K V : Type 0} ⦃o : Ord K⦄ where
  -- `m.find(k)`
  unfoldable pub find : K → Dict K V → Option V
  find k [] = none
  find k ((j, v) ∷ m) = if is_eq (o.cmp k j) then some v else find k m

  -- `m[k] = v`
  unfoldable pub insert : K → V → Dict K V → Dict K V
  insert k v [] = (k, v) ∷ []
  insert k v ((j, w) ∷ m) = elim (o.cmp k j) [
    | Ordering.lt ↦ (k, v) ∷ (j, w) ∷ m
    | Ordering.eq ↦ (k, v) ∷ m
    | Ordering.gt ↦ (j, w) ∷ insert k v m
  ]

  pub find-insert :
      (k j : K) (v : V) (m : Dict K V)
      → find k (insert j v m) ≡ (if is_eq (o.cmp k j) then some v else find k m)
  unfolding find insert
  find-insert k j v [] = refl
  find-insert k j v ((i, w) ∷ m) =
      ground (arith, find-insert k j v m, o.cmp_eq j i, o.cmp_eq k i, o.cmp_eq k j, o.cmp_refl k)
