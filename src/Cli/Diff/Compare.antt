-- ===== src/Cli/Diff/Compare.antt =====
-- The comparators, `ModificationComparatorLesss` and `objectModificationResultLess` (of `Rebase` and
-- of `Diff`, which are alike), against the order of the sort keys.
use deska.Base.{
  Bool, true, false, Option, none, some, List, [], ◌∷◌, ◌≡◌, refl, sym, ◌∙◌, arith, if◌then◌else◌,
  ltb, ◌↔◌,
}
use deska.Base.Text.{Text, text_compare, text_lt, is_lt, text_compare-flip}
use deska.Base.Order.{LinearOrder, list_order, text_order, list_compare}
use deska.Db.Modification.{
  ObjectModificationResult, create_object, delete_object, rename_object, set_attribute,
}
use deska.Cli.Modification.{modification_type, type_rank}

module _ {V : Type 0} where
  -- `none` is the std::invalid_argument thrown at two different types.
  unfoldable pub comparator_less :
      ObjectModificationResult V → ObjectModificationResult V → Option Bool
  comparator_less (create_object k n) (create_object k' n') =
      if text_lt k k' then some true else if text_lt k' k then some false else some (text_lt n n')
  comparator_less (delete_object k n) (delete_object k' n') =
      if text_lt k k' then some true else if text_lt k' k then some false else some (text_lt n n')
  comparator_less (rename_object k old new) (rename_object k' old' new') =
      if text_lt k k'
      then some true
      else if text_lt k' k
      then some false
      else if text_lt old old'
      then some true
      else if text_lt old' old
      then some false
      else some (text_lt new new')
  comparator_less (set_attribute k n a v w) (set_attribute k' n' a' v' w') =
      if text_lt k k'
      then some true
      else if text_lt k' k
      then some false
      else if text_lt n n'
      then some true
      else if text_lt n' n
      then some false
      else some (text_lt a a')
  comparator_less _ _ = none

  unfoldable pub result_less : ObjectModificationResult V → ObjectModificationResult V → Option Bool
  unfolding modification_type comparator_less
  result_less a b =
      let x = type_rank (modification_type a) in
      let y = type_rank (modification_type b) in
      if ltb x y then some true else if ltb y x then some false else comparator_less a b

  -- What the comparators look at: the type, the kind, and the names in turn.
  abbrev pub sort_key : ObjectModificationResult V → List Text
  sort_key (delete_object k n) = (0 ∷ []) ∷ k ∷ n ∷ []
  sort_key (rename_object k old new) = (1 ∷ []) ∷ k ∷ old ∷ new ∷ []
  sort_key (create_object k n) = (2 ∷ []) ∷ k ∷ n ∷ []
  sort_key (set_attribute k n a v w) = (3 ∷ []) ∷ k ∷ n ∷ a ∷ []

abbrev pub key_order : LinearOrder (List Text)
key_order = list_order text_order

-- one key field after another
module _ (k n k' n' : Text) where
  same_then_compare :
      (if text_lt k k' then some true else if text_lt k' k then some false else some (text_lt n n'))
      ≡ some (is_lt (list_compare text_order (k ∷ n ∷ []) (k' ∷ n' ∷ [])))
  unfolding list_compare
  same_then_compare = ground (arith, text_compare-flip k k')

module _ (k n a k' n' a' : Text) where
  three_names :
      (if text_lt k k'
        then some true
        else if text_lt k' k
        then some false
        else if text_lt n n'
        then some true
        else if text_lt n' n
        then some false
        else some (text_lt a a'))
      ≡ some (is_lt (list_compare text_order (k ∷ n ∷ a ∷ []) (k' ∷ n' ∷ a' ∷ [])))
  unfolding list_compare
  three_names = ground (arith, text_compare-flip k k', text_compare-flip n n')

-- The comparison never throws, and it is the lexicographic order of the keys.
pub result_less-key :
    {V : Type 0} (a b : ObjectModificationResult V)
    → result_less a b ≡ some (is_lt (key_order.cmp (sort_key a) (sort_key b)))
unfolding result_less list_compare text_compare
result_less-key (create_object k n) (create_object k' n') = same_then_compare k n k' n'
result_less-key (delete_object k n) (delete_object k' n') = same_then_compare k n k' n'
result_less-key (rename_object k n a) (rename_object k' n' a') = three_names k n a k' n' a'
result_less-key (set_attribute k n a v w) (set_attribute k' n' a' v' w') =
    three_names k n a k' n' a'
result_less-key (create_object k n) _ = refl
result_less-key (delete_object k n) _ = refl
result_less-key (rename_object k n a) _ = refl
result_less-key (set_attribute k n a v w) _ = refl

-- The requirements of std::sort on its comparison.
module _ {V : Type 0} where
  abbrev pub Before : ObjectModificationResult V → ObjectModificationResult V → Type 0
  Before a b = result_less a b ≡ some true

  abbrev pub NotBefore : ObjectModificationResult V → ObjectModificationResult V → Type 0
  NotBefore a b = result_less a b ≡ some false

  -- If a is less than b and b is less than c, then a is less than c.
  pub result_less_trans :
      (a b c : ObjectModificationResult V) → Before a b → Before b c → Before a c
  result_less_trans a b c h k =
      let ab = sym (result_less-key a b) ∙ h in
      let bc = sym (result_less-key b c) ∙ k in
      let ac = key_order.cmp_trans (sort_key a) (sort_key b) (sort_key c) in
      rw (result_less-key a c) (ground (arith, ab, bc, ac))

  -- Two modifications are incomparable, neither less than the other, exactly when their sort keys
  -- (the type, the kind, and the names that the type has) are equal; so the comparison answers for
  -- them, no modification is less than itself, and incomparability is an equivalence.
  pub incomparable_iff :
      (a b : ObjectModificationResult V)
      → (NotBefore a b × NotBefore b a) ↔ (sort_key a ≡ sort_key b)
  incomparable_iff a b = rw (result_less-key a b) (
      rw (result_less-key b a) (
        λ (ab, ba).
            key_order.cmp_eq (sort_key a) (sort_key b)
              (ground (arith, key_order.cmp_flip (sort_key a) (sort_key b))),
        λ e. rw e (let r = key_order.cmp_refl (sort_key b) in (rw r, rw r)),
      ))
