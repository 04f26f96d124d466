-- ===== src/Db/Modification.antt =====
-- src/deska/db/ObjectModification.h, ObjectModification.cpp: the modifications of which a
-- difference consists. `V` is the type of attribute values, `NonOptionalValue`.
use deska.Base.{Bool, true, false, Option, none, some, ◌&&◌, ◌≡◌, ◌↔◌}
use deska.Base.Text.{Text, text_eq}

-- What the program does with a value: `==`, and `NonOptionalValuePrettyPrint`.
pub record ValueOps (V : Type 0) : Type 0 where
  pub beq : V → V → Bool
  pub beq_iff : (a b : V) → (beq a b ≡ true) ↔ (a ≡ b)
  pub pretty : V → Text

pub data ObjectModificationResult (V : Type 0) : Type 0 where
  create_object : Text → Text → ObjectModificationResult V
  delete_object : Text → Text → ObjectModificationResult V
  rename_object : Text → Text → Text → ObjectModificationResult V
  -- kind, object, attribute, the new value and the old one
  set_attribute : Text → Text → Text → Option V → Option V → ObjectModificationResult V

module _ {V : Type 0} (ops : ValueOps V) where
  -- `==` on `boost::optional`
  unfoldable pub value_eq : Option V → Option V → Bool
  value_eq none none = true
  value_eq (some v) (some w) = ops.beq v w
  value_eq _ _ = false

  -- `==` on the variant and on its structs
  unfoldable pub modification_eq : ObjectModificationResult V → ObjectModificationResult V → Bool
  unfolding value_eq
  modification_eq (create_object k n) (create_object k' n') = text_eq k k' && text_eq n n'
  modification_eq (delete_object k n) (delete_object k' n') = text_eq k k' && text_eq n n'
  modification_eq (rename_object k old new) (rename_object k' old' new') =
      text_eq k k' && text_eq old old' && text_eq new new'
  modification_eq (set_attribute k n a v w) (set_attribute k' n' a' v' w') =
      text_eq k k' && text_eq n n' && text_eq a a' && value_eq v v' && value_eq w w'
  modification_eq _ _ = false
