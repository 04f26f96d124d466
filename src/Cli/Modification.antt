-- ===== src/Cli/Modification.antt =====
-- src/deska/cli/CliCommands.cpp: the visitors of modifications that the commands share.
use deska.Base.{ℕ, Bool, true, not, Option, none, some, ◌++◌}
use deska.Base.Text.{Text, codes}
use deska.Db.Modification.{
  ValueOps, ObjectModificationResult, create_object, delete_object, rename_object, set_attribute,
}

-- The values of the enumeration `ModificationType`.
pub data ModificationType : Type 0 where
  type_delete type_rename type_create type_setattr : ModificationType

abbrev pub type_rank : ModificationType → ℕ
type_rank type_delete = 0
type_rank type_rename = 1
type_rank type_create = 2
type_rank type_setattr = 3

module _ {V : Type 0} where
  unfoldable pub modification_type : ObjectModificationResult V → ModificationType
  modification_type (create_object k n) = type_create
  modification_type (delete_object k n) = type_delete
  modification_type (rename_object k old new) = type_rename
  modification_type (set_attribute k n a v w) = type_setattr

  -- `readonly` is `DbInteraction::readonlyAttribute`.
  unfoldable pub backup_checker : (Text → Text → Bool) → ObjectModificationResult V → Bool
  backup_checker readonly (set_attribute k n a v w) = not (readonly k a)
  backup_checker readonly _ = true

module _ {V : Type 0} (ops : ValueOps V) where
  unfoldable pub readable_attr_printer : Text → Option V → Text
  readable_attr_printer prefix (some v) = prefix ++ codes " " ++ ops.pretty v
  readable_attr_printer prefix none = prefix ++ codes " (none)"

  unfoldable pub backuper : ObjectModificationResult V → Text
  backuper (create_object k n) = codes "create " ++ k ++ codes " " ++ n
  backuper (delete_object k n) = codes "delete " ++ k ++ codes " " ++ n
  backuper (rename_object k old new) = codes "rename " ++ k ++ codes " " ++ old ++ codes " " ++ new
  backuper (set_attribute k n a (some v) w) =
      k ++ codes " " ++ n ++ codes " " ++ a ++ codes " " ++ ops.pretty v
  backuper (set_attribute k n a none w) = k ++ codes " " ++ n ++ codes " no " ++ a
