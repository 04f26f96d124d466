-- ===== src/Db/Command.antt =====
-- src/deska/db/ObjectModification.h: the commands that may stand in a batch. `V` is the type
-- `NonOptionalValue` of attribute values, and `Value` is `boost::optional` of it.
use deska.Base.{Bool, true, false, ◌&&◌, ◌==◌, Option, [], ◌∷◌}
use deska.Base.Text.{Text}

abbrev pub ends_in_arrow : Text → Bool
ends_in_arrow [] = false
ends_in_arrow (c ∷ []) = false
ends_in_arrow (c ∷ d ∷ []) = (c == b'-') && (d == b'>')
ends_in_arrow (c ∷ d ∷ e ∷ s) = ends_in_arrow (d ∷ e ∷ s)

-- A name without its local part, as `foo->` is, for which the server assigns one at the creation
-- (doc/technical/dbapi-protocol.tex, createObject).
abbrev pub lacks_local : Text → Bool
lacks_local [] = true
lacks_local (c ∷ s) = ends_in_arrow (c ∷ s)

pub data ObjectModificationCommand (V : Type 0) : Type 0 where
  create_object : Text → Text → ObjectModificationCommand V
  delete_object : Text → Text → ObjectModificationCommand V
  rename_object : Text → Text → Text → ObjectModificationCommand V
  set_attribute : Text → Text → Text → Option V → ObjectModificationCommand V
  set_attribute_insert : Text → Text → Text → Text → ObjectModificationCommand V
  set_attribute_remove : Text → Text → Text → Text → ObjectModificationCommand V

module _ {V : Type 0} where
  -- The visitor `ExtractObjectKind`.
  unfoldable pub extract_kind : ObjectModificationCommand V → Text
  extract_kind (create_object k n) = k
  extract_kind (delete_object k n) = k
  extract_kind (rename_object k old new) = k
  extract_kind (set_attribute k n a v) = k
  extract_kind (set_attribute_insert k n a i) = k
  extract_kind (set_attribute_remove k n a i) = k

  -- The visitor `ExtractObjectId`: after a rename the object goes by its new name.
  unfoldable pub extract_id : ObjectModificationCommand V → Text × Text
  extract_id (create_object k n) = (k, n)
  extract_id (delete_object k n) = (k, n)
  extract_id (rename_object k old new) = (k, new)
  extract_id (set_attribute k n a v) = (k, n)
  extract_id (set_attribute_insert k n a i) = (k, n)
  extract_id (set_attribute_remove k n a i) = (k, n)
