-- ===== src/Db/Caching/Api.antt =====
-- The plain API that the cache stands on: the calls of src/deska/db/JsonApi.h that
-- CachingJsonApi.cpp makes, over the state of the connection and of the server behind it.
use deska.Base.{Option, List, [], ◌∷◌, ◌++◌, ◌≡◌}
use deska.Base.Text.{Text}
use deska.Base.{false}
use deska.Db.Objects.{KindAttributeDataType, ObjectRelation}
use deska.Db.Command.{
  ObjectModificationCommand, lacks_local, create_object, delete_object, rename_object,
  set_attribute, set_attribute_insert, set_attribute_remove,
}
use deska.Db.Exec.{Exec, ok, ◌>>=◌, pure}

pub record JsonApi (V : Type 0) : Type 1 where
  pub Server : Type 0
  pub Fault : Type 0
  pub kind_names : Exec Server Fault (List Text)
  pub kind_attributes : Text → Exec Server Fault (List KindAttributeDataType)
  pub kind_relations : Text → Exec Server Fault (List ObjectRelation)
  pub delete_object : Text → Text → Exec Server Fault (Unit {0})
  pub restore_deleted_object : Text → Text → Exec Server Fault (Unit {0})
  pub create_object : Text → Text → Exec Server Fault Text
  pub rename_object : Text → Text → Text → Exec Server Fault (Unit {0})
  pub set_attribute : Text → Text → Text → Option V → Exec Server Fault (Unit {0})
  pub set_attribute_insert : Text → Text → Text → Text → Exec Server Fault (Unit {0})
  pub set_attribute_remove : Text → Text → Text → Text → Exec Server Fault (Unit {0})
  pub apply_batched_changes : List (ObjectModificationCommand V) → Exec Server Fault (Unit {0})

module _ {V : Type 0} (api : JsonApi V) where
  -- One command sent by the call of its own; the name that a creation returns is dropped.
  unfoldable pub send : ObjectModificationCommand V → Exec api.Server api.Fault (Unit {0})
  send (create_object k n) = api.create_object k n >>= λ _. pure tt
  send (delete_object k n) = api.delete_object k n
  send (rename_object k old new) = api.rename_object k old new
  send (set_attribute k n a v) = api.set_attribute k n a v
  send (set_attribute_insert k n a i) = api.set_attribute_insert k n a i
  send (set_attribute_remove k n a i) = api.set_attribute_remove k n a i

  -- What the cache relies on: a batch does what its commands do one after the other, and an object
  -- that is created under a name with its local part gets that name.
  pub record BatchLaws : Type 0 where
    pub batch_nil : (t : api.Server) → api.apply_batched_changes [] t ≡ (ok tt, t)
    pub batch_one :
        (c : ObjectModificationCommand V) (t u : api.Server)
        → send c t ≡ (ok tt, u)
        → api.apply_batched_changes (c ∷ []) t ≡ (ok tt, u)
    pub batch_append :
        (xs ys : List (ObjectModificationCommand V)) (t u : api.Server)
        → api.apply_batched_changes xs t ≡ (ok tt, u)
        → api.apply_batched_changes (xs ++ ys) t ≡ api.apply_batched_changes ys u
    pub created_name :
        (k n m : Text) (t u : api.Server)
        → lacks_local n ≡ false
        → api.create_object k n t ≡ (ok m, u)
        → m ≡ n
