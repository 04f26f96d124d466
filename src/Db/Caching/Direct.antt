-- ===== src/Db/Caching/Direct.antt =====
-- A client's calls, run on the plain API and on the cache. `Call` has one constructor for each
-- modifying method that CachingJsonApi.cpp overrides, and one for `setCommandBatching`.
use deska.Base.{Option, none, some, List, [], ◌∷◌}
use deska.Base.Text.{Text}
use deska.Db.Command.{
  ObjectModificationCommand, create_object, delete_object, rename_object, set_attribute,
  set_attribute_insert, set_attribute_remove,
}
use deska.Db.Exec.{Exec, ◌>>=◌, ◌>>◌, pure}
use deska.Db.Caching.Api.{JsonApi}
use deska.Db.Caching.State.{CommandBatchingMode, State, send_immediately}
use deska.Db.Caching.Commands.{
  delete_object_cached, rename_object_cached, set_attribute_cached, set_attribute_insert_cached,
  set_attribute_remove_cached, restore_deleted_object_cached, create_object_cached,
  apply_batched_changes_cached, set_command_batching,
}

pub data Call (V : Type 0) : Type 0 where
  command : ObjectModificationCommand V → Call V
  restore_deleted_object : Text → Text → Call V
  apply_batched_changes : List (ObjectModificationCommand V) → Call V
  set_batching : CommandBatchingMode → Call V

-- What a call returns: the name of a created object, or nothing.
abbrev pub Reply : Type 0
Reply = Option Text

module _ {S F : Type 0} where
  abbrev pub no_reply : Exec S F (Unit {0}) → Exec S F Reply
  no_reply m = m >>= λ _. pure none

  abbrev pub name_reply : Exec S F Text → Exec S F Reply
  name_reply m = m >>= λ n. pure (some n)

module _ {V : Type 0} (api : JsonApi V) where
  -- The plain API; its `setCommandBatching` (Api.cpp) does nothing.
  unfoldable pub run_direct : Call V → Exec api.Server api.Fault Reply
  run_direct (command (create_object k n)) = name_reply (api.create_object k n)
  run_direct (command (delete_object k n)) = no_reply (api.delete_object k n)
  run_direct (command (rename_object k old new)) = no_reply (api.rename_object k old new)
  run_direct (command (set_attribute k n a v)) = no_reply (api.set_attribute k n a v)
  run_direct (command (set_attribute_insert k n a i)) = no_reply (api.set_attribute_insert k n a i)
  run_direct (command (set_attribute_remove k n a i)) = no_reply (api.set_attribute_remove k n a i)
  run_direct (restore_deleted_object k n) = no_reply (api.restore_deleted_object k n)
  run_direct (apply_batched_changes cs) = no_reply (api.apply_batched_changes cs)
  run_direct (set_batching mode) = pure none

  unfoldable pub run_cached : Call V → Exec (State api) api.Fault Reply
  run_cached (command (create_object k n)) = name_reply (create_object_cached api k n)
  run_cached (command (delete_object k n)) = no_reply (delete_object_cached api k n)
  run_cached (command (rename_object k old new)) = no_reply (rename_object_cached api k old new)
  run_cached (command (set_attribute k n a v)) = no_reply (set_attribute_cached api k n a v)
  run_cached (command (set_attribute_insert k n a i)) =
      no_reply (set_attribute_insert_cached api k n a i)
  run_cached (command (set_attribute_remove k n a i)) =
      no_reply (set_attribute_remove_cached api k n a i)
  run_cached (restore_deleted_object k n) = no_reply (restore_deleted_object_cached api k n)
  run_cached (apply_batched_changes cs) = no_reply (apply_batched_changes_cached api cs)
  run_cached (set_batching mode) = no_reply (set_command_batching api mode)

  unfoldable pub run_all_direct : List (Call V) → Exec api.Server api.Fault (List Reply)
  run_all_direct [] = pure []
  run_all_direct (c ∷ cs) = do r ← run_direct c; rs ← run_all_direct cs; pure (r ∷ rs)

  unfoldable pub run_all_cached : List (Call V) → Exec (State api) api.Fault (List Reply)
  run_all_cached [] = pure []
  run_all_cached (c ∷ cs) = do r ← run_cached c; rs ← run_all_cached cs; pure (r ∷ rs)

  -- The calls, and then the switch to SEND_IMMEDIATELY that the class asks for before anything else
  -- is done with the connection.
  unfoldable pub session : List (Call V) → Exec (State api) api.Fault (List Reply)
  session cs = do rs ← run_all_cached cs; set_command_batching api send_immediately; pure rs
