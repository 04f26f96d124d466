-- ===== src/Db/Caching/Commands.antt =====
-- The modifying methods of CachingJsonApi.cpp. Five of them have one body up to the call that is
-- made or queued; `cached_command` is that body.
use deska.Base.{Option, List, [], ◌∷◌, if◌then◌else◌, ltb, not}
use deska.Base.Text.{Text, is_empty}
use deska.Db.Command.{
  ObjectModificationCommand, create_object, delete_object, rename_object, set_attribute,
  set_attribute_insert, set_attribute_remove,
}
use deska.Db.Exec.{Exec, ok, ◌>>◌, pure}
use deska.Db.Caching.Api.{JsonApi}
use deska.Db.Caching.State.{
  CommandBatchingMode, send_immediately, cache_same_object, cache_same_kind, mode_rank,
  is_previous_same_object_as, is_previous_same_kind_as, State, base, flush_commands_now,
  flush_unless, push_back,
}

module _ {V : Type 0} (api : JsonApi V) where
  unfoldable pub cached_command :
      Exec api.Server api.Fault (Unit {0})
      → Text
      → Text
      → ObjectModificationCommand V
      → Exec (State api) api.Fault (Unit {0})
  unfolding is_previous_same_object_as is_previous_same_kind_as flush_commands_now
  cached_command immediate k n c s = elim s.command_batching [
    | send_immediately ↦ base api immediate s
    | cache_same_object ↦
        (do
          flush_unless api (is_previous_same_object_as s.pending_modifications k n)
          push_back api (c ∷ []))
          s
    | cache_same_kind ↦
        (do
          flush_unless api (is_previous_same_kind_as s.pending_modifications k)
          push_back api (c ∷ []))
          s
  ]

  unfoldable pub delete_object_cached : Text → Text → Exec (State api) api.Fault (Unit {0})
  unfolding cached_command
  delete_object_cached k n = cached_command (api.delete_object k n) k n (delete_object k n)

  unfoldable pub rename_object_cached : Text → Text → Text → Exec (State api) api.Fault (Unit {0})
  unfolding cached_command
  rename_object_cached k old new =
      cached_command (api.rename_object k old new) k old (rename_object k old new)

  unfoldable pub set_attribute_cached :
      Text → Text → Text → Option V → Exec (State api) api.Fault (Unit {0})
  unfolding cached_command
  set_attribute_cached k n a v =
      cached_command (api.set_attribute k n a v) k n (set_attribute k n a v)

  unfoldable pub set_attribute_insert_cached :
      Text → Text → Text → Text → Exec (State api) api.Fault (Unit {0})
  unfolding cached_command
  set_attribute_insert_cached k n a i =
      cached_command (api.set_attribute_insert k n a i) k n (set_attribute_insert k n a i)

  unfoldable pub set_attribute_remove_cached :
      Text → Text → Text → Text → Exec (State api) api.Fault (Unit {0})
  unfolding cached_command
  set_attribute_remove_cached k n a i =
      cached_command (api.set_attribute_remove k n a i) k n (set_attribute_remove k n a i)

  unfoldable pub restore_deleted_object_cached : Text → Text → Exec (State api) api.Fault (Unit {0})
  unfolding flush_commands_now
  restore_deleted_object_cached k n = do
    flush_commands_now api
    base api (api.restore_deleted_object k n)

  -- Queue the creation and answer with the given name.
  abbrev queue_creation : Text → Text → Exec (State api) api.Fault Text
  queue_creation k n = do push_back api (create_object k n ∷ []); pure n

  unfoldable pub create_object_cached : Text → Text → Exec (State api) api.Fault Text
  unfolding is_previous_same_kind_as flush_commands_now
  create_object_cached k n s = elim s.command_batching [
    | send_immediately ↦ base api (api.create_object k n) s
    | cache_same_object ↦
        (do
          flush_commands_now api
          if is_empty n then base api (api.create_object k n) else queue_creation k n)
          s
    | cache_same_kind ↦
        (do
          flush_unless api (is_previous_same_kind_as s.pending_modifications k)
          (if is_empty n
              then (do flush_commands_now api; base api (api.create_object k n))
              else queue_creation k n))
          s
  ]

  unfoldable pub apply_batched_changes_cached :
      List (ObjectModificationCommand V) → Exec (State api) api.Fault (Unit {0})
  apply_batched_changes_cached cs s = elim s.command_batching [
    | send_immediately ↦ base api (api.apply_batched_changes cs) s
    | cache_same_object ↦ push_back api cs s
    | cache_same_kind ↦ push_back api cs s
  ]

  abbrev set_mode : CommandBatchingMode → Exec (State api) api.Fault (Unit {0})
  set_mode mode s = (ok tt, record s { command_batching = mode })

  unfoldable pub set_command_batching : CommandBatchingMode → Exec (State api) api.Fault (Unit {0})
  unfolding flush_commands_now
  set_command_batching mode s =
      (do
        flush_unless api (not (ltb (mode_rank mode) (mode_rank s.command_batching)))
        set_mode mode)
        s
