-- ===== src/Db/Caching/Homogeneous.antt =====
-- The queue and the batching mode, call by call.
use deska.Base.{false, List, [], ltb, ◌≡◌, arith, ◌⊎◌, inl, inr}
use deska.Base.Text.{Text}
use deska.Db.Command.{
  ObjectModificationCommand, create_object, delete_object, rename_object, set_attribute,
  set_attribute_insert, set_attribute_remove,
}
use deska.Db.Exec.{Exec}
use deska.Db.Caching.Api.{JsonApi}
use deska.Db.Caching.State.{
  CommandBatchingMode, send_immediately, cache_same_object, cache_same_kind, State, mode_rank,
}
use deska.Db.Caching.Commands.{
  cached_command, delete_object_cached, rename_object_cached, set_attribute_cached,
  set_attribute_insert_cached, set_attribute_remove_cached, create_object_cached,
  restore_deleted_object_cached, set_command_batching,
}
use deska.Db.Caching.Direct.{
  Call, command, restore_deleted_object, apply_batched_changes, set_batching, run_cached, no_reply,
  name_reply,
}
use deska.Db.Caching.Chain.{target, Fits, Queued, empty-Fits, Queued-Fits, chain-IsOneKind}

state-no_reply : {S F : Type 0} (m : Exec S F (Unit {0})) (s : S) → (no_reply m s).1 ≡ (m s).1
state-no_reply m s = ground arith

state-name_reply : {S F : Type 0} (m : Exec S F Text) (s : S) → (name_reply m s).1 ≡ (m s).1
state-name_reply m s = ground arith

module _ {V : Type 0} (api : JsonApi V) where
  -- The queue holds what the batching mode is for.
  abbrev pub IsHomogeneous : State api → Type 0
  IsHomogeneous s = Fits s.command_batching s.pending_modifications

  module _ (c : ObjectModificationCommand V) (k n : Text) (m : Exec api.Server api.Fault (Unit {0}))
      (s : State api) where
    cached_command-mode : (cached_command api m k n c s).1.command_batching ≡ s.command_batching
    unfolding cached_command
    cached_command-mode = ground arith

    cached_command-Queued :
        Queued s.command_batching s.pending_modifications c k n
          (cached_command api m k n c s).1.pending_modifications
    unfolding cached_command
    cached_command-Queued = ground arith

  module _ (k n : Text) (s : State api) where
    create_object_cached-mode :
        (create_object_cached api k n s).1.command_batching ≡ s.command_batching
    unfolding create_object_cached
    create_object_cached-mode = ground arith

    create_object_cached-Queued :
        Queued s.command_batching s.pending_modifications
          (create_object k n)
          k
          n
          (create_object_cached api k n s).1.pending_modifications
    unfolding create_object_cached
    create_object_cached-Queued = ground arith

    restore_deleted_object_cached-mode :
        (restore_deleted_object_cached api k n s).1.command_batching ≡ s.command_batching
    unfolding restore_deleted_object_cached
    restore_deleted_object_cached-mode = ground arith

    -- a throw leaves the queue, and all else empties it
    restore_deleted_object_cached-pending :
        ((restore_deleted_object_cached api k n s).1.pending_modifications
          ≡ s.pending_modifications)
        ⊎ ((restore_deleted_object_cached api k n s).1.pending_modifications ≡ [])
    unfolding restore_deleted_object_cached
    restore_deleted_object_cached-pending = ground arith

  -- The mode changes only with a queue that fits the new one.
  module _ (mode : CommandBatchingMode) (s : State api) where
    set_command_batching-cases :
        ((set_command_batching api mode s).1.pending_modifications ≡ [])
        ⊎ (((set_command_batching api mode s).1.pending_modifications ≡ s.pending_modifications)
              × ((set_command_batching api mode s).1.command_batching ≡ s.command_batching)
            ⊎ ((set_command_batching api mode s).1.pending_modifications ≡ s.pending_modifications)
              × ((set_command_batching api mode s).1.command_batching ≡ mode)
              × (ltb (mode_rank mode) (mode_rank s.command_batching) ≡ false))
    unfolding set_command_batching
    set_command_batching-cases = ground arith

  raised-Fits :
      (old new : CommandBatchingMode) (cs : List (ObjectModificationCommand V))
      → ltb (mode_rank new) (mode_rank old) ≡ false
      → Fits old cs
      → Fits new cs
  raised-Fits send_immediately new cs e h = rw h (empty-Fits V new)
  raised-Fits cache_same_object send_immediately cs e h = ground arith
  raised-Fits cache_same_object cache_same_object cs e h = h
  raised-Fits cache_same_object cache_same_kind cs e h = chain-IsOneKind cs h
  raised-Fits cache_same_kind send_immediately cs e h = ground arith
  raised-Fits cache_same_kind cache_same_object cs e h = ground arith
  raised-Fits cache_same_kind cache_same_kind cs e h = h

  -- A call that is no batch of the client's own.
  abbrev pub IsSingle : Call V → Type 0
  IsSingle (apply_batched_changes cs) = ⊥
  IsSingle _ = Unit

  from_Queued :
      (s s' : State api) (c : ObjectModificationCommand V)
      → s'.command_batching ≡ s.command_batching
      → Queued s.command_batching s.pending_modifications c
          (target c).0
          (target c).1
          s'.pending_modifications
      → IsHomogeneous s
      → IsHomogeneous s'
  from_Queued s s' c e q h = rw e (Queued-Fits s.command_batching s.pending_modifications _ c q h)

  command-IsHomogeneous :
      (c : ObjectModificationCommand V) (m : Exec api.Server api.Fault (Unit {0})) (s : State api)
      → IsHomogeneous s
      → IsHomogeneous (no_reply (cached_command api m (target c).0 (target c).1 c) s).1
  command-IsHomogeneous c m s h =
      rw (state-no_reply (cached_command api m (target c).0 (target c).1 c) s) (
        from_Queued s (cached_command api m (target c).0 (target c).1 c s).1 c
          (cached_command-mode c (target c).0 (target c).1 m s)
          (cached_command-Queued c (target c).0 (target c).1 m s) h)

  from_kept :
      (s s' : State api)
      → s'.command_batching ≡ s.command_batching
      → (s'.pending_modifications ≡ s.pending_modifications) ⊎ (s'.pending_modifications ≡ [])
      → IsHomogeneous s
      → IsHomogeneous s'
  from_kept s s' e (inl same) h = rw e (rw same h)
  from_kept s s' e (inr none_left) h = rw none_left (empty-Fits V s'.command_batching)

  set_mode-IsHomogeneous :
      (mode : CommandBatchingMode) (s : State api)
      → IsHomogeneous s
      → IsHomogeneous (set_command_batching api mode s).1
  set_mode-IsHomogeneous mode s h = elim (set_command_batching-cases mode s) [
    | inl none_left ↦ rw none_left (empty-Fits V _)
    | inr (inl (same, e)) ↦ rw e (rw same h)
    | inr (inr (same, e, up)) ↦
        rw e (rw same (raised-Fits s.command_batching mode s.pending_modifications up h))
  ]

  -- Whether a call succeeds or throws, the queue stays what the batching mode is for: empty in
  -- SEND_IMMEDIATELY; in CACHE_SAME_OBJECT a chain in which each command goes to the object that the
  -- command before it leaves behind, under its new name after a rename; in CACHE_SAME_KIND commands
  -- on one kind. A batch of the client's own, `applyBatchedChanges`, is not among these calls.
  pub run_cached-IsHomogeneous :
      (c : Call V) (s : State api)
      → IsSingle c
      → IsHomogeneous s
      → IsHomogeneous (run_cached api c s).1
  run_cached-IsHomogeneous (command (create_object k n)) s i h =
      unfold run_cached in
      rw (state-name_reply (create_object_cached api k n) s) (
        from_Queued s (create_object_cached api k n s).1 (create_object k n)
          (create_object_cached-mode k n s) (create_object_cached-Queued k n s) h)
  run_cached-IsHomogeneous (command (delete_object k n)) s i h =
      unfold run_cached delete_object_cached in
      command-IsHomogeneous (delete_object k n) (api.delete_object k n) s h
  run_cached-IsHomogeneous (command (rename_object k old new)) s i h =
      unfold run_cached rename_object_cached in
      command-IsHomogeneous (rename_object k old new) (api.rename_object k old new) s h
  run_cached-IsHomogeneous (command (set_attribute k n a v)) s i h =
      unfold run_cached set_attribute_cached in
      command-IsHomogeneous (set_attribute k n a v) (api.set_attribute k n a v) s h
  run_cached-IsHomogeneous (command (set_attribute_insert k n a x)) s i h =
      unfold run_cached set_attribute_insert_cached in
      command-IsHomogeneous (set_attribute_insert k n a x) (api.set_attribute_insert k n a x) s h
  run_cached-IsHomogeneous (command (set_attribute_remove k n a x)) s i h =
      unfold run_cached set_attribute_remove_cached in
      command-IsHomogeneous (set_attribute_remove k n a x) (api.set_attribute_remove k n a x) s h
  run_cached-IsHomogeneous (restore_deleted_object k n) s i h =
      unfold run_cached in
      rw (state-no_reply (restore_deleted_object_cached api k n) s) (
        from_kept s (restore_deleted_object_cached api k n s).1
          (restore_deleted_object_cached-mode k n s) (restore_deleted_object_cached-pending k n s)
          h)
  run_cached-IsHomogeneous (apply_batched_changes cs) s i h = absurd i
  run_cached-IsHomogeneous (set_batching mode) s i h =
      unfold run_cached in
      rw (state-no_reply (set_command_batching api mode) s) (set_mode-IsHomogeneous mode s h)
