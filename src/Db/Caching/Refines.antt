-- ===== src/Db/Caching/Refines.antt =====
-- The server that a cache stands for, with the queue sent, against the one of the plain API.
use deska.Base.{List, [], ◌∷◌, ◌++◌, ◌≡◌, arith, Bool-cases, false, inl, inr, ◌∙◌}
use deska.Base.Text.{Text, is_empty}
use deska.Db.Command.{ObjectModificationCommand, create_object, ends_in_arrow, lacks_local}
use deska.Db.Exec.{ok}
use deska.Db.Caching.Api.{JsonApi, BatchLaws, send}
use deska.Db.Caching.State.{CommandBatchingMode, send_immediately, State, flush_commands_now}
use deska.Db.Caching.Commands.{
  cached_command, restore_deleted_object_cached, create_object_cached, apply_batched_changes_cached,
  set_command_batching,
}

lacks_local-named :
    (n : Text) → is_empty n ≡ false → ends_in_arrow n ≡ false → lacks_local n ≡ false
lacks_local-named [] h k = cc
lacks_local-named (c ∷ s) h k = k

module _ {V : Type 0} (api : JsonApi V) where
  -- `s` stands for the server `t`: the queue, applied now, leads there.
  pub record Represents (s : State api) (t : api.Server) : Type 0 where
    pub applied : api.apply_batched_changes s.pending_modifications s.server ≡ (ok tt, t)
    pub immediate : s.command_batching ≡ send_immediately → s.pending_modifications ≡ []

module _ {V : Type 0} (api : JsonApi V) (laws : BatchLaws api) where
  abbrev flushed : State api → api.Server → State api
  flushed s t = record s { server = t; pending_modifications = [] }

  -- flushing succeeds, and empties the queue
  pub flush-Represents :
      (s : State api) (t : api.Server)
      → Represents api s t
      → flush_commands_now api s ≡ (ok tt, flushed s t)
  unfolding flush_commands_now
  flush-Represents s t h = ground (arith, laws.batch_nil s.server)

  -- one more command that the plain API would accept goes to the end of the queue
  push-Represents :
      (s : State api) (t u : api.Server) (c : ObjectModificationCommand V)
      → (s.command_batching ≡ send_immediately → s.pending_modifications ≡ [])
      → Represents api s t
      → send api c t ≡ (ok tt, u)
      → api.apply_batched_changes (s.pending_modifications ++ c ∷ []) s.server ≡ (ok tt, u)
  push-Represents s t u c i h e =
      laws.batch_append s.pending_modifications (c ∷ []) s.server t h.applied
      ∙ laws.batch_one c t u e

  -- A queued or immediate command does to the server what the command itself does.
  module _ (s : State api) (t u : api.Server) (k n : Text) (c : ObjectModificationCommand V)
      (h : Represents api s t) (e : send api c t ≡ (ok tt, u)) where
    pub cached_command-ok : (cached_command api (send api c) k n c s).0 ≡ ok tt
    unfolding cached_command
    cached_command-ok = ground (arith, flush-Represents s t h, laws.batch_nil s.server)

    pub cached_command-Represents : Represents api (cached_command api (send api c) k n c s).1 u
    unfolding cached_command
    cached_command-Represents = record {
      applied = ground (
        arith,
        flush-Represents s t h,
        laws.batch_nil s.server,
        push-Represents s t u c h.immediate h e,
        laws.batch_one c t u e,
        laws.batch_nil u,
      );
      immediate = ground (arith, flush-Represents s t h, laws.batch_nil s.server);
    }

  module _ (s : State api) (t u : api.Server) (k n m : Text) (h : Represents api s t)
      (e : api.create_object k n t ≡ (ok m, u)) where
    pub create_object_cached-ok :
        ends_in_arrow n ≡ false → (create_object_cached api k n s).0 ≡ ok m
    unfolding create_object_cached
    create_object_cached-ok whole = elim (Bool-cases (is_empty n)) [
      | inl unnamed ↦ ground (arith, flush-Represents s t h, laws.batch_nil s.server)
      | inr named ↦ ground (
        arith,
        flush-Represents s t h,
        laws.batch_nil s.server,
        laws.created_name k n m t u (lacks_local-named n named whole) e,
      )
    ]

    -- the creation as a command of a batch
    send-create : send api (create_object k n) t ≡ (ok tt, u)
    unfolding send
    send-create = rw e

    pub create_object_cached-Represents : Represents api (create_object_cached api k n s).1 u
    unfolding create_object_cached
    create_object_cached-Represents = record {
      applied = ground (
        arith,
        flush-Represents s t h,
        laws.batch_nil s.server,
        laws.batch_nil u,
        push-Represents s t u (create_object k n) h.immediate h send-create,
        laws.batch_one (create_object k n) t u send-create,
      );
      immediate = ground (arith, flush-Represents s t h, laws.batch_nil s.server);
    }

  module _ (s : State api) (t u : api.Server) (k n : Text) (h : Represents api s t)
      (e : api.restore_deleted_object k n t ≡ (ok tt, u)) where
    pub restore_deleted_object_cached-ok : (restore_deleted_object_cached api k n s).0 ≡ ok tt
    unfolding restore_deleted_object_cached
    restore_deleted_object_cached-ok = ground (arith, flush-Represents s t h)

    pub restore_deleted_object_cached-Represents :
        Represents api (restore_deleted_object_cached api k n s).1 u
    unfolding restore_deleted_object_cached
    restore_deleted_object_cached-Represents = record {
      applied = ground (arith, flush-Represents s t h, laws.batch_nil u);
      immediate = ground (arith, flush-Represents s t h);
    }

  module _ (s : State api) (t u : api.Server) (cs : List (ObjectModificationCommand V))
      (h : Represents api s t) (e : api.apply_batched_changes cs t ≡ (ok tt, u)) where
    pub apply_batched_changes_cached-ok : (apply_batched_changes_cached api cs s).0 ≡ ok tt
    unfolding apply_batched_changes_cached
    apply_batched_changes_cached-ok = ground (arith, laws.batch_nil s.server)

    pub apply_batched_changes_cached-Represents :
        Represents api (apply_batched_changes_cached api cs s).1 u
    unfolding apply_batched_changes_cached
    apply_batched_changes_cached-Represents = record {
      applied = ground (
        arith,
        laws.batch_nil s.server,
        laws.batch_nil u,
        laws.batch_append s.pending_modifications cs s.server t h.applied,
      );
      immediate = ground arith;
    }

  module _ (s : State api) (t : api.Server) (mode : CommandBatchingMode)
      (h : Represents api s t) where
    pub set_command_batching-ok : (set_command_batching api mode s).0 ≡ ok tt
    unfolding set_command_batching
    set_command_batching-ok = ground (arith, flush-Represents s t h)

    pub set_command_batching-Represents : Represents api (set_command_batching api mode s).1 t
    unfolding set_command_batching
    set_command_batching-Represents = record {
      applied = ground (arith, flush-Represents s t h, h.applied, laws.batch_nil t);
      immediate = ground (arith, flush-Represents s t h);
    }
