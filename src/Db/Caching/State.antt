-- ===== src/Db/Caching/State.antt =====
-- The fields of `CachingJsonApi`, the tests on the queue, and the flush of the queue.
use deska.Base.{ℕ, Bool, true, false, ◌&&◌, none, some, List, [], ◌∷◌, ◌++◌, back}
use deska.Base.Text.{Text, text_eq}
use deska.Base.Dict.{Dict}
use deska.Db.Objects.{KindAttributeDataType, ObjectRelation}
use deska.Db.Command.{ObjectModificationCommand, extract_kind, extract_id}
use deska.Db.Exec.{Exec, ok, ◌>>◌, pure}
use deska.Db.Caching.Api.{JsonApi}

pub data CommandBatchingMode : Type 0 where
  send_immediately cache_same_object cache_same_kind : CommandBatchingMode

-- The two maps of the `FakeApi` that serves as the cache.
pub record FakeApi : Type 0 where
  pub attrs : Dict Text (List KindAttributeDataType)
  pub relations : Dict Text (List ObjectRelation)

-- `server` is the base object, `JsonApiParser`.
pub record CachingJsonApi (V S : Type 0) : Type 0 where
  pub server : S
  pub cache : FakeApi
  pub asked_for_metadata : Bool
  pub pending_modifications : List (ObjectModificationCommand V)
  pub command_batching : CommandBatchingMode

-- The values of the enumeration, by which `mode < m_commandBatching` compares.
abbrev pub mode_rank : CommandBatchingMode → ℕ
mode_rank send_immediately = 0
mode_rank cache_same_object = 1
mode_rank cache_same_kind = 2

module _ {V : Type 0} where
  unfoldable pub is_previous_same_object_as :
      List (ObjectModificationCommand V) → Text → Text → Bool
  unfolding extract_id
  is_previous_same_object_as pending k n = elim (back pending) [
    | none ↦ true
    | some c ↦ text_eq (extract_id c).0 k && text_eq (extract_id c).1 n
  ]

  unfoldable pub is_previous_same_kind_as : List (ObjectModificationCommand V) → Text → Bool
  unfolding extract_kind
  is_previous_same_kind_as pending k = elim (back pending) [
    | none ↦ true
    | some c ↦ text_eq (extract_kind c) k
  ]

-- The constructor.
abbrev pub fresh : {V S : Type 0} → S → CachingJsonApi V S
fresh t = record {
  server = t;
  cache = record { attrs = []; relations = [] };
  asked_for_metadata = false;
  pending_modifications = [];
  command_batching = send_immediately;
}

module _ {V : Type 0} (api : JsonApi V) where
  abbrev pub State : Type 0
  State = CachingJsonApi V api.Server

  -- A call of the base class.
  abbrev pub base : {A : Type 0} → Exec api.Server api.Fault A → Exec State api.Fault A
  base m s = ((m s.server).0, record s { server = (m s.server).1 })

  abbrev pub clear_pending : Exec State api.Fault (Unit {0})
  clear_pending s = (ok tt, record s { pending_modifications = [] })

  -- If the call throws, the queue stays as it is.
  unfoldable pub flush_commands_now : Exec State api.Fault (Unit {0})
  flush_commands_now s = elim s.pending_modifications [
    | [] ↦ (ok tt, s)
    | c ∷ cs ↦ (base (api.apply_batched_changes (c ∷ cs)) >> clear_pending) s
  ]

  -- `if (!test) flushCommandsNow();`
  abbrev pub flush_unless : Bool → Exec State api.Fault (Unit {0})
  flush_unless true = pure tt
  flush_unless false = flush_commands_now

  -- `m_pendingModifications.push_back(c)`, and `std::copy` to the end of the queue.
  abbrev pub push_back : List (ObjectModificationCommand V) → Exec State api.Fault (Unit {0})
  push_back cs s = (ok tt, record s { pending_modifications = s.pending_modifications ++ cs })
