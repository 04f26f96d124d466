-- ===== src/Cli/Objects/State.antt =====
-- The calls of `Db::Api` that DbInteraction makes, and its fields.
use deska.Base.{ℕ, Bool, true, false, Option, List, [], if◌then◌else◌}
use deska.Base.Text.{Text}
use deska.Base.Dict.{Dict, insert}
use deska.Db.Command.{ObjectModificationCommand}
use deska.Db.Exec.{Exec, ok, ◌>>◌}
use deska.Db.Filter.{Filter}
use deska.Cli.Diff.Converters.{ObjectDefinition}
use deska.Cli.Relations.{Relations, touch}
use deska.Cli.Session.Interface.{Fault}
use deska.Cli.Objects.Key.{object_ord}

pub record ObjectsApi (V : Type 0) : Type 1 where
  pub Server : Type 0
  pub kind_instances : Text → Option (Filter V) → Exec Server Fault (List Text)
  pub object_data : Text → Text → Exec Server Fault (List (Text × Option V))
  pub create_object : Text → Text → Exec Server Fault Text
  pub restore_deleted_object : Text → Text → Exec Server Fault (Unit {0})
  pub apply_batched_changes : List (ObjectModificationCommand V) → Exec Server Fault (Unit {0})
  pub start_changeset : Exec Server Fault ℕ
  pub resume_changeset : ℕ → Exec Server Fault (Unit {0})
  pub commit_changeset : Text → Exec Server Fault ℕ
  pub detach_from_current_changeset : Text → Exec Server Fault (Unit {0})
  pub abort_current_changeset : Exec Server Fault (Unit {0})
  pub freeze_view : Exec Server Fault (Unit {0})
  pub unfreeze_view : Exec Server Fault (Unit {0})

-- `DbInteraction`; `server` stands for `m_api` with the server behind it.
pub record Interaction (S : Type 0) : Type 0 where
  pub server : S
  pub relations : Relations
  pub stable_view : Bool
  pub object_exists_cache : Dict ObjectDefinition Bool

module _ {V : Type 0} (api : ObjectsApi V) where
  abbrev pub State : Type 0
  State = Interaction api.Server

  abbrev pub Method : Type 0 → Type 0
  Method A = Exec State Fault A

  -- `embeds[k]` and `contains[k]` where they are only read
  abbrev pub touch_embeds : Text → State → State
  touch_embeds k s = record s {
    relations = record (s.relations) { embeds = touch k s.relations.embeds };
  }

  abbrev pub touch_contains : Text → State → State
  touch_contains k s = record s {
    relations = record (s.relations) { contains = touch k s.relations.contains };
  }

  -- a call of `m_api`
  abbrev pub call : {A : Type 0} → Exec api.Server Fault A → Method A
  call m s = ((m s.server).0, record s { server = (m s.server).1 })

  -- `objectExistsCache[o] = b`
  abbrev pub store : ObjectDefinition → Bool → State → State
  store o b s = record s { object_exists_cache = insert o b s.object_exists_cache }

  -- `if (stableView) objectExistsCache[o] = b;`
  unfoldable pub note : ObjectDefinition → Bool → Method (Unit {0})
  note o b s = (ok tt, if s.stable_view then store o b s else s)

  -- `clearCache(); stableView = b;`
  unfoldable pub reset_view : Bool → Method (Unit {0})
  reset_view b s = (ok tt, record s { stable_view = b; object_exists_cache = [] })

  unfoldable pub clear_cache : Method (Unit {0})
  clear_cache s = (ok tt, record s { object_exists_cache = [] })

  unfoldable pub create_new_changeset : Method ℕ
  unfolding reset_view
  create_new_changeset = reset_view true >> call api.start_changeset

  unfoldable pub resume_changeset : ℕ → Method (Unit {0})
  unfolding reset_view
  resume_changeset c = reset_view true >> call (api.resume_changeset c)

  unfoldable pub commit_changeset : Text → Method ℕ
  unfolding reset_view
  commit_changeset message = reset_view false >> call (api.commit_changeset message)

  unfoldable pub detach_from_changeset : Text → Method (Unit {0})
  unfolding reset_view
  detach_from_changeset message =
      reset_view false >> call (api.detach_from_current_changeset message)

  unfoldable pub abort_changeset : Method (Unit {0})
  unfolding reset_view
  abort_changeset = reset_view false >> call api.abort_current_changeset

  unfoldable pub freeze_view : Method (Unit {0})
  unfolding reset_view
  freeze_view = reset_view true >> call api.freeze_view

  unfoldable pub unfreeze_view : Method (Unit {0})
  unfolding reset_view
  unfreeze_view = reset_view false >> call api.unfreeze_view
