-- ===== src/Cli/Objects/Context.antt =====
-- `objectExists` of a context stack.
use deska.Base.{Bool, false, not, ◌&&◌, ◌||◌, List, [], ◌∷◌, map, back, if◌then◌else◌}
use deska.Base.Text.{Text, is_empty}
use deska.Db.Exec.{◌>>=◌, pure}
use deska.Cli.Diff.Converters.{ObjectDefinition}
use deska.Cli.Path.Context.{is_filter}
use deska.Cli.Session.Rebase.{or_throw}
use deska.Cli.Objects.State.{ObjectsApi, Method}
use deska.Cli.Objects.Exists.{all_exist}
use deska.Cli.Objects.Expand.{Item, expand_context_stack}
use deska.Cli.Objects.Modify.{with_last_kind, of_kind}

module _ {V : Type 0} (api : ObjectsApi V) (text : Text → V) where
  abbrev has_unnamed : List (Item api text) → Bool
  has_unnamed [] = false
  has_unnamed (i ∷ r) = not (is_filter i.item_type) && is_empty i.name || has_unnamed r

  -- the objects; those of the old kind are taken for ones of the kind
  unfoldable pub objects_to_check :
      List (Item api text) → Item api text → Text → Method api (List ObjectDefinition)
  unfolding expand_context_stack
  objects_to_check context last old_kind =
      if not (is_filter last.item_type) || is_empty old_kind
      then expand_context_stack api text context
      else expand_context_stack api text (with_last_kind api text old_kind context) >>= λ os.
          pure (map (of_kind api text last.kind) os)

  -- `back` of an empty context is the BOOST_ASSERT.
  unfoldable pub object_exists_in : List (Item api text) → Text → Method api Bool
  unfolding objects_to_check all_exist
  object_exists_in context old_kind = or_throw (back context) >>= λ last.
      (if has_unnamed context
        then pure false
        else objects_to_check context last old_kind >>= all_exist api)
