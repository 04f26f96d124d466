-- ===== src/Cli/Objects/Modify.antt =====
-- The modifications of the objects that a context stack names.
use deska.Base.{
  but_last, Bool, true, false, not, ◌&&◌, Option, none, some, List, [], ◌∷◌, ◌++◌, if◌then◌else◌,
  map, back,
}
use deska.Base.Text.{Text, is_empty, text_eq}
use deska.Db.Command.{
  ObjectModificationCommand, create_object, delete_object, rename_object, set_attribute,
  set_attribute_insert, set_attribute_remove,
}
use deska.Db.Exec.{fail, ◌>>=◌, ◌>>◌, pure}
use deska.Cli.Diff.Converters.{ObjectDefinition}
use deska.Cli.Path.{path_to_vector, vector_to_path}
use deska.Cli.Path.Context.{is_filter, object_item, filter_item}
use deska.Cli.Session.Interface.{mass_creating_embedded_error, other_error}
use deska.Cli.Session.Rebase.{or_throw}
use deska.Cli.Objects.State.{ObjectsApi, Method, call, note}
use deska.Cli.Objects.Exists.{object_exists}
use deska.Cli.Objects.Expand.{Item, expand_context_stack, ends_empty}

-- The path with another last name; `none` is the ContextStackConversionError.
unfoldable pub renamed_path : Text → Text → Option Text
unfolding path_to_vector vector_to_path
renamed_path name new = elim (path_to_vector name) [
  | none ↦ none
  | some ids ↦ some (vector_to_path (but_last ids ++ new ∷ []))
]

-- `pathToVector(name).back()`
unfoldable pub last_of : Text → Option Text
unfolding path_to_vector
last_of name = elim (path_to_vector name) [ none ↦ none | some ids ↦ back ids ]

module _ {V : Type 0} (api : ObjectsApi V) where
  -- The commands of a loop; `make` is what it sends for an object that is to be changed, which in a
  -- stable view is noted to exist or not from then on.
  unfoldable pub commands_for :
      Bool
      → (ObjectDefinition → ObjectModificationCommand V)
      → List ObjectDefinition
      → Method api (List (ObjectModificationCommand V))
  unfolding object_exists note
  commands_for wanted make [] = pure []
  commands_for wanted make (o ∷ os) =
      let rest = commands_for wanted make os in
      object_exists api o >>= λ exists.
      (if (if wanted then exists else not exists)
        then (do note api o (not wanted); cs ← rest; pure (make o ∷ cs))
        else rest)

  unfoldable pub delete_objects : List ObjectDefinition → Method api (Unit {0})
  unfolding commands_for
  delete_objects os = commands_for true (λ o. delete_object o.kind o.name) os >>= λ cs.
      call api (api.apply_batched_changes cs)

  -- the loop over more than one object in `createObject`
  unfoldable pub create_objects : List ObjectDefinition → Method api (Unit {0})
  unfolding commands_for
  create_objects os = commands_for false (λ o. create_object o.kind o.name) os >>= λ cs.
      call api (api.apply_batched_changes cs)

  -- the loop of `restoreDeletedObject`
  unfoldable pub restore_objects : List ObjectDefinition → Method api (Unit {0})
  unfolding object_exists note
  restore_objects [] = pure tt
  restore_objects (o ∷ os) =
      let rest = restore_objects os in
      object_exists api o >>= λ exists.
      (if exists
        then rest
        else call api (api.restore_deleted_object o.kind o.name) >> (note api o true >> rest))

  -- the loop of `renameObjects`
  unfoldable pub rename_commands :
      List ObjectDefinition → Text → Method api (List (ObjectModificationCommand V))
  unfolding renamed_path note
  rename_commands [] new = pure []
  rename_commands (o ∷ os) new = or_throw (renamed_path o.name new) >>= λ path. do
    note api o false
    note api (record { kind = o.kind; name = path }) true
    cs ← rename_commands os new
    pure (rename_object o.kind o.name path ∷ cs)

  unfoldable pub rename_objects : List ObjectDefinition → Text → Method api (Unit {0})
  unfolding rename_commands
  rename_objects os new = rename_commands os new >>= λ cs. call api (api.apply_batched_changes cs)

module _ {V : Type 0} (api : ObjectsApi V) (text : Text → V) where
  -- The context with the kind of its last item replaced.
  abbrev pub with_last_kind : Text → List (Item api text) → List (Item api text)
  with_last_kind k [] = []
  with_last_kind k (i ∷ []) = record i { kind = k } ∷ []
  with_last_kind k (i ∷ j ∷ r) = i ∷ with_last_kind k (j ∷ r)

  abbrev pub of_kind : Text → ObjectDefinition → ObjectDefinition
  of_kind k o = record { kind = k; name = o.name }

  -- The objects to create: for a filter the objects of the old kind, taken for ones of the new kind.
  unfoldable pub objects_of_kind :
      List (Item api text) → Item api text → Text → Method api (List ObjectDefinition)
  unfolding expand_context_stack
  objects_of_kind context last old_kind =
      if not (is_filter last.item_type)
      then expand_context_stack api text context
      else if is_empty old_kind
      then (λ s. (fail other_error, s))
      else expand_context_stack api text (with_last_kind old_kind context) >>= λ os.
          pure (map (of_kind last.kind) os)

  -- the BOOST_ASSERT on the name that is specified, and the item
  unfoldable pub created_one : ObjectDefinition → Text → Bool → Method api (Item api text)
  unfolding last_of
  created_one o new unnamed =
      if not unnamed && not (text_eq new o.name)
      then (λ s. (fail other_error, s))
      else (or_throw (last_of new) >>= λ name. pure (object_item o.kind name))

  -- One object: the server answers with its name.
  unfoldable pub create_one : ObjectDefinition → Method api (Item api text)
  unfolding note ends_empty created_one
  create_one o = do
    new ← call api (api.create_object o.kind o.name)
    note api o true
    unnamed ← or_throw (ends_empty o.name)
    created_one o new unnamed

  -- What `createObject` returns for more than one object; the throw of MassCreatingEmbeddedError.
  abbrev pub created_item : Item api text → Method api (Item api text)
  created_item last =
      if not (is_empty last.name)
      then pure (object_item last.kind last.name)
      else if is_filter last.item_type
      then pure (filter_item last.kind last.filter)
      else λ s. (fail mass_creating_embedded_error, s)

  abbrev create_listed : Item api text → List ObjectDefinition → Method api (Item api text)
  create_listed last [] s = (fail other_error, s)
  create_listed last (o ∷ []) s = create_one o s
  create_listed last (o ∷ p ∷ os) s = (create_objects api (o ∷ p ∷ os) >> created_item last) s

  unfoldable pub create_object_in : List (Item api text) → Text → Method api (Item api text)
  unfolding objects_of_kind create_one create_objects
  create_object_in context old_kind = or_throw (back context) >>= λ last.
      (objects_of_kind context last old_kind >>= create_listed last)

  -- `BOOST_ASSERT(!context.empty())`, and the objects of the context.
  abbrev pub objects_in : List (Item api text) → Method api (List ObjectDefinition)
  objects_in [] s = (fail other_error, s)
  objects_in (i ∷ r) s = expand_context_stack api text (i ∷ r) s

  unfoldable pub restore_deleted_object_in : List (Item api text) → Method api (Unit {0})
  unfolding restore_objects expand_context_stack
  restore_deleted_object_in context = objects_in context >>= restore_objects api

  unfoldable pub delete_object_in : List (Item api text) → Method api (Unit {0})
  unfolding delete_objects expand_context_stack
  delete_object_in context = objects_in context >>= delete_objects api

  unfoldable pub rename_object_in : List (Item api text) → Text → Method api (Unit {0})
  unfolding rename_objects expand_context_stack
  rename_object_in context new = objects_in context >>= λ os. rename_objects api os new

  -- One command for each object of the context.
  unfoldable pub send_for :
      (ObjectDefinition → ObjectModificationCommand V)
      → List (Item api text)
      → Method api (Unit {0})
  unfolding expand_context_stack
  send_for make context =
      objects_in context >>= λ os. call api (api.apply_batched_changes (map make os))

  unfoldable pub set_attribute_in : List (Item api text) → Text → Option V → Method api (Unit {0})
  unfolding send_for
  set_attribute_in context a v = send_for (λ o. set_attribute o.kind o.name a v) context

  unfoldable pub set_attribute_insert_in :
      List (Item api text) → Text → Text → Method api (Unit {0})
  unfolding send_for
  set_attribute_insert_in context a i =
      send_for (λ o. set_attribute_insert o.kind o.name a i) context

  unfoldable pub set_attribute_remove_in :
      List (Item api text) → Text → Text → Method api (Unit {0})
  unfolding send_for
  set_attribute_remove_in context a i =
      send_for (λ o. set_attribute_remove o.kind o.name a i) context

  unfoldable pub remove_attribute_in : List (Item api text) → Text → Method api (Unit {0})
  unfolding send_for
  remove_attribute_in context a = send_for (λ o. set_attribute o.kind o.name a none) context
