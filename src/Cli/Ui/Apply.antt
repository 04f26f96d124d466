-- ===== src/Cli/Ui/Apply.antt =====
-- The application of the signals of the parser.
use deska.Base.{
  Bool, true, false, not, ◌&&◌, ◌||◌, Option, none, some, List, [], ◌∷◌, ◌++◌, back, if◌then◌else◌,
}
use deska.Base.Text.{Text, codes, text_eq, is_empty}
use deska.Db.Exec.{Result, ok, fail, ◌>>=◌, ◌>>◌, pure}
use deska.Db.Filter.{Filter}
use deska.Cli.Diff.Converters.{ObjectDefinition}
use deska.Cli.Path.Context.{context_stack_to_path, object_item}
use deska.Cli.Session.Interface.{
  Fault, re_create_object_error, already_exists_error, mass_creating_embedded_error,
}
use deska.Cli.Session.Rebase.{or_throw}
use deska.Cli.Objects.State.{ObjectsApi, Method}
use deska.Cli.Objects.Context.{object_exists_in}
use deska.Cli.Objects.Expand.{expand_context_stack}
use deska.Cli.Objects.Modify.{
  with_last_kind, create_object_in, restore_deleted_object_in, delete_object_in, delete_objects,
  rename_object_in, rename_objects, set_attribute_in, set_attribute_insert_in,
  set_attribute_remove_in, remove_attribute_in,
}
use deska.Cli.Signals.Interface.{Item, ContextStack}
use deska.Cli.Ui.State.{Ui, Call, on_interaction, report_error, is_non_interactive}

-- The further answers of the user.
pub record ApplyIo : Type 0 where
  pub confirm_restoration : ObjectDefinition → Bool
  pub confirm_deletion_nested : List ObjectDefinition → Bool
  pub confirm_rename_connected : List ObjectDefinition → Bool

-- `nested` is allNestedObjectsTransitively, which Wired gives, `connected`
-- connectedObjectsTransitively.
module _ {V : Type 0} (api : ObjectsApi V) (text : Text → V) (io : ApplyIo)
    (nested connected : ContextStack V → Method api (List ObjectDefinition)) where
  abbrev object : Text → Text → ObjectDefinition
  object k n = record { kind = k; name = n }

  abbrev found : ContextStack V → Text → Call api Bool
  found c old = on_interaction api (object_exists_in api text c old)

  -- `io->reportError(e); return false;`
  abbrev reported : {A : Type 0} → Text → A → Call api A
  reported e a u = (ok a, report_error api e u)

  -- What follows a ReCreateObjectError: the object of a context with a path is restored if that is
  -- wanted.
  unfoldable pub restored : ContextStack V → Text → Text → Text → Call api Bool
  unfolding context_stack_to_path restore_deleted_object_in
  restored c k n filter_error = elim (context_stack_to_path c) [
    | none ↦ reported filter_error false
    | some path ↦ λ u.
        (if is_non_interactive api u || io.confirm_restoration (object k n)
          then (on_interaction api (restore_deleted_object_in api text (object_item k path ∷ []))
                >> pure true)
              u
          else (ok false, u))
  ]

  -- `newItem` of the restored object
  abbrev with_item : Item V → Bool → Bool × Item V
  with_item i b = (b, i)

  abbrev brand_new : Text
  brand_new =
      codes
        "Sorry, object(s) you are attempting to create has been deleted in this changeset, and therefore cannot be created as a brand new instance."

  abbrev from_filter : Text
  from_filter =
      codes
        "Sorry, object(s) you are attempting to create has been deleted in this changeset, and therefore cannot be restored from filter."

  unfoldable pub re_created : ContextStack V → Text → Text → Call api (Bool × Item V)
  unfolding restored
  re_created c k n =
      if is_empty n
      then reported brand_new (false, object_item k n)
      else restored c k n from_filter >>= λ b. pure (with_item (object_item k n) b)

  -- `parsingFailed = true; return false;` after a message
  abbrev failed : Text → Item V → Call api (Bool × Item V)
  failed e i u = (ok (false, i), record (report_error api e u) { parsing_failed = true })

  -- `operator<<` of ObjectDefinition
  unfoldable pub object_text : Text → Text → Text
  object_text k n = if is_empty n then codes "new " ++ k else k ++ (codes " " ++ n)

  -- The handlers of applyCreateObject. Nothing is said of `newItem` where false is returned.
  abbrev create_handled :
      ContextStack V
      → Text
      → Text
      → Result Fault (Item V) × Ui api
      → Result Fault (Bool × Item V) × Ui api
  create_handled c k n (ok i, u) = (ok (true, i), u)
  create_handled c k n (fail re_create_object_error, u) = re_created c k n u
  create_handled c k n (fail already_exists_error, u) =
      failed (codes "Object " ++ (object_text k n ++ codes " already exists!")) (object_item k n) u
  create_handled c k n (fail mass_creating_embedded_error, u) =
      failed (codes "Mass-creating of the nested objects is not supported, sorry.")
        (object_item k n) u
  create_handled c k n (fail e, u) = (fail e, u)

  unfoldable pub apply_create_object : ContextStack V → Text → Text → Call api (Bool × Item V)
  unfolding create_object_in re_created
  apply_create_object c k n u =
      create_handled c k n (on_interaction api (create_object_in api text c []) u)

  -- the handler of applyCategoryEntered
  abbrev entered_handled :
      ContextStack V
      → Text
      → Text
      → Result Fault (Item V) × Ui api
      → Result Fault (Bool × Item V) × Ui api
  entered_handled c k n (ok i, u) = (ok (true, i), u)
  entered_handled c k n (fail re_create_object_error, u) = re_created c k n u
  entered_handled c k n (fail e, u) = (fail e, u)

  unfoldable pub apply_category_entered : ContextStack V → Text → Text → Call api (Bool × Item V)
  unfolding object_exists_in create_object_in re_created
  apply_category_entered c k n = found c [] >>= λ exists.
      (if exists then pure (true, object_item k n) else λ u.
      entered_handled c k n (on_interaction api (create_object_in api text c []) u))

  abbrev from_contained : Text
  from_contained =
      codes
        "Sorry, object(s) you are attempting to create has been deleted in this changeset, and therefore cannot be restored when accessing contained objects from filter."

  -- The contained object is created where it is missing; whether to go on.
  abbrev contained_handled :
      ContextStack V → Text → Item V → Result Fault (Item V) × Ui api → Result Fault Bool × Ui api
  contained_handled c k last (ok i, u) = (ok true, u)
  contained_handled c k last (fail re_create_object_error, u) =
      restored c k last.name from_contained u
  contained_handled c k last (fail e, u) = (fail e, u)

  unfoldable pub contained_created : ContextStack V → Text → Item V → Call api Bool
  unfolding object_exists_in create_object_in restored
  contained_created c k last =
      if text_eq last.kind k
      then pure true
      else found (with_last_kind api text k c) last.kind >>= λ exists.
          (if exists then pure true else λ u. contained_handled c k last (
            on_interaction api (create_object_in api text (with_last_kind api text k c) last.kind)
              u))

  -- `adjustedContext`
  abbrev adjusted : ContextStack V → Text → Item V → ContextStack V
  adjusted c k last = if text_eq last.kind k then c else with_last_kind api text k c

  abbrev if_ready : Method api (Unit {0}) → Bool → Call api Bool
  if_ready m ready = if ready then on_interaction api m >> pure true else pure false

  unfoldable pub apply_set_attribute : ContextStack V → Text → Text → Option V → Call api Bool
  unfolding contained_created set_attribute_in
  apply_set_attribute c k a v = or_throw (back c) >>= λ last.
      (contained_created c k last >>= if_ready (set_attribute_in api text (adjusted c k last) a v))

  unfoldable pub apply_set_attribute_insert : ContextStack V → Text → Text → Text → Call api Bool
  unfolding contained_created set_attribute_insert_in
  apply_set_attribute_insert c k a v = or_throw (back c) >>= λ last.
      (contained_created c k last
        >>= if_ready (set_attribute_insert_in api text (adjusted c k last) a v))

  -- whether the contained object is there
  abbrev contained_there : ContextStack V → Text → Item V → Call api Bool
  contained_there c k last =
      if text_eq last.kind k then pure true else found (with_last_kind api text k c) last.kind

  unfoldable pub apply_set_attribute_remove : ContextStack V → Text → Text → Text → Call api Bool
  unfolding object_exists_in set_attribute_remove_in
  apply_set_attribute_remove c k a v = or_throw (back c) >>= λ last.
      (contained_there c k last
        >>= if_ready (set_attribute_remove_in api text (adjusted c k last) a v))

  unfoldable pub apply_remove_attribute : ContextStack V → Text → Text → Call api Bool
  unfolding object_exists_in remove_attribute_in
  apply_remove_attribute c k a = or_throw (back c) >>= λ last.
      (contained_there c k last >>= if_ready (remove_attribute_in api text (adjusted c k last) a))

  abbrev has_any : List ObjectDefinition → Bool
  has_any [] = false
  has_any (o ∷ os) = true

  unfoldable pub apply_objects_filter : ContextStack V → Text → Option (Filter V) → Call api Bool
  unfolding expand_context_stack
  apply_objects_filter c k f =
      on_interaction api (expand_context_stack api text c) >>= λ os. pure (has_any os)

  -- with the nested objects, none or some
  unfoldable pub delete_with : ContextStack V → List ObjectDefinition → Call api Bool
  unfolding delete_object_in expand_context_stack delete_objects
  delete_with c [] u = (on_interaction api (delete_object_in api text c) >> pure true) u
  delete_with c (o ∷ os) u =
      if is_non_interactive api u || io.confirm_deletion_nested (o ∷ os)
      then (on_interaction api (expand_context_stack api text c) >>= λ objects.
            (on_interaction api (delete_objects api (objects ++ (o ∷ os))) >> pure true))
          u
      else (ok false, u)

  unfoldable pub apply_function_delete : ContextStack V → Call api Bool
  unfolding delete_with
  apply_function_delete c = on_interaction api (nested c) >>= delete_with c

  abbrev rename_confirmed : List ObjectDefinition → Ui api → Bool
  rename_confirmed [] u = false
  rename_confirmed (o ∷ os) u =
      not (is_non_interactive api u) && io.confirm_rename_connected (o ∷ os)

  unfoldable pub apply_function_rename : ContextStack V → Text → Call api Bool
  unfolding rename_object_in rename_objects expand_context_stack
  apply_function_rename c n = on_interaction api (connected c) >>= λ os. λ u.
      (if rename_confirmed os u
          then (on_interaction api (expand_context_stack api text c) >>= λ objects.
              (on_interaction api (rename_objects api (objects ++ os) n) >> pure true))
          else on_interaction api (rename_object_in api text c n) >> pure true)
        u
