-- ===== src/Cli/Objects/Histories.antt =====
-- The calls of DbInteraction by the session, one after the other.
use deska.Base.{All, ℕ, false, Option, some, List, [], ◌∷◌, ◌≡◌, subst}
use deska.Base.Text.{Text}
use deska.Db.Exec.{ok, ◌>>=◌, ◌>>◌, pure, >>=-eq-ok, pure-eq-ok}
use deska.Cli.Diff.Converters.{ObjectDefinition}
use deska.Cli.Objects.Key.{object_ord}
use deska.Cli.Objects.State.{
  ObjectsApi, State, Method, create_new_changeset, resume_changeset, commit_changeset,
  detach_from_changeset, abort_changeset, freeze_view, unfreeze_view,
}
use deska.Cli.Objects.Exists.{object_exists}
use deska.Cli.Objects.Expand.{Item, ends_empty, expand_context_stack}
use deska.Cli.Objects.Changed.{HasLocal}
use deska.Cli.Objects.Nested.{all_nested_objects_in}
use deska.Cli.Objects.Contained.{contained_objects_in}
use deska.Cli.Objects.Modify.{
  delete_objects, create_objects, create_one, delete_object_in, restore_deleted_object_in,
  set_attribute_in, set_attribute_insert_in, set_attribute_remove_in, remove_attribute_in,
}

-- The calls; the creation of one object and the mass creation are of names that have their local part.
pub data Request (V I : Type 0) : Type 0 where
  exists_request : ObjectDefinition → Request V I
  expand_request : List I → Request V I
  nested_request : List I → Request V I
  contained_request : List I → Request V I
  create_one_request : (o : ObjectDefinition) → ends_empty o.name ≡ some false → Request V I
  create_request : (os : List ObjectDefinition) → All HasLocal os → Request V I
  restore_request : List I → Request V I
  delete_request : List I → Request V I
  delete_listed_request : List ObjectDefinition → Request V I
  set_request : List I → Text → Option V → Request V I
  insert_request : List I → Text → Text → Request V I
  remove_request : List I → Text → Text → Request V I
  remove_attribute_request : List I → Text → Request V I
  start_request : Request V I
  resume_request : ℕ → Request V I
  commit_request : Text → Request V I
  detach_request : Text → Request V I
  abort_request : Request V I
  freeze_request : Request V I
  unfreeze_request : Request V I

module _ {V : Type 0} (api : ObjectsApi V) where
  -- a call whose result is not looked at
  abbrev pub done : {A : Type 0} → Method api A → Method api (Unit {0})
  done m = m >>= λ a. pure tt

  pub done-eq-ok :
      {A : Type 0} (m : Method api A) (s : State api) (u : Unit {0}) (t : State api)
      → done m s ≡ (ok u, t)
      → (a : A) × (m s ≡ (ok a, t))
  done-eq-ok m s u t h =
      let (a, v, p, q) = >>=-eq-ok m (λ a. pure tt) s h in
      (a, subst (λ w. m s ≡ (ok a, w)) (pure-eq-ok tt v q).1 p)

module _ {V : Type 0} (api : ObjectsApi V) (text : Text → V) where
  unfoldable pub run : Request V (Item api text) → Method api (Unit {0})
  unfolding object_exists
  run (exists_request o) = done api (object_exists api o)
  run (expand_request c) = done api (expand_context_stack api text c)
  run (nested_request c) = done api (all_nested_objects_in api text c)
  run (contained_request c) = done api (contained_objects_in api text c)
  run (create_one_request o h) = done api (create_one api text o)
  run (create_request os h) = create_objects api os
  run (restore_request c) = restore_deleted_object_in api text c
  run (delete_request c) = delete_object_in api text c
  run (delete_listed_request os) = delete_objects api os
  run (set_request c a v) = set_attribute_in api text c a v
  run (insert_request c a i) = set_attribute_insert_in api text c a i
  run (remove_request c a i) = set_attribute_remove_in api text c a i
  run (remove_attribute_request c a) = remove_attribute_in api text c a
  run start_request = done api (create_new_changeset api)
  run (resume_request c) = resume_changeset api c
  run (commit_request m) = done api (commit_changeset api m)
  run (detach_request m) = detach_from_changeset api m
  run abort_request = abort_changeset api
  run freeze_request = freeze_view api
  run unfreeze_request = unfreeze_view api

  unfoldable pub runs : List (Request V (Item api text)) → Method api (Unit {0})
  unfolding run
  runs [] = pure tt
  runs (r ∷ rs) = run r >> runs rs
