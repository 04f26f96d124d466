-- ===== src/Cli/Objects/Coherence.antt =====
-- The cache of existing objects over a whole session.
use deska.Base.{true, false, none, some, List, [], ◌∷◌, map, ◌≡◌, refl, ap, subst}
use deska.Base.Text.{Text}
use deska.Db.Command.{
  ObjectModificationCommand, set_attribute, set_attribute_insert, set_attribute_remove,
}
use deska.Db.Exec.{ok, ◌>>=◌}
use deska.Cli.Diff.Converters.{ObjectDefinition}
use deska.Cli.Session.Triples.{triple_bind}
use deska.Cli.Objects.Key.{object_ord}
use deska.Cli.Objects.State.{
  ObjectsApi, State, Method, call, create_new_changeset, resume_changeset, commit_changeset,
  detach_from_changeset, abort_changeset, freeze_view, unfreeze_view,
}
use deska.Cli.Objects.Exists.{object_exists}
use deska.Cli.Objects.Expand.{Item, ends_empty, expand_context_stack}
use deska.Cli.Objects.Modify.{
  delete_objects, create_objects, restore_objects, create_one, objects_in, delete_object_in,
  restore_deleted_object_in, send_for, set_attribute_in, set_attribute_insert_in,
  set_attribute_remove_in, remove_attribute_in,
}
use deska.Cli.Objects.Laws.{effect, update, ExistenceLaws, Coherent}
use deska.Cli.Objects.Cached.{object_exists_lem}
use deska.Cli.Objects.Created.{created_one_lem}
use deska.Cli.Objects.View.{
  Same-object_exists, Same-delete, Same-create, Same-restore, Same-expand, Same-objects_in,
  Same-send_for, Same-create_one, view, Same,
}
use deska.Cli.Session.Triples.{Keeps-bind}
use deska.Cli.Objects.Histories.{
  Request, exists_request, expand_request, nested_request, contained_request, create_one_request,
  create_request, restore_request, delete_request, delete_listed_request, set_request,
  insert_request, remove_request, remove_attribute_request, start_request, resume_request,
  commit_request, detach_request, abort_request, freeze_request, unfreeze_request, done, done-eq-ok,
  run, runs,
}
use deska.Cli.Objects.Nested.{all_nested_objects_in}
use deska.Cli.Objects.Kept.{Fine-nested}
use deska.Cli.Objects.Contained.{contained_objects_in}
use deska.Cli.Objects.Contained.Kept.{Fine-contained}
use deska.Cli.Objects.Settled.{
  Fine, Settles, Harmless, Fine-reset, Fine-modification, expand_kept, settled_in, settled_delete,
  settled_create, settled_restore, settled_send,
}

module _ {V : Type 0} (api : ObjectsApi V) (laws : ExistenceLaws api) where
  abbrev F : {A : Type 0} → Method api A → Type 0
  F = Fine api laws

  Fine-done : {A : Type 0} (m : Method api A) → F m → F (done api m)
  Fine-done m h s u t p e = let (a, q) = done-eq-ok api m s u t e in h s a t p q

  Fine-exists : (o : ObjectDefinition) → F (object_exists api o)
  Fine-exists o =
      Fine-modification api laws (object_exists api o) (Same-object_exists api o)
        (λ e s a t p h. (e, (object_exists_lem api laws o e e s a t p h).1))

  module _ (text : Text → V) where
    Fine-expand : (c : List (Item api text)) → F (expand_context_stack api text c)
    Fine-expand c =
        Fine-modification api laws (expand_context_stack api text c) (Same-expand api text c)
          (λ e s a t p h. (e, expand_kept api laws text c e s a t p h))

    Fine-in :
        {A : Type 0} (c : List (Item api text)) (m : List ObjectDefinition → Method api A)
        → ((os : List ObjectDefinition) → Same api (m os))
        → ((os : List ObjectDefinition) → Settles api laws (m os))
        → F (objects_in api text c >>= m)
    Fine-in c m same settles =
        Fine-modification api laws (objects_in api text c >>= m)
          (Keeps-bind (view api) (objects_in api text c) m (Same-objects_in api text c) same)
          (settled_in api laws text c m settles)

    Fine-send :
        (make : ObjectDefinition → ObjectModificationCommand V) (c : List (Item api text))
        → Harmless api laws make
        → F (send_for api text make c)
    unfolding send_for
    Fine-send make c harmless =
        Fine-modification api laws (send_for api text make c) (Same-send_for api text make c) (
          settled_in api laws text c (λ os. call api (api.apply_batched_changes (map make os)))
            (settled_send api laws make harmless))

    Fine-create_one :
        (o : ObjectDefinition) → ends_empty o.name ≡ some false → F (create_one api text o)
    Fine-create_one o h =
        Fine-modification api laws (create_one api text o) (Same-create_one api text o)
          (λ e s i t p q. (update o true e, created_one_lem api laws text o e h s i t p q))

    Fine-run : (r : Request V (Item api text)) → F (run api text r)
    unfolding run
    Fine-run (exists_request o) = Fine-done (object_exists api o) (Fine-exists o)
    Fine-run (expand_request c) = Fine-done (expand_context_stack api text c) (Fine-expand c)
    Fine-run (nested_request c) =
        Fine-done (all_nested_objects_in api text c) (Fine-nested api text laws c)
    Fine-run (contained_request c) =
        Fine-done (contained_objects_in api text c) (Fine-contained api text laws c)
    Fine-run (create_one_request o h) = Fine-done (create_one api text o) (Fine-create_one o h)
    Fine-run (create_request os g) =
        Fine-modification api laws (create_objects api os) (Same-create api os)
          (settled_create api laws os g)
    Fine-run (restore_request c) =
        unfold restore_deleted_object_in in
        Fine-in c (restore_objects api) (Same-restore api) (settled_restore api laws)
    Fine-run (delete_request c) =
        unfold delete_object_in in
        Fine-in c (delete_objects api) (Same-delete api) (settled_delete api laws)
    Fine-run (delete_listed_request os) =
        Fine-modification api laws (delete_objects api os) (Same-delete api os)
          (settled_delete api laws os)
    Fine-run (set_request c a v) =
        unfold set_attribute_in in
        Fine-send (λ o. set_attribute o.kind o.name a v) c (λ o. (refl, unfold effect in λ w. refl))
    Fine-run (insert_request c a i) =
        unfold set_attribute_insert_in in
        Fine-send (λ o. set_attribute_insert o.kind o.name a i) c
          (λ o. (refl, unfold effect in λ w. refl))
    Fine-run (remove_request c a i) =
        unfold set_attribute_remove_in in
        Fine-send (λ o. set_attribute_remove o.kind o.name a i) c
          (λ o. (refl, unfold effect in λ w. refl))
    Fine-run (remove_attribute_request c a) =
        unfold remove_attribute_in in
        Fine-send (λ o. set_attribute o.kind o.name a none) c
          (λ o. (refl, unfold effect in λ w. refl))
    Fine-run start_request =
        Fine-done (create_new_changeset api)
          (unfold create_new_changeset in Fine-reset api laws true api.start_changeset)
    Fine-run (resume_request c) =
        unfold resume_changeset in Fine-reset api laws true (api.resume_changeset c)
    Fine-run (commit_request m) =
        Fine-done (commit_changeset api m)
          (unfold commit_changeset in Fine-reset api laws false (api.commit_changeset m))
    Fine-run (detach_request m) =
        unfold detach_from_changeset in
        Fine-reset api laws false (api.detach_from_current_changeset m)
    Fine-run abort_request =
        unfold abort_changeset in Fine-reset api laws false api.abort_current_changeset
    Fine-run freeze_request = unfold freeze_view in Fine-reset api laws true api.freeze_view
    Fine-run unfreeze_request = unfold unfreeze_view in Fine-reset api laws false api.unfreeze_view

    -- Calls that all return leave the cache coherent if it was: in a stable view, every answer that it
    -- holds is whether the object exists on the server.
    pub runs-Coherent :
        (rs : List (Request V (Item api text))) (s : State api) (u : Unit {0}) (t : State api)
        → Coherent api laws s
        → runs api text rs s ≡ (ok u, t)
        → Coherent api laws t
    unfolding runs
    runs-Coherent [] s u t h e = subst (Coherent api laws) (ap (λ z. z.1) e) h
    runs-Coherent (r ∷ rs) s u t h e =
        triple_bind (Coherent api laws) (λ v. Coherent api laws) (λ v. Coherent api laws)
          (run api text r) (λ v. runs api text rs) (Fine-run r) (λ v w x y. runs-Coherent rs w x y)
          s u t h e
