-- ===== src/Cli/Objects/Answers.antt =====
-- What `objectExists` answers, and what the modifications do, by the objects that exist.
use deska.Base.{
  All, Bool, true, false, not, ◌&&◌, ◌||◌, Option, none, some, List, [], ◌∷◌, if◌then◌else◌, ◌≡◌,
  refl, ◌⊎◌, inl, inr, arith, sym, ap, ◌∙◌,
}
use deska.Base.Text.{Text, is_empty}
use deska.Base.Dict.{find, find-insert}
use deska.Db.Command.{ObjectModificationCommand, delete_object}
use deska.Db.Exec.{Result, ok, fail, ◌>>=◌, pure-eq-ok}
use deska.Cli.Diff.Converters.{ObjectDefinition}
use deska.Cli.Session.Interface.{
  Fault, changeset_range_error, changeset_locking_error, server_error, constraint_error,
  obsolete_parent_error, remote_db_error, not_found_error, json_parse_error, json_connection_error,
  re_create_object_error, already_exists_error, mass_creating_embedded_error, other_error,
}
use deska.Cli.Objects.Key.{object_compare_refl, object_ord}
use deska.Cli.Objects.State.{ObjectsApi, State, Method, call, note, store}
use deska.Cli.Objects.Exists.{exists_answer, ask_exists, cached, object_exists}
use deska.Cli.Objects.Modify.{commands_for, delete_objects, create_objects, restore_objects}
use deska.Cli.Objects.Laws.{listed, marked, ExistenceLaws, Fits, Coherent}
use deska.Cli.Objects.Changed.{Q, HasLocal, deleted_lem, created_lem}
use deska.Cli.Objects.Restored.{restored_lem}

-- What `objectExists` answers.
module _ {V : Type 0} (api : ObjectsApi V) (laws : ExistenceLaws api) where
  answer-exists :
      (o : ObjectDefinition) (e : Bool) (r : Result Fault (List (Text × Option V))) (s : State api)
      (a : Bool) (t : State api)
      → ((d : List (Text × Option V)) → r ≡ ok d → e ≡ true)
      → (r ≡ fail not_found_error → e ≡ false)
      → exists_answer api o r s ≡ (ok a, t)
      → a ≡ e
  answer-exists o e (ok d) s a t ht hf h =
      (pure-eq-ok true (store api o true s) h).0 ∙ sym (ht d refl)
  answer-exists o e (fail not_found_error) s a t ht hf h =
      (pure-eq-ok false (store api o false s) h).0 ∙ sym (hf refl)
  answer-exists o e (fail changeset_range_error) s a t ht hf h = cc
  answer-exists o e (fail changeset_locking_error) s a t ht hf h = cc
  answer-exists o e (fail server_error) s a t ht hf h = cc
  answer-exists o e (fail constraint_error) s a t ht hf h = cc
  answer-exists o e (fail obsolete_parent_error) s a t ht hf h = cc
  answer-exists o e (fail remote_db_error) s a t ht hf h = cc
  answer-exists o e (fail json_parse_error) s a t ht hf h = cc
  answer-exists o e (fail re_create_object_error) s a t ht hf h = cc
  answer-exists o e (fail already_exists_error) s a t ht hf h = cc
  answer-exists o e (fail mass_creating_embedded_error) s a t ht hf h = cc
  answer-exists o e (fail json_connection_error) s a t ht hf h = cc
  answer-exists o e (fail other_error) s a t ht hf h = cc

  asked :
      (o : ObjectDefinition) (s : State api) (a : Bool) (t : State api)
      → ask_exists api o s ≡ (ok a, t)
      → a ≡ laws.exists s.server o
  unfolding ask_exists
  asked o s a t h =
      answer-exists o (laws.exists s.server o) (api.object_data o.kind o.name s.server).0
        (call api (api.object_data o.kind o.name) s).1 a t (laws.data_ok o.kind o.name s.server)
        (laws.data_missing o.kind o.name s.server) h

  -- With a coherent cache, the answer of objectExists is whether the object has a name and exists on the
  -- server, in a stable view or not, cached or asked for.
  pub object_exists-answer :
      (o : ObjectDefinition) (s : State api) (a : Bool) (t : State api)
      → Coherent api laws s
      → object_exists api o s ≡ (ok a, t)
      → a ≡ (not (is_empty o.name) && laws.exists s.server o)
  unfolding object_exists cached Coherent Fits
  object_exists-answer o s a t p h = by_name (is_empty o.name) h
    where
      by_cache :
          (c : Option Bool)
          → Fits c (laws.exists s.server o) (laws.exists s.server o)
          → (elim c [ none ↦ ask_exists api o s | some b ↦ (ok b, s) ]) ≡ (ok a, t)
          → a ≡ laws.exists s.server o
      by_cache none f q = asked o s a t q
      by_cache (some b) f q = (pure-eq-ok b s q).0 ∙ f

      by_view :
          (v : Bool)
          → s.stable_view ≡ v
          → (elim (if v then find o s.object_exists_cache else none) [
            | none ↦ ask_exists api o s
            | some b ↦ (ok b, s)
          ])
            ≡ (ok a, t)
          → a ≡ laws.exists s.server o
      by_view true v q = by_cache (find o s.object_exists_cache) (p v o) q
      by_view false v q = asked o s a t q

      by_name :
          (n : Bool)
          → (if n
              then (ok false, s)
              else elim (if s.stable_view then find o s.object_exists_cache else none) [
                | none ↦ ask_exists api o s
                | some b ↦ (ok b, s)
              ])
            ≡ (ok a, t)
          → a ≡ (not n && laws.exists s.server o)
      by_name true q = (pure-eq-ok false s q).0
      by_name false q = by_view s.stable_view refl q

-- What the modifications change.
module _ {V : Type 0} (api : ObjectsApi V) (laws : ExistenceLaws api) where
  pub Coherent-Q :
      (s : State api)
      → s.stable_view ≡ true
      → Coherent api laws s
      → Q api laws (laws.exists s.server) (laws.exists s.server) s
  unfolding Coherent
  Coherent-Q s v p = record { stable = v; truth = λ x. refl; fits = p v }

  -- In a stable view with a coherent cache, after deleteObjects has returned, an object exists exactly
  -- if it existed before and is not one with a name on the list; the list may hold an object twice, and
  -- objects that do not exist.
  pub delete_objects-exists :
      (os : List ObjectDefinition) (s : State api) (u : Unit {0}) (t : State api)
      → s.stable_view ≡ true
      → Coherent api laws s
      → delete_objects api os s ≡ (ok u, t)
      → (x : ObjectDefinition)
      → laws.exists t.server x
        ≡ (laws.exists s.server x && not (listed os x && not (is_empty x.name)))
  unfolding marked
  delete_objects-exists os s u t v p h x =
      (deleted_lem api laws os (laws.exists s.server) s u t (Coherent-Q s v p) h).truth x
      ∙ table (listed os x && not (is_empty x.name)) (laws.exists s.server x)
    where
      table : (l e : Bool) → (if l then false else e) ≡ (e && not l)
      table l e = ground arith

  -- In a stable view with a coherent cache, after the mass creation of objects whose
  -- names have their local part, or the loop of restoreDeletedObject, has returned, an object exists exactly if it existed before or is on the list.
  pub create_restore-exists :
      (os : List ObjectDefinition) (s : State api) (u : Unit {0}) (t : State api)
      → s.stable_view ≡ true
      → Coherent api laws s
      → ((create_objects api os s ≡ (ok u, t)) × All HasLocal os)
        ⊎ (restore_objects api os s ≡ (ok u, t))
      → (x : ObjectDefinition) → laws.exists t.server x ≡ (laws.exists s.server x || listed os x)
  unfolding marked
  create_restore-exists os s u t v p h x = ended h ∙ table (listed os x) (laws.exists s.server x)
    where
      table : (l e : Bool) → (if l && true then true else e) ≡ (e || l)
      table l e = ground arith

      ended :
          ((create_objects api os s ≡ (ok u, t)) × All HasLocal os)
            ⊎ (restore_objects api os s ≡ (ok u, t))
          → laws.exists t.server x ≡ marked false os (laws.exists s.server) x
      ended (inl (c, g)) =
          (created_lem api laws os (laws.exists s.server) g s u t (Coherent-Q s v p) c).truth x
      ended (inr r) =
          (restored_lem api laws os (laws.exists s.server) s u t (Coherent-Q s v p) r).truth x

  -- objectExists with the answer cached
  cached_answer :
      (o : ObjectDefinition) (b : Bool) (s : State api)
      → is_empty o.name ≡ false
      → s.stable_view ≡ true
      → find o s.object_exists_cache ≡ some b
      → object_exists api o s ≡ (ok b, s)
  unfolding object_exists cached
  cached_answer o b s n v f =
      by_test (is_empty o.name) s.stable_view (find o s.object_exists_cache) n v f
    where
      by_test :
          (m w : Bool) (c : Option Bool)
          → m ≡ false
          → w ≡ true
          → c ≡ some b
          → (if m
              then (ok false, s)
              else elim (if w then c else none) [ none ↦ ask_exists api o s | some d ↦ (ok d, s) ])
            ≡ (ok b, s)
      by_test true w c n v f = cc
      by_test false false c n v f = cc
      by_test false true none n v f = cc
      by_test false true (some d) n v f = cc

  one_command :
      (o : ObjectDefinition) (s : State api)
      → is_empty o.name ≡ false
      → s.stable_view ≡ true
      → find o s.object_exists_cache ≡ some true
      → commands_for api true (λ x. delete_object x.kind x.name) (o ∷ []) s
        ≡ (ok (delete_object o.kind o.name ∷ []), store api o false s)
  unfolding commands_for note
  one_command o s n v f = rw (cached_answer o true s n v f, v) refl

  -- the state after the deletion of `o` that the server has refused, itself being `v` then
  abbrev pub refused : ObjectDefinition → State api → api.Server → State api
  refused o s v = record (store api o false s) { server = v }

  send_refused :
      (m : Method api (List (ObjectModificationCommand V)))
      (cs : List (ObjectModificationCommand V)) (s t : State api) (e : Fault) (v : api.Server)
      → m s ≡ (ok cs, t)
      → api.apply_batched_changes cs t.server ≡ (fail e, v)
      → (m >>= λ c. call api (api.apply_batched_changes c)) s ≡ (fail e, record t { server = v })
  send_refused m cs s t e v h k = rw (h, k) refl

  -- A deletion that the server refuses: an object with a name is cached as existing, in a stable view
  -- with a coherent cache, and the batch that deletes it throws and leaves it existing. Then deleteObjects
  -- throws the same, and from then on objectExists answers that the object does not exist, although it
  -- does.
  pub delete_objects-refused :
      (o : ObjectDefinition) (s : State api) (e : Fault) (v : api.Server)
      → is_empty o.name ≡ false
      → s.stable_view ≡ true
      → Coherent api laws s
      → find o s.object_exists_cache ≡ some true
      → api.apply_batched_changes (delete_object o.kind o.name ∷ []) s.server ≡ (fail e, v)
      → laws.exists v o ≡ laws.exists s.server o
      → (delete_objects api (o ∷ []) s ≡ (fail e, refused o s v))
        × (object_exists api o (refused o s v) ≡ (ok false, refused o s v))
        × (laws.exists v o ≡ true)
  unfolding delete_objects Coherent Fits
  delete_objects-refused o s e v n st p f h k = (
    send_refused (commands_for api true (λ x. delete_object x.kind x.name) (o ∷ []))
        (delete_object o.kind o.name ∷ []) s (store api o false s) e v (one_command o s n st f) h,
    cached_answer o false (refused o s v) n st
        (find-insert o o false s.object_exists_cache ∙ rw (object_compare_refl o) refl),
    k ∙ cached_true (find o s.object_exists_cache) (p st o) f,
  )
    where
      cached_true :
          (c : Option Bool)
          → Fits c (laws.exists s.server o) (laws.exists s.server o)
          → c ≡ some true
          → laws.exists s.server o ≡ true
      cached_true none g q = cc
      cached_true (some b) g q = sym g ∙ ap (λ z. elim z [ none ↦ b | some d ↦ d ]) q
