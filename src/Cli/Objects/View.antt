-- ===== src/Cli/Objects/View.antt =====
-- The modifications leave the view of the session as it is, also when they throw.
use deska.Base.{
  Bool, true, false, not, ◌&&◌, Option, none, some, List, [], ◌∷◌, map, back, if◌then◌else◌, ◌≡◌,
  refl,
}
use deska.Base.Text.{Text, is_empty, text_eq}
use deska.Db.Command.{ObjectModificationCommand, create_object, delete_object}
use deska.Db.Exec.{Result, ok, fail, ◌>>=◌, ◌>>◌, pure}
use deska.Db.Filter.{Filter}
use deska.Cli.Diff.Converters.{ObjectDefinition}
use deska.Cli.Path.Context.{object_item, is_filter, context_stack_to_path}
use deska.Cli.Session.Interface.{
  Fault, changeset_range_error, changeset_locking_error, server_error, constraint_error,
  obsolete_parent_error, remote_db_error, not_found_error, json_parse_error, json_connection_error,
  re_create_object_error, already_exists_error, mass_creating_embedded_error, other_error,
}
use deska.Cli.Session.Rebase.{or_throw}
use deska.Cli.Session.Triples.{Keeps, Keeps-if, Keeps-bind, Keeps-or_throw}
use deska.Cli.Objects.Key.{step_in_context}
use deska.Cli.Objects.State.{ObjectsApi, State, Method, call, store, note}
use deska.Cli.Objects.Exists.{exists_answer, ask_exists, cached, object_exists, note_all, instances}
use deska.Cli.Objects.Expand.{
  Item, all_named, filters_on_names, final_filter, ends_empty, instances_under, expand_item,
  expand_items, none_found, expand_context_stack,
}
use deska.Cli.Objects.Modify.{
  commands_for, delete_objects, create_objects, restore_objects, create_one, created_one, last_of,
  objects_in, send_for,
}

module _ {V : Type 0} (api : ObjectsApi V) where
  abbrev pub view : State api → Bool
  view s = s.stable_view

  abbrev pub Same : {A : Type 0} → Method api A → Type 0
  Same m = Keeps view m

  pub Same-note : (o : ObjectDefinition) (b : Bool) → Same (note api o b)
  unfolding note
  Same-note o b s = by_view s.stable_view refl
    where
      by_view :
          (c : Bool)
          → s.stable_view ≡ c
          → (if c then store api o b s else s).stable_view ≡ s.stable_view
      by_view true h = refl
      by_view false h = refl

  answer_view :
      {A : Type 0} (o : ObjectDefinition) (r : Result Fault A) (s : State api)
      → (exists_answer api o r s).1.stable_view ≡ s.stable_view
  answer_view o (ok d) s = refl
  answer_view o (fail changeset_range_error) s = refl
  answer_view o (fail changeset_locking_error) s = refl
  answer_view o (fail server_error) s = refl
  answer_view o (fail constraint_error) s = refl
  answer_view o (fail obsolete_parent_error) s = refl
  answer_view o (fail remote_db_error) s = refl
  answer_view o (fail not_found_error) s = refl
  answer_view o (fail json_parse_error) s = refl
  answer_view o (fail re_create_object_error) s = refl
  answer_view o (fail already_exists_error) s = refl
  answer_view o (fail mass_creating_embedded_error) s = refl
  answer_view o (fail json_connection_error) s = refl
  answer_view o (fail other_error) s = refl

  Same-ask : (o : ObjectDefinition) → Same (ask_exists api o)
  unfolding ask_exists
  Same-ask o s =
      answer_view o (api.object_data o.kind o.name s.server).0
        (record s { server = (api.object_data o.kind o.name s.server).1 })

  abbrev snd : Result Fault Bool × State api → State api
  snd r = r.1

  pub Same-object_exists : (o : ObjectDefinition) → Same (object_exists api o)
  unfolding object_exists
  Same-object_exists o s = by_test (is_empty o.name) (cached api o s)
    where
      by_test :
          (n : Bool) (c : Option Bool)
          → view (
              snd (
                if n
                then (ok false, s)
                else elim c [ none ↦ ask_exists api o s | some b ↦ (ok b, s) ]))
            ≡ s.stable_view
      by_test true c = refl
      by_test false none = Same-ask o s
      by_test false (some b) = refl

  Same-note_all : (k : Text) (ns : List Text) → Same (note_all api k ns)
  unfolding note_all
  Same-note_all k [] = λ s. refl
  Same-note_all k (n ∷ ns) =
      let o : ObjectDefinition = record { kind = k; name = n } in
      Keeps-bind view (note api o true) (λ u. note_all api k ns >>= λ os. pure (o ∷ os))
        (Same-note o true)
        (λ u.
          Keeps-bind view (note_all api k ns) (λ os. pure (o ∷ os)) (Same-note_all k ns)
            (λ os s. refl))

  pub Same-instances : (k : Text) (f : Option (Filter V)) → Same (instances api k f)
  unfolding instances
  Same-instances k f =
      Keeps-bind view (call api (api.kind_instances k f)) (note_all api k) (λ s. refl)
        (Same-note_all k)

  module _ (wanted : Bool) (make : ObjectDefinition → ObjectModificationCommand V) where
    pub Same-commands : (os : List ObjectDefinition) → Same (commands_for api wanted make os)
    unfolding commands_for
    Same-commands [] = λ s. refl
    Same-commands (o ∷ os) =
        let rest : Method api (List (ObjectModificationCommand V)) =
          commands_for api wanted make os in
        let noted : Method api (List (ObjectModificationCommand V)) =
          (note api o (not wanted) >>= λ u. (rest >>= λ cs. pure (make o ∷ cs))) in
        Keeps-bind view (object_exists api o)
          (λ a. if (if wanted then a else not a) then noted else rest) (Same-object_exists o)
          (λ a.
            Keeps-if view (if wanted then a else not a) noted rest
              (Keeps-bind view (note api o (not wanted)) (λ u. rest >>= λ cs. pure (make o ∷ cs))
                (Same-note o (not wanted))
                (λ u.
                  Keeps-bind view rest (λ cs. pure (make o ∷ cs)) (Same-commands os)
                    (λ cs s. refl)))
              (Same-commands os))

  Same-send :
      (cs : List (ObjectModificationCommand V)) → Same (call api (api.apply_batched_changes cs))
  Same-send cs s = refl

  pub Same-delete : (os : List ObjectDefinition) → Same (delete_objects api os)
  unfolding delete_objects
  Same-delete os =
      Keeps-bind view (commands_for api true (λ o. delete_object o.kind o.name) os)
        (λ cs. call api (api.apply_batched_changes cs))
        (Same-commands true (λ o. delete_object o.kind o.name) os) Same-send

  pub Same-create : (os : List ObjectDefinition) → Same (create_objects api os)
  unfolding create_objects
  Same-create os =
      Keeps-bind view (commands_for api false (λ o. create_object o.kind o.name) os)
        (λ cs. call api (api.apply_batched_changes cs))
        (Same-commands false (λ o. create_object o.kind o.name) os) Same-send

  pub Same-restore : (os : List ObjectDefinition) → Same (restore_objects api os)
  unfolding restore_objects
  Same-restore [] = λ s. refl
  Same-restore (o ∷ os) =
      let rest : Method api (Unit {0}) = restore_objects api os in
      let ask : Method api (Unit {0}) = call api (api.restore_deleted_object o.kind o.name) in
      Keeps-bind view (object_exists api o)
        (λ a. if a then rest else ask >> (note api o true >> rest)) (Same-object_exists o)
        (λ a. Keeps-if view a rest (ask >> (note api o true >> rest)) (Same-restore os) (
          Keeps-bind view ask (λ u. note api o true >> rest) (λ s. refl)
            (λ u.
              Keeps-bind view (note api o true) (λ u. rest) (Same-note o true)
                (λ u. Same-restore os))))

  module _ (text : Text → V) where
    Same-under :
        (os : List ObjectDefinition) (i : Item api text) → Same (instances_under api text os i)
    unfolding instances_under
    Same-under os i s =
        Keeps-bind view (or_throw (filters_on_names text s.relations os))
          (λ fs. instances api i.kind (some (final_filter text fs i.filter)))
          (Keeps-or_throw view (filters_on_names text s.relations os))
          (λ fs. Same-instances i.kind (some (final_filter text fs i.filter))) s

    Same-item : (os : List ObjectDefinition) (i : Item api text) → Same (expand_item api text os i)
    unfolding expand_item
    Same-item [] i =
        Keeps-if view (is_filter i.item_type) (instances api i.kind i.filter)
          (pure (record { kind = i.kind; name = i.name } ∷ [])) (Same-instances i.kind i.filter)
          (λ s. refl)
    Same-item (o ∷ os) i =
        let stepped : List ObjectDefinition =
          map (λ x. step_in_context x (record { kind = i.kind; name = i.name })) (o ∷ os) in
        Keeps-bind view (or_throw (all_named (o ∷ os)))
          (λ u. if is_filter i.item_type then instances_under api text (o ∷ os) i else pure stepped)
          (Keeps-or_throw view (all_named (o ∷ os)))
          (λ u.
            Keeps-if view (is_filter i.item_type) (instances_under api text (o ∷ os) i)
              (pure stepped) (Same-under (o ∷ os) i) (λ s. refl))

    Same-items :
        (os : List ObjectDefinition) (c : List (Item api text)) → Same (expand_items api text os c)
    unfolding expand_items
    Same-items os [] = λ s. refl
    Same-items os (i ∷ r) =
        Keeps-bind view (expand_item api text os i)
          (λ found. if none_found api text i found then pure [] else expand_items api text found r)
          (Same-item os i)
          (λ found.
            Keeps-if view (none_found api text i found) (pure []) (expand_items api text found r)
              (λ s. refl) (Same-items found r))

    by_last :
        (c : List (Item api text)) (last : Option (Item api text)) (path : Option Text)
        → Same {A = List ObjectDefinition} (elim last [
          | none ↦ pure []
          | some i ↦ elim path [
            | some n ↦ pure (record { kind = i.kind; name = n } ∷ [])
            | none ↦ expand_items api text [] c
          ]
        ])
    by_last c none path = λ s. refl
    by_last c (some i) none = Same-items [] c
    by_last c (some i) (some n) = λ s. refl

    pub Same-expand : (c : List (Item api text)) → Same (expand_context_stack api text c)
    unfolding expand_context_stack
    Same-expand c = by_last c (back c) (context_stack_to_path c)

    pub Same-objects_in : (c : List (Item api text)) → Same (objects_in api text c)
    Same-objects_in [] = λ s. refl
    Same-objects_in (i ∷ r) = Same-expand (i ∷ r)

    pub Same-send_for :
        (make : ObjectDefinition → ObjectModificationCommand V) (c : List (Item api text))
        → Same (send_for api text make c)
    unfolding send_for
    Same-send_for make c =
        Keeps-bind view (objects_in api text c)
          (λ os. call api (api.apply_batched_changes (map make os))) (Same-objects_in c)
          (λ os. Same-send (map make os))

    checked_view :
        (b : Bool) (name : Option Text) (k : Text)
        → Same (
            if b
            then (λ s. (fail other_error, s))
            else (or_throw name >>= λ n. pure (object_item {F = Filter V} k n)))
    checked_view true name k = λ s. refl
    checked_view false name k =
        Keeps-bind view (or_throw name) (λ n. pure (object_item k n)) (Keeps-or_throw view name)
          (λ n s. refl)

    pub Same-create_one : (o : ObjectDefinition) → Same (create_one api text o)
    unfolding create_one created_one
    Same-create_one o =
        Keeps-bind view (call api (api.create_object o.kind o.name))
          (λ new.
            note api o true >>= λ u. (or_throw (ends_empty o.name) >>= created_one api text o new))
          (λ s. refl)
          (λ new.
            Keeps-bind view (note api o true)
              (λ u. or_throw (ends_empty o.name) >>= created_one api text o new) (Same-note o true)
              (λ u.
                Keeps-bind view (or_throw (ends_empty o.name)) (created_one api text o new)
                  (Keeps-or_throw view (ends_empty o.name))
                  (λ b. checked_view (not b && not (text_eq new o.name)) (last_of new) o.kind)))
