-- ===== src/Cli/Objects/Settled.antt =====
-- The calls that keep the cache coherent, each by itself.
use deska.Base.{
  All, Bool, true, false, ◌||◌, Option, List, [], ◌∷◌, map, back_cons, ◌≡◌, refl, sym, ap, ◌∙◌,
  subst,
}
use deska.Base.Text.{Text}
use deska.Base.Dict.{find}
use deska.Db.Command.{ObjectModificationCommand}
use deska.Db.Exec.{Exec, ◌>>=◌, ◌>>◌}
use deska.Db.Filter.{Filter}
use deska.Cli.Diff.Converters.{ObjectDefinition}
use deska.Cli.Session.Triples.{Triple, triple_bind, triple_pure, triple_weaken}
use deska.Cli.Session.Interface.{Fault}
use deska.Cli.Objects.Key.{object_compare_refl, object_ord}
use deska.Cli.Objects.State.{ObjectsApi, State, Method, call, note, reset_view}
use deska.Cli.Objects.Exists.{instances}
use deska.Cli.Objects.Expand.{Item, expand_context_stack}
use deska.Cli.Objects.Modify.{delete_objects, create_objects, restore_objects, objects_in}
use deska.Cli.Objects.Laws.{
  Existing, same_object, update, listed, marked, effect, effects, is_open, has_open, of_names,
  ExistenceLaws, Fits, Coherent,
}
use deska.Cli.Objects.Cached.{update_known, Pending-called, note_lem}
use deska.Cli.Objects.Changed.{Q, HasLocal, Pending-same, deleted_lem, created_lem}
use deska.Cli.Objects.Restored.{restored_lem}
use deska.Cli.Objects.Expanded.{OfKind, expanded_lem, instances_lem}
use deska.Cli.Objects.View.{Same}

or_right : (a b : Bool) → b ≡ true → (a || b) ≡ true
or_right true b h = refl
or_right false b h = h

module _ {V : Type 0} (api : ObjectsApi V) (laws : ExistenceLaws api) where
  abbrev pub C : State api → Type 0
  C = Coherent api laws

  -- A call after which the cache is coherent if it was.
  abbrev pub Fine : {A : Type 0} → Method api A → Type 0
  Fine m = Triple C m (λ a. C)

  pub Fine-reset :
      {A : Type 0} (b : Bool) (m : Exec api.Server Fault A) → Fine (reset_view api b >> call api m)
  unfolding reset_view Coherent
  Fine-reset b m s a t p h =
      subst (Coherent api laws) (ap (λ z. z.1) h) (λ q x. unfold find Fits in refl)

  -- A modification; what exists afterwards need not be told.
  abbrev pub Ends : State api → Type 0
  Ends s = (f : Existing) × Q api laws f f s

  abbrev pub Settles : {A : Type 0} → Method api A → Type 0
  Settles m = (e : Existing) → Triple (Q api laws e e) m (λ a. Ends)

  pub Fine-modification : {A : Type 0} (m : Method api A) → Same api m → Settles m → Fine m
  unfolding Coherent
  Fine-modification m same settles s a t p h = by_view s.stable_view refl
    where
      kept : t.stable_view ≡ s.stable_view
      kept = ap (λ r. r.1.stable_view) (sym h) ∙ same s

      from_Q : Ends t → Coherent api laws t
      from_Q (f, q) v =
          (Pending-same api laws f (laws.exists t.server) f (laws.exists t.server) t
            (λ x. sym (q.truth x)) (λ x. sym (q.truth x)) q).fits

      by_view : (b : Bool) → s.stable_view ≡ b → Coherent api laws t
      by_view false v = λ w x. let k : t.stable_view ≡ s.stable_view = kept in cc
      by_view true v = from_Q (
          settles (laws.exists s.server) s a t
            (record { stable = v; truth = λ x. refl; fits = p v }) h)

  unfoldable pub Found : Existing → Text → List Text → State api → Type 0
  Found e k ns s =
      Q api laws e e s × ((x : ObjectDefinition) → listed (of_names k ns) x ≡ true → e x ≡ true)

  pub Found-call :
      (e : Existing) (k : Text) (f : Option (Filter V))
      → Triple (Q api laws e e) (call api (api.kind_instances k f)) (Found e k)
  unfolding Found
  Found-call e k f s ns t p h =
      let v : api.Server = (api.kind_instances k f s.server).1 in
      (
        subst (Q api laws e e) (ap (λ z. z.1) h)
            (Pending-called api laws e e s v p (laws.instances_keeps k f s.server)),
        λ x m.
            sym (p.truth x)
            ∙ laws.instances_exist k f s.server ns v (λ i. (ap (λ z. z.0) h i, v)) x m,
      )

  itself : (o : ObjectDefinition) (ns : List Text) → listed (o ∷ of_names o.kind ns) o ≡ true
  unfolding listed
  itself o ns = rw (object_compare_refl o) refl

  further :
      (o x : ObjectDefinition) (os : List ObjectDefinition)
      → listed os x ≡ true
      → listed (o ∷ os) x ≡ true
  unfolding listed
  further o x os h = or_right (same_object x o) (listed os x) h

  pub Found-note :
      (e : Existing) (k n : Text) (ns : List Text)
      → Triple
          (Found e k (n ∷ ns))
          (note api (record { kind = k; name = n }) true)
          (λ u. Found e k ns)
  unfolding Found listed update same_object
  Found-note e k n ns s u t (p, l) h =
      let o : ObjectDefinition = record { kind = k; name = n } in
      let known : (x : ObjectDefinition) → update o true e x ≡ e x =
        λ x. update_known o x true e (l o (itself o ns)) in
      (
        Pending-same api laws e e (update o true e) e t (λ x. refl) known
            (note_lem api laws o true e e s u t p h),
        λ x m. l x (further o x (of_names k ns) m),
      )

  pub found_lem :
      (e : Existing) (k : Text) (f : Option (Filter V))
      → Triple (Q api laws e e) (instances api k f) (λ os s. Q api laws e e s × OfKind k os)
  unfolding Found
  found_lem e k f =
      triple_weaken (Q api laws e e) (λ os s. Found e k [] s × OfKind k os)
        (λ os s. Q api laws e e s × OfKind k os) (instances api k f)
        (instances_lem api (Found e k) k f (Q api laws e e) (Found-call e k f) (Found-note e k))
        (λ os s ((p, l), q). (p, q))

  module _ (text : Text → V) where
    pub expand_kept :
        (c : List (Item api text)) (e : Existing)
        → Triple (Q api laws e e) (expand_context_stack api text c) (λ os. Q api laws e e)
    unfolding expand_context_stack
    expand_kept [] e = triple_pure (Q api laws e e) (λ os. Q api laws e e) [] (λ s p. p)
    expand_kept (i ∷ r) e =
        let (last, h) = back_cons i r in
        triple_weaken (Q api laws e e) (λ os s. Q api laws e e s × OfKind last.kind os)
          (λ os. Q api laws e e) (expand_context_stack api text (i ∷ r))
          (expanded_lem api text (Q api laws e e) (found_lem e) (i ∷ r) last h) (λ os s (p, q). p)

    objects_kept :
        (c : List (Item api text)) (e : Existing)
        → Triple (Q api laws e e) (objects_in api text c) (λ os. Q api laws e e)
    objects_kept [] e = λ s os t p h. cc
    objects_kept (i ∷ r) e = expand_kept (i ∷ r) e

    -- a modification of the objects of a context
    pub settled_in :
        {A : Type 0} (c : List (Item api text)) (m : List ObjectDefinition → Method api A)
        → ((os : List ObjectDefinition) → Settles (m os))
        → Settles (objects_in api text c >>= m)
    settled_in c m h e =
        triple_bind (Q api laws e e) (λ os. Q api laws e e) (λ a. Ends) (objects_in api text c) m
          (objects_kept c e) (λ os. h os e)

  pub settled_delete : (os : List ObjectDefinition) → Settles (delete_objects api os)
  settled_delete os e s u t p h = (marked true os e, deleted_lem api laws os e s u t p h)

  pub settled_create :
      (os : List ObjectDefinition) → All HasLocal os → Settles (create_objects api os)
  settled_create os g e s u t p h = (marked false os e, created_lem api laws os e g s u t p h)

  pub settled_restore : (os : List ObjectDefinition) → Settles (restore_objects api os)
  settled_restore os e s u t p h = (marked false os e, restored_lem api laws os e s u t p h)

  -- commands that neither create, delete nor rename
  abbrev pub Harmless : (ObjectDefinition → ObjectModificationCommand V) → Type 0
  Harmless make =
      (o : ObjectDefinition) → (is_open (make o) ≡ false) × ((w : Existing) → effect (make o) w ≡ w)

  module _ (make : ObjectDefinition → ObjectModificationCommand V) (harmless : Harmless make) where
    no_renames : (os : List ObjectDefinition) → has_open (map make os) ≡ false
    no_renames [] = refl
    no_renames (o ∷ os) = rw ((harmless o).0) (no_renames os)

    no_effects : (os : List ObjectDefinition) (w : Existing) → effects (map make os) w ≡ w
    no_effects [] w = refl
    no_effects (o ∷ os) w = ap (λ v. effects (map make os) v) ((harmless o).1 w) ∙ no_effects os w

    pub settled_send :
        (os : List ObjectDefinition) → Settles (call api (api.apply_batched_changes (map make os)))
    settled_send os e s u t p h =
        let v : api.Server = (api.apply_batched_changes (map make os) s.server).1 in
        (
          e,
          subst (Q api laws e e) (ap (λ z. z.1) h) (
              Pending-called api laws e e s v p (λ x.
                laws.apply_ok (map make os) s.server u v (no_renames os)
                  (λ i. (ap (λ z. z.0) h i, v)) x
                ∙ ap (λ f. f x) (no_effects os (laws.exists s.server)))),
        )
