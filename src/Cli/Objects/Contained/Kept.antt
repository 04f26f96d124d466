-- ===== src/Cli/Objects/Contained/Kept.antt =====
-- `containedObjects` leaves the view as it is, and the cache coherent.
use deska.Base.{Bool, true, false, some, List, [], ◌∷◌, ◌++◌, refl}
use deska.Base.Text.{Text}
use deska.Db.Exec.{◌>>=◌, pure}
use deska.Cli.Diff.Converters.{ObjectDefinition}
use deska.Cli.Relations.{entry}
use deska.Cli.Session.Rebase.{or_throw}
use deska.Cli.Session.Triples.{Triple, triple_bind, triple_pure, Keeps-bind, Keeps-or_throw}
use deska.Cli.Objects.State.{ObjectsApi, Method, touch_contains, call, note}
use deska.Cli.Objects.Expand.{Item, all_named, filter_on_name, expand_context_stack}
use deska.Cli.Objects.Laws.{Existing, ExistenceLaws}
use deska.Cli.Objects.Changed.{Q}
use deska.Cli.Objects.View.{view, Same, Same-note, Same-expand}
use deska.Cli.Objects.Settled.{Fine, Fine-modification, Found, Found-call, Found-note, expand_kept}
use deska.Cli.Objects.Contained.{
  push_new, single, keep, contained_from, contained_objects, contained_before, contained_objects_in,
}
use deska.Cli.Objects.Contained.Answers.{contained_lem}

module _ {V : Type 0} (api : ObjectsApi V) (text : Text → V) where
  Same-keep :
      (b : Bool) (o : ObjectDefinition) (found : List ObjectDefinition)
      → Same api (keep api text b o found)
  unfolding keep
  Same-keep true o found =
      Keeps-bind (view api) (note api o true) (λ u. pure (push_new o found)) (Same-note api o true)
        (λ u s. refl)
  Same-keep false o found = λ s. refl

  Same-from :
      (name : Text) (found : List ObjectDefinition) (ks : List Text)
      → Same api (contained_from api text name found ks)
  unfolding contained_from
  Same-from name found [] s = refl
  Same-from name found (k ∷ ks) s =
      let o : ObjectDefinition = record { kind = k; name = name } in
      let stored : Bool → Method api (List ObjectDefinition) =
        λ b. keep api text b o found >>= λ next. contained_from api text name next ks in
      let checked : List Text → Method api (List ObjectDefinition) =
        λ ns. or_throw (single name ns) >>= stored in
      Keeps-bind (view api) (or_throw (filter_on_name text s.relations k name))
        (λ f. call api (api.kind_instances k (some f)) >>= checked)
        (Keeps-or_throw (view api) (filter_on_name text s.relations k name))
        (λ f.
          Keeps-bind (view api) (call api (api.kind_instances k (some f))) checked (λ v. refl)
            (λ ns.
              Keeps-bind (view api) (or_throw (single name ns)) stored
                (Keeps-or_throw (view api) (single name ns))
                (λ b.
                  Keeps-bind (view api) (keep api text b o found)
                    (λ next. contained_from api text name next ks) (Same-keep b o found)
                    (λ next. Same-from name next ks))))
        s

  Same-contained : (o : ObjectDefinition) → Same api (contained_objects api text o)
  unfolding contained_objects
  Same-contained o =
      Keeps-bind (view api) (or_throw (all_named (o ∷ [])))
        (λ u s.
          contained_from api text o.name [] (entry s.relations.contains o.kind)
            (touch_contains api o.kind s))
        (Keeps-or_throw (view api) (all_named (o ∷ [])))
        (λ u s.
          Same-from o.name [] (entry s.relations.contains o.kind) (touch_contains api o.kind s))

  Same-before :
      (contained os : List ObjectDefinition) → Same api (contained_before api text contained os)
  unfolding contained_before
  Same-before contained [] = λ s. refl
  Same-before contained (o ∷ os) =
      Keeps-bind (view api) (contained_objects api text o)
        (λ found. contained_before api text (found ++ contained) os) (Same-contained o)
        (λ found. Same-before (found ++ contained) os)

  Same-in : (c : List (Item api text)) → Same api (contained_objects_in api text c)
  unfolding contained_objects_in
  Same-in c =
      Keeps-bind (view api) (expand_context_stack api text c) (contained_before api text [])
        (Same-expand api text c) (Same-before [])

  module _ (laws : ExistenceLaws api) (e : Existing) where
    contained_kept :
        (o : ObjectDefinition)
        → Triple (Q api laws e e) (contained_objects api text o) (λ os. Q api laws e e)
    contained_kept o s os t p h =
        let (q, r) =
          contained_lem api text (Q api laws e e) (Found api laws e) (Found-call api laws e)
            (λ k ns v q. unfold Found in q.0)
            (λ k n v u w q r. unfold Found in (Found-note api laws e k n [] v u w q r).0)
            (λ k v q. record { stable = q.stable; truth = q.truth; fits = q.fits }) o s os t p h in
        q

    before_kept :
        (contained os : List ObjectDefinition)
        → Triple (Q api laws e e) (contained_before api text contained os) (λ l. Q api laws e e)
    unfolding contained_before
    before_kept contained [] =
        triple_pure (Q api laws e e) (λ l. Q api laws e e) contained (λ s p. p)
    before_kept contained (o ∷ os) =
        triple_bind (Q api laws e e) (λ l. Q api laws e e) (λ l. Q api laws e e)
          (contained_objects api text o)
          (λ found. contained_before api text (found ++ contained) os) (contained_kept o)
          (λ found. before_kept (found ++ contained) os)

    in_kept :
        (c : List (Item api text))
        → Triple (Q api laws e e) (contained_objects_in api text c) (λ l. Q api laws e e)
    unfolding contained_objects_in
    in_kept c =
        triple_bind (Q api laws e e) (λ l. Q api laws e e) (λ l. Q api laws e e)
          (expand_context_stack api text c) (contained_before api text [])
          (expand_kept api laws text c e) (before_kept [])

  pub Fine-contained :
      (laws : ExistenceLaws api) (c : List (Item api text))
      → Fine api laws (contained_objects_in api text c)
  Fine-contained laws c =
      Fine-modification api laws (contained_objects_in api text c) (Same-in c)
        (λ e s os t p h. (e, in_kept laws e c s os t p h))
