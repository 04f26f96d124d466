-- ===== src/Cli/Objects/Kept.antt =====
-- `allNestedObjects` leaves the view as it is, and the cache coherent.
use deska.Base.{some, List, [], ◌∷◌, ◌++◌, refl}
use deska.Base.Text.{Text}
use deska.Db.Exec.{◌>>=◌, pure}
use deska.Cli.Diff.Converters.{ObjectDefinition}
use deska.Cli.Relations.{entry}
use deska.Cli.Session.Rebase.{or_throw}
use deska.Cli.Session.Triples.{triple_bind, Triple, triple_pure, Keeps-bind, Keeps-or_throw}
use deska.Cli.Objects.State.{ObjectsApi, Method, touch_embeds}
use deska.Cli.Objects.Exists.{instances}
use deska.Cli.Objects.Expand.{Item, all_named, filter_on_name, expand_context_stack}
use deska.Cli.Objects.Nested.{
  embedded_objects, all_nested_objects, nested_before, all_nested_objects_in,
}
use deska.Cli.Objects.Laws.{Existing, ExistenceLaws}
use deska.Cli.Objects.Changed.{Q}
use deska.Cli.Objects.View.{view, Same, Same-instances, Same-expand}
use deska.Cli.Objects.Expanded.{triple_or_throw}
use deska.Cli.Objects.Settled.{Fine, Fine-modification, found_lem, expand_kept}

module _ {V : Type 0} (api : ObjectsApi V) (text : Text → V) where
  Same-embedded :
      (o : ObjectDefinition) (ks : List Text) → Same api (embedded_objects api text o ks)
  unfolding embedded_objects
  Same-embedded o [] s = refl
  Same-embedded o (k ∷ ks) s =
      Keeps-bind (view api) (or_throw (filter_on_name text s.relations o.kind o.name))
        (λ f. instances api k (some f) >>= λ found.
          embedded_objects api text o ks >>= λ rest. pure (found ++ rest))
        (Keeps-or_throw (view api) (filter_on_name text s.relations o.kind o.name))
        (λ f.
          Keeps-bind (view api) (instances api k (some f))
            (λ found. embedded_objects api text o ks >>= λ rest. pure (found ++ rest))
            (Same-instances api k (some f))
            (λ found.
              Keeps-bind (view api) (embedded_objects api text o ks) (λ rest. pure (found ++ rest))
                (Same-embedded o ks) (λ rest v. refl)))
        s

  Same-all_nested : (o : ObjectDefinition) → Same api (all_nested_objects api text o)
  unfolding all_nested_objects
  Same-all_nested o =
      Keeps-bind (view api) (or_throw (all_named (o ∷ [])))
        (λ u s.
          embedded_objects api text o (entry s.relations.embeds o.kind) (touch_embeds api o.kind s))
        (Keeps-or_throw (view api) (all_named (o ∷ [])))
        (λ u s. Same-embedded o (entry s.relations.embeds o.kind) (touch_embeds api o.kind s))

  Same-before : (nested os : List ObjectDefinition) → Same api (nested_before api text nested os)
  unfolding nested_before
  Same-before nested [] = λ s. refl
  Same-before nested (o ∷ os) =
      Keeps-bind (view api) (all_nested_objects api text o)
        (λ found. nested_before api text (found ++ nested) os) (Same-all_nested o)
        (λ found. Same-before (found ++ nested) os)

  Same-nested : (c : List (Item api text)) → Same api (all_nested_objects_in api text c)
  unfolding all_nested_objects_in
  Same-nested c =
      Keeps-bind (view api) (expand_context_stack api text c) (nested_before api text [])
        (Same-expand api text c) (Same-before [])

  module _ (laws : ExistenceLaws api) where
    abbrev Still : {A : Type 0} → Existing → Method api A → Type 0
    Still e m = Triple (Q api laws e e) m (λ a. Q api laws e e)

    -- one method after another
    Still-bind :
        {A B : Type 0} (e : Existing) (m : Method api A) (k : A → Method api B)
        → Still e m
        → ((a : A) → Still e (k a))
        → Still e (m >>= k)
    Still-bind e m k = triple_bind (Q api laws e e) (λ a. Q api laws e e) (λ b. Q api laws e e) m k

    Still-pure : {A : Type 0} (e : Existing) (a : A) → Still e (pure a)
    Still-pure e a = triple_pure (Q api laws e e) (λ b. Q api laws e e) a (λ s p. p)

    Still-embedded :
        (e : Existing) (o : ObjectDefinition) (ks : List Text)
        → Still e (embedded_objects api text o ks)
    unfolding embedded_objects
    Still-embedded e o [] s = Still-pure e [] s
    Still-embedded e o (k ∷ ks) s =
        Still-bind e (or_throw (filter_on_name text s.relations o.kind o.name))
          (λ f. instances api k (some f) >>= λ found.
            embedded_objects api text o ks >>= λ rest. pure (found ++ rest))
          (triple_or_throw (Q api laws e e) (filter_on_name text s.relations o.kind o.name))
          (λ f.
            Still-bind e (instances api k (some f))
              (λ found. embedded_objects api text o ks >>= λ rest. pure (found ++ rest))
              (λ v os t p h. let (q, r) = found_lem api laws e k (some f) v os t p h in q)
              (λ found.
                Still-bind e (embedded_objects api text o ks) (λ rest. pure (found ++ rest))
                  (Still-embedded e o ks) (λ rest. Still-pure e (found ++ rest))))
          s

    Still-all_nested :
        (e : Existing) (o : ObjectDefinition) → Still e (all_nested_objects api text o)
    unfolding all_nested_objects
    Still-all_nested e o =
        Still-bind e (or_throw (all_named (o ∷ [])))
          (λ u s.
            embedded_objects api text o (entry s.relations.embeds o.kind)
              (touch_embeds api o.kind s))
          (triple_or_throw (Q api laws e e) (all_named (o ∷ [])))
          (λ u s os t p h.
            Still-embedded e o (entry s.relations.embeds o.kind) (touch_embeds api o.kind s) os t
              (record { stable = p.stable; truth = p.truth; fits = p.fits }) h)

    Still-before :
        (e : Existing) (nested os : List ObjectDefinition)
        → Still e (nested_before api text nested os)
    unfolding nested_before
    Still-before e nested [] = Still-pure e nested
    Still-before e nested (o ∷ os) =
        Still-bind e (all_nested_objects api text o)
          (λ found. nested_before api text (found ++ nested) os) (Still-all_nested e o)
          (λ found. Still-before e (found ++ nested) os)

    nested_kept :
        (c : List (Item api text)) (e : Existing) → Still e (all_nested_objects_in api text c)
    unfolding all_nested_objects_in
    nested_kept c e =
        Still-bind e (expand_context_stack api text c) (nested_before api text [])
          (expand_kept api laws text c e) (Still-before e [])

    pub Fine-nested : (c : List (Item api text)) → Fine api laws (all_nested_objects_in api text c)
    Fine-nested c =
        Fine-modification api laws (all_nested_objects_in api text c) (Same-nested c)
          (λ e s os t p h. (e, nested_kept c e s os t p h))
