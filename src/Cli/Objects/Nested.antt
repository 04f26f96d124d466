-- ===== src/Cli/Objects/Nested.antt =====
-- `allNestedObjects` of one object and of a context.
use deska.Base.{some, List, [], ◌∷◌, ◌++◌}
use deska.Base.Text.{Text}
use deska.Db.Exec.{ok, ◌>>=◌, pure}
use deska.Cli.Diff.Converters.{ObjectDefinition}
use deska.Cli.Relations.{entry}
use deska.Cli.Session.Rebase.{or_throw}
use deska.Cli.Objects.State.{ObjectsApi, Method, touch_embeds}
use deska.Cli.Objects.Exists.{instances}
use deska.Cli.Objects.Expand.{Item, filter_on_name, all_named, expand_context_stack}

module _ {V : Type 0} (api : ObjectsApi V) (text : Text → V) where
  -- The loop over the embedded kinds; the filter names the kind of the object.
  unfoldable pub embedded_objects :
      ObjectDefinition → List Text → Method api (List ObjectDefinition)
  unfolding filter_on_name instances
  embedded_objects o [] s = (ok [], s)
  embedded_objects o (k ∷ ks) s =
      (or_throw (filter_on_name text s.relations o.kind o.name) >>= λ f.
      instances api k (some f) >>= λ found. embedded_objects o ks >>= λ rest. pure (found ++ rest))
        s

  unfoldable pub all_nested_objects : ObjectDefinition → Method api (List ObjectDefinition)
  unfolding all_named embedded_objects
  all_nested_objects o = or_throw (all_named (o ∷ [])) >>= λ u s.
      embedded_objects o (entry s.relations.embeds o.kind) (touch_embeds api o.kind s)

  -- The loop over the objects of the context, which puts each answer before the earlier ones.
  unfoldable pub nested_before :
      List ObjectDefinition → List ObjectDefinition → Method api (List ObjectDefinition)
  unfolding all_nested_objects
  nested_before nested [] = pure nested
  nested_before nested (o ∷ os) =
      all_nested_objects o >>= λ found. nested_before (found ++ nested) os

  unfoldable pub all_nested_objects_in : List (Item api text) → Method api (List ObjectDefinition)
  unfolding nested_before expand_context_stack
  all_nested_objects_in context = expand_context_stack api text context >>= nested_before []
