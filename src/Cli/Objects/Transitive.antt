-- ===== src/Cli/Objects/Transitive.antt =====
-- `allNestedObjectsTransitively` of one object and of a context.
mod Keeps
mod Enough
mod Reached
mod Tests
use deska.Base.{ℕ, zero, suc, List, [], ◌∷◌, ◌++◌, Bool, true, some, if◌then◌else◌}
use deska.Base.Text.{Text}
use deska.Db.Exec.{ok, fail, ◌>>=◌, ◌>>◌, pure}
use deska.Cli.Diff.Converters.{ObjectDefinition}
use deska.Cli.Relations.{entry}
use deska.Cli.Session.Interface.{Fault}
use deska.Cli.Session.Rebase.{or_throw}
use deska.Cli.Objects.State.{ObjectsApi, Method, touch_embeds, call, note}
use deska.Cli.Objects.Expand.{Item, filter_on_name, all_named, expand_context_stack}
use deska.Cli.Objects.Contained.{holds}

module _ {V : Type 0} (api : ObjectsApi V) (text : Text → V) where
  -- the recursive call, for an object and the objects that are found already
  abbrev pub Search : Type 0
  Search = ObjectDefinition → List ObjectDefinition → Method api (List ObjectDefinition)

  unfoldable pub search_new :
      Search → ObjectDefinition → List ObjectDefinition → Method api (List ObjectDefinition)
  search_new go o found = if holds o found then pure found else go o (found ++ o ∷ [])

  -- the loop over the instances of one kind
  unfoldable pub each_instance :
      Search → Text → List Text → List ObjectDefinition → Method api (List ObjectDefinition)
  unfolding search_new note
  each_instance go k [] found = pure found
  each_instance go k (n ∷ ns) found = note api (record { kind = k; name = n }) true >>= λ u.
      search_new go (record { kind = k; name = n }) found >>= λ next. each_instance go k ns next

  -- the loop over the embedded kinds
  unfoldable pub each_kind :
      Search
      → ObjectDefinition
      → List Text
      → List ObjectDefinition
      → Method api (List ObjectDefinition)
  unfolding each_instance filter_on_name
  each_kind go o [] found s = (ok found, s)
  each_kind go o (k ∷ ks) found s =
      (or_throw (filter_on_name text s.relations o.kind o.name) >>= λ f.
      call api (api.kind_instances k (some f)) >>= λ names.
      each_instance go k names found >>= λ next. each_kind go o ks next)
        s

  -- `allNestedObjectsTransitivelyRec`; `e` is what no fuel throws.
  unfoldable pub all_nested_objects_rec : Fault → ℕ → Search
  unfolding each_kind
  all_nested_objects_rec e zero o found s = (fail e, s)
  all_nested_objects_rec e (suc fuel) o found s =
      each_kind (all_nested_objects_rec e fuel) o (entry s.relations.embeds o.kind) found
        (touch_embeds api o.kind s)

  unfoldable pub all_nested_transitively :
      Fault → ℕ → ObjectDefinition → Method api (List ObjectDefinition)
  unfolding all_named all_nested_objects_rec
  all_nested_transitively e fuel o =
      or_throw (all_named (o ∷ [])) >>= λ u. all_nested_objects_rec e fuel o []

  -- The loop over the objects of the context, which puts each answer before the earlier ones.
  unfoldable pub transitively_before :
      Fault → ℕ → List ObjectDefinition → List ObjectDefinition → Method api (List ObjectDefinition)
  unfolding all_nested_transitively
  transitively_before e fuel nested [] = pure nested
  transitively_before e fuel nested (o ∷ os) =
      all_nested_transitively e fuel o >>= λ found. transitively_before e fuel (found ++ nested) os

  unfoldable pub all_nested_transitively_in :
      Fault → ℕ → List (Item api text) → Method api (List ObjectDefinition)
  unfolding transitively_before expand_context_stack
  all_nested_transitively_in e fuel context =
      expand_context_stack api text context >>= transitively_before e fuel []
