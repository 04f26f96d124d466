-- ===== src/Cli/Objects/Contained.antt =====
-- `containedObjects` of one object and of a context.
pub mod Answers
pub mod Kept
mod Tests
use deska.Base.{
  Bool, true, false, ◌&&◌, ◌||◌, Option, none, some, List, [], ◌∷◌, ◌++◌, if◌then◌else◌,
}
use deska.Base.Text.{Text, text_eq}
use deska.Db.Exec.{ok, ◌>>=◌, ◌>>◌, pure}
use deska.Cli.Diff.Converters.{ObjectDefinition, object_eq}
use deska.Cli.Relations.{entry}
use deska.Cli.Session.Rebase.{or_throw}
use deska.Cli.Objects.State.{ObjectsApi, Method, touch_contains, call, note}
use deska.Cli.Objects.Expand.{Item, filter_on_name, all_named, expand_context_stack}

-- `std::find(…) != objects.end()`
abbrev pub holds : ObjectDefinition → List ObjectDefinition → Bool
holds o [] = false
holds o (x ∷ xs) = object_eq x o || holds o xs

unfoldable pub push_new : ObjectDefinition → List ObjectDefinition → List ObjectDefinition
unfolding object_eq
push_new o found = if holds o found then found else found ++ o ∷ []

-- Whether there is an instance; `none` is one of the two BOOST_ASSERTs.
unfoldable pub single : Text → List Text → Option Bool
single name [] = some false
single name (n ∷ []) = if text_eq n name then some true else none
single name (n ∷ m ∷ ns) = none

module _ {V : Type 0} (api : ObjectsApi V) (text : Text → V) where
  unfoldable pub keep :
      Bool → ObjectDefinition → List ObjectDefinition → Method api (List ObjectDefinition)
  unfolding push_new note
  keep exists o found = if exists then note api o true >> pure (push_new o found) else pure found

  -- the loop over the contained kinds
  unfoldable pub contained_from :
      Text → List ObjectDefinition → List Text → Method api (List ObjectDefinition)
  unfolding filter_on_name single keep
  contained_from name found [] s = (ok found, s)
  contained_from name found (k ∷ ks) s =
      (or_throw (filter_on_name text s.relations k name) >>= λ f.
      call api (api.kind_instances k (some f)) >>= λ names.
      or_throw (single name names) >>= λ exists.
      keep exists (record { kind = k; name = name }) found >>= λ next. contained_from name next ks)
        s

  unfoldable pub contained_objects : ObjectDefinition → Method api (List ObjectDefinition)
  unfolding all_named contained_from
  contained_objects o = or_throw (all_named (o ∷ [])) >>= λ u s.
      contained_from o.name [] (entry s.relations.contains o.kind) (touch_contains api o.kind s)

  -- The loop over the objects of the context, which puts each answer before the earlier ones.
  unfoldable pub contained_before :
      List ObjectDefinition → List ObjectDefinition → Method api (List ObjectDefinition)
  unfolding contained_objects
  contained_before contained [] = pure contained
  contained_before contained (o ∷ os) =
      contained_objects o >>= λ found. contained_before (found ++ contained) os

  unfoldable pub contained_objects_in : List (Item api text) → Method api (List ObjectDefinition)
  unfolding contained_before expand_context_stack
  contained_objects_in context = expand_context_stack api text context >>= contained_before []
