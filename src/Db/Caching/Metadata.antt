-- ===== src/Db/Caching/Metadata.antt =====
-- The scheme, asked for once (`askForMetadata`) and answered from the maps of FakeApi.cpp.
use deska.Base.{true, Option, none, some, List, [], ◌∷◌, map, if◌then◌else◌}
use deska.Base.Text.{Text}
use deska.Base.Dict.{text_ord, find, insert}
use deska.Db.Objects.{KindAttributeDataType, ObjectRelation}
use deska.Db.Exec.{Exec, ok, ◌>>=◌, ◌>>◌, pure}
use deska.Db.Caching.Api.{JsonApi}
use deska.Db.Caching.State.{FakeApi, State, base}

-- FakeApi::kindNames, kindAttributes and kindRelations.
unfoldable pub fake_kind_names : FakeApi → List Text
fake_kind_names c = map (λ e. e.0) c.attrs

abbrev pub or_empty : {A : Type 0} → Option (List A) → List A
or_empty none = []
or_empty (some xs) = xs

unfoldable pub fake_kind_attributes : FakeApi → Text → List KindAttributeDataType
unfolding find
fake_kind_attributes c k = or_empty (find k c.attrs)

unfoldable pub fake_kind_relations : FakeApi → Text → List ObjectRelation
unfolding find
fake_kind_relations c k = or_empty (find k c.relations)

module _ {V : Type 0} (api : JsonApi V) where
  abbrev store_attrs : Text → List KindAttributeDataType → Exec (State api) api.Fault (Unit {0})
  store_attrs k xs s =
      (ok tt, record s { cache = record (s.cache) { attrs = insert k xs s.cache.attrs } })

  abbrev store_relations : Text → List ObjectRelation → Exec (State api) api.Fault (Unit {0})
  store_relations k xs s =
      (ok tt, record s { cache = record (s.cache) { relations = insert k xs s.cache.relations } })

  -- The BOOST_FOREACH loop over the names.
  unfoldable pub ask_each : List Text → Exec (State api) api.Fault (Unit {0})
  ask_each [] = pure tt
  ask_each (k ∷ ks) = do
    attrs ← base api (api.kind_attributes k)
    store_attrs k attrs
    relations ← base api (api.kind_relations k)
    store_relations k relations
    ask_each ks

  abbrev set_asked : Exec (State api) api.Fault (Unit {0})
  set_asked s = (ok tt, record s { asked_for_metadata = true })

  unfoldable pub ask_for_metadata : Exec (State api) api.Fault (Unit {0})
  ask_for_metadata s =
      if s.asked_for_metadata
      then (ok tt, s)
      else (do names ← base api api.kind_names; ask_each names; set_asked) s

  unfoldable pub kind_names_cached : Exec (State api) api.Fault (List Text)
  unfolding fake_kind_names
  kind_names_cached = do ask_for_metadata; λ s. (ok (fake_kind_names s.cache), s)

  unfoldable pub kind_attributes_cached :
      Text → Exec (State api) api.Fault (List KindAttributeDataType)
  unfolding fake_kind_attributes
  kind_attributes_cached k = do ask_for_metadata; λ s. (ok (fake_kind_attributes s.cache k), s)

  unfoldable pub kind_relations_cached : Text → Exec (State api) api.Fault (List ObjectRelation)
  unfolding fake_kind_relations
  kind_relations_cached k = do ask_for_metadata; λ s. (ok (fake_kind_relations s.cache k), s)
