-- ===== src/Db/Caching/Tests.antt =====
-- A server that keeps a log of what it was told, and sessions with it.
use deska.Base.{if◌then◌else◌, ℕ, none, some, List, [], ◌∷◌, ◌++◌, map, ◌≡◌, refl, sym, arith, ◌∙◌}
use deska.Base.Text.{Text, codes, text_compare, text_eq}
use deska.Db.Objects.{KindAttributeDataType, type_int}
use deska.Db.Command.{
  ObjectModificationCommand, lacks_local, create_object, delete_object, rename_object,
  set_attribute, set_attribute_insert, set_attribute_remove,
}
use deska.Db.Exec.{ok, fail}
use deska.Db.Caching.Api.{JsonApi}
use deska.Db.Caching.State.{cache_same_object, cache_same_kind, fresh}
use deska.Db.Caching.Direct.{Call, command, set_batching, run_cached, run_all_cached}
use deska.Db.Caching.Homogeneous.{IsHomogeneous, run_cached-IsHomogeneous}
use deska.Db.Caching.Scheme.{HasScheme, scheme_answers}
use deska.Db.Caching.Metadata.{ask_for_metadata, kind_attributes_cached, kind_relations_cached}

abbrev Command : Type 0
Command = ObjectModificationCommand ℕ

-- an object that is created without a local name is called "new"
abbrev given : Text → Text
given n = if lacks_local n then n ++ codes "new" else n

abbrev logged : Command → Command
logged (create_object k n) = create_object k (given n)
logged (delete_object k n) = delete_object k n
logged (rename_object k old new) = rename_object k old new
logged (set_attribute k n a v) = set_attribute k n a v
logged (set_attribute_insert k n a i) = set_attribute_insert k n a i
logged (set_attribute_remove k n a i) = set_attribute_remove k n a i

abbrev serial : KindAttributeDataType
serial = record { name = codes "serial"; type = type_int }

abbrev log_api : JsonApi ℕ
log_api = record {
  Server = List Command;
  Fault = ℕ;
  kind_names = λ t. (ok (codes "host" ∷ []), t);
  kind_attributes = λ k t. (if text_eq k (codes "host") then ok (serial ∷ []) else fail 1, t);
  kind_relations = λ k t. (if text_eq k (codes "host") then ok [] else fail 1, t);
  delete_object = λ k n t. (ok tt, t ++ delete_object k n ∷ []);
  restore_deleted_object = λ k n t. (ok tt, t);
  create_object = λ k n t. (ok (given n), t ++ create_object k (given n) ∷ []);
  rename_object = λ k old new t. (ok tt, t ++ rename_object k old new ∷ []);
  set_attribute = λ k n a v t. (ok tt, t ++ set_attribute k n a v ∷ []);
  set_attribute_insert = λ k n a i t. (ok tt, t ++ set_attribute_insert k n a i ∷ []);
  set_attribute_remove = λ k n a i t. (ok tt, t ++ set_attribute_remove k n a i ∷ []);
  apply_batched_changes = λ cs t. (ok tt, t ++ map logged cs);
}

abbrev host : Text
host = codes "host"

abbrev calls : List (Call ℕ)
calls =
    set_batching cache_same_object
    ∷ command (create_object host (codes "a"))
    ∷ command (set_attribute host (codes "a") (codes "serial") (some 7))
    ∷ command (rename_object host (codes "a") (codes "b"))
    ∷ command (set_attribute host (codes "b") (codes "serial") none)
    ∷ command (create_object host [])
    ∷ set_batching cache_same_kind
    ∷ command (delete_object host (codes "b"))
    ∷ []

-- one batch for the four commands on one object
batched :
    (run_all_cached log_api
      (set_batching cache_same_object
        ∷ command (create_object host (codes "a"))
        ∷ command (rename_object host (codes "a") (codes "b"))
        ∷ command (delete_object host (codes "b"))
        ∷ [])
      (fresh [])).1.server
    ≡ []
unfolding run_all_cached run_cached deska.Db.Caching.Commands.create_object_cached
    deska.Db.Caching.Commands.rename_object_cached deska.Db.Caching.Commands.delete_object_cached
    deska.Db.Caching.Commands.set_command_batching deska.Base.Text.text_compare
batched = refl

run_cached-IsHomogeneous_example :
    IsHomogeneous log_api
      (run_cached log_api (command (delete_object host (codes "b"))) (record (fresh []) {
        pending_modifications = rename_object host (codes "a") (codes "b") ∷ [];
        command_batching = cache_same_object;
      })).1
run_cached-IsHomogeneous_example =
    run_cached-IsHomogeneous log_api (command (delete_object host (codes "b")))
      (record (fresh []) {
        pending_modifications = rename_object host (codes "a") (codes "b") ∷ [];
        command_batching = cache_same_object;
      })
      tt tt

log_scheme : HasScheme log_api (host ∷ []) (λ k. serial ∷ []) (λ k. [])
log_scheme = record {
  on_names = λ t. refl;
  on_attrs = λ k t h. ground arith;
  on_relations = λ k t h. ground arith;
}

scheme_answers_example :
    (kind_attributes_cached log_api host (fresh [])
      ≡ (ok (serial ∷ []), (ask_for_metadata log_api (fresh [])).1))
    × (kind_relations_cached log_api host (fresh [])
        ≡ (ok [], (ask_for_metadata log_api (fresh [])).1))
    × ((ask_for_metadata log_api (fresh [])).1.server ≡ [])
    × (kind_attributes_cached log_api host (ask_for_metadata log_api (fresh [])).1
        ≡ (ok (serial ∷ []), (ask_for_metadata log_api (fresh [])).1))
    × (kind_relations_cached log_api host (ask_for_metadata log_api (fresh [])).1
        ≡ (ok [], (ask_for_metadata log_api (fresh [])).1))
unfolding text_compare
scheme_answers_example =
    scheme_answers log_api (host ∷ []) (λ k. serial ∷ []) (λ k. []) log_scheme host []
