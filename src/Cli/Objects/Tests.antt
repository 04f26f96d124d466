-- ===== src/Cli/Objects/Tests.antt =====
-- Sessions with hosts and their interfaces.
use deska.Cli.Objects.Example.{object, api, laws}
use deska.Base.{
  Bool, true, false, not, ◌&&◌, ◌||◌, none, some, List, [], ◌∷◌, if◌then◌else◌, ◌≡◌, refl, inl,
}
use deska.Base.Text.{Text, codes, text_compare, is_eq}
use deska.Base.Dict.{Dict, find, insert}
use deska.Db.Exec.{ok, fail}
use deska.Cli.Diff.Converters.{ObjectDefinition}
use deska.Cli.Path.Context.{object_item, filter_item}
use deska.Cli.Relations.{db_interaction}
use deska.Cli.Session.Interface.{server_error}
use deska.Cli.Objects.Key.{object_compare, object_ord}
use deska.Cli.Objects.State.{State, create_new_changeset}
use deska.Cli.Objects.Exists.{object_exists}
use deska.Cli.Objects.Expand.{Item, expand_context_stack}
use deska.Cli.Objects.Modify.{
  delete_object_in, restore_deleted_object_in, delete_objects, create_objects,
}
use deska.Cli.Objects.Laws.{Existing, same_object, update, listed, effect, Fits, Coherent}
use deska.Cli.Objects.Histories.{
  Request, create_request, delete_request, start_request, restore_request, runs,
}
use deska.Cli.Objects.Expanded.{OfKind, expand_context_stack-OfKind}
use deska.Cli.Objects.Coherence.{runs-Coherent}
use deska.Cli.Objects.Answers.{
  object_exists-answer, delete_objects-exists, create_restore-exists, refused,
  delete_objects-refused,
}

abbrev host : Text → ObjectDefinition
host n = object (codes "host") n

abbrev a_host : ObjectDefinition
a_host = host (codes "a")

abbrev b_host : ObjectDefinition
b_host = host (codes "b")

abbrev locked_host : ObjectDefinition
locked_host = host (codes "locked")

abbrev text : Text → Text
text t = t

abbrev session_with : Existing → Bool → Dict ObjectDefinition Bool → State api
session_with e v m = record {
  server = e;
  relations = db_interaction [];
  stable_view = v;
  object_exists_cache = m;
}

abbrev nothing : Existing
nothing o = false

abbrev two_hosts : Existing
two_hosts = update a_host true (update locked_host true nothing)

abbrev start : State api
start = session_with nothing false []

start-Coherent : Coherent api laws start
unfolding Coherent
start-Coherent h x = cc

abbrev requests : List (Request Text (Item api text))
requests =
    start_request
    ∷ create_request (a_host ∷ b_host ∷ []) (refl, (refl, tt))
    ∷ delete_request (filter_item (codes "host") none ∷ [])
    ∷ restore_request (object_item (codes "host") (codes "b") ∷ [])
    ∷ []

abbrev finish : State api
finish = (runs api text requests start).1

runs_value : runs api text requests start ≡ (ok tt, finish)
unfolding text_compare runs create_new_changeset create_objects find insert object_compare
    delete_object_in effect restore_deleted_object_in
runs_value = refl

runs-Coherent_example : Coherent api laws finish
runs-Coherent_example =
    runs-Coherent api laws text requests start tt finish start-Coherent runs_value

-- The host `a` and the locked host exist, and of both it is known.
abbrev known : Dict ObjectDefinition Bool
known = (a_host, true) ∷ (locked_host, true) ∷ []

abbrev frozen : State api
frozen = session_with two_hosts true known

frozen-Coherent : Coherent api laws frozen
unfolding Coherent find Fits update same_object
frozen-Coherent h x =
    by_tests (is_eq (object_compare x a_host)) (is_eq (object_compare x locked_host))
  where
    by_tests :
        (b c : Bool)
        → Fits
            (if b then some true else if c then some true else none)
            (if b then true else if c then true else false)
            (if b then true else if c then true else false)
    by_tests true c = refl
    by_tests false true = refl
    by_tests false false = refl

object_exists_value : object_exists api a_host frozen ≡ (ok true, frozen)
unfolding text_compare object_exists object_compare find
object_exists_value = refl

object_exists-answer_example : true ≡ (not false && two_hosts a_host)
object_exists-answer_example =
    object_exists-answer api laws a_host frozen true frozen frozen-Coherent object_exists_value

abbrev listed_hosts : List ObjectDefinition
listed_hosts = a_host ∷ b_host ∷ a_host ∷ []

abbrev after_delete : State api
after_delete = (delete_objects api listed_hosts frozen).1

delete_value : delete_objects api listed_hosts frozen ≡ (ok tt, after_delete)
unfolding text_compare delete_objects object_compare find insert update effect
delete_value = refl

delete_objects-exists_example :
    laws.exists after_delete.server a_host
    ≡ (two_hosts a_host && not (listed listed_hosts a_host && not false))
delete_objects-exists_example =
    delete_objects-exists api laws listed_hosts frozen tt after_delete refl frozen-Coherent
      delete_value a_host

abbrev after_create : State api
after_create = (create_objects api listed_hosts frozen).1

create_value : create_objects api listed_hosts frozen ≡ (ok tt, after_create)
unfolding text_compare create_objects object_compare find insert update effect
create_value = refl

create_restore-exists_example :
    laws.exists after_create.server b_host ≡ (two_hosts b_host || listed listed_hosts b_host)
create_restore-exists_example =
    create_restore-exists api laws listed_hosts frozen tt after_create refl frozen-Coherent
      (inl (create_value, (refl, (refl, (refl, tt))))) b_host

locked_known : find locked_host known ≡ some true
unfolding text_compare find object_compare
locked_known = refl

delete_objects-refused_example :
    (delete_objects api (locked_host ∷ []) frozen
      ≡ (fail server_error, refused api laws locked_host frozen two_hosts))
    × (object_exists api locked_host (refused api laws locked_host frozen two_hosts)
        ≡ (ok false, refused api laws locked_host frozen two_hosts))
    × (two_hosts locked_host ≡ true)
unfolding text_compare
delete_objects-refused_example =
    delete_objects-refused api laws locked_host frozen server_error two_hosts refl refl
      frozen-Coherent locked_known refl refl

-- the interfaces of all hosts
abbrev context : List (Item api text)
context = filter_item (codes "host") none ∷ object_item (codes "interface") (codes "eth") ∷ []

abbrev interfaces : List ObjectDefinition
interfaces =
    object (codes "interface") (codes "a->eth")
    ∷ object (codes "interface") (codes "locked->eth")
    ∷ []

abbrev after_expand : State api
after_expand = (expand_context_stack api text context frozen).1

expand_value : expand_context_stack api text context frozen ≡ (ok interfaces, after_expand)
unfolding text_compare expand_context_stack object_compare find insert update
    deska.Cli.Path.identifier deska.Cli.Path.group deska.Cli.Path.skip
    deska.Cli.Path.more_identifiers deska.Cli.Path.groups
expand_value = refl

expand_context_stack-OfKind_example : OfKind (codes "interface") interfaces
expand_context_stack-OfKind_example =
    expand_context_stack-OfKind api text context (object_item (codes "interface") (codes "eth"))
      frozen interfaces after_expand refl expand_value
