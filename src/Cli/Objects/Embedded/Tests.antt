-- ===== src/Cli/Objects/Embedded/Tests.antt =====
-- The interfaces embedded in a host.
use deska.Base.{true, false, List, [], ◌∷◌, All, ◌≡◌, refl}
use deska.Base.Text.{Text, codes, text_compare}
use deska.Base.Dict.{find, insert}
use deska.Db.Exec.{ok}
use deska.Db.Objects.{relation_embed_into}
use deska.Cli.Diff.Converters.{ObjectDefinition}
use deska.Cli.Path.Context.{object_item}
use deska.Cli.Relations.{Relations, db_interaction}
use deska.Cli.Objects.Key.{object_compare}
use deska.Cli.Objects.State.{State}
use deska.Cli.Objects.Expand.{Item}
use deska.Cli.Objects.Laws.{update}
use deska.Cli.Objects.Example.{object, api, Known, names-Known}
use deska.Cli.Objects.Nested.{all_nested_objects_in}
use deska.Cli.Objects.Embedded.{Below, all_nested_objects_in-Below}

abbrev text : Text → Text
text t = t

abbrev scheme : Relations
scheme = db_interaction (
    (codes "host", [])
    ∷ (
      codes "interface",
      record { kind = relation_embed_into; target = codes "host"; column = codes "host" } ∷ [],
    )
    ∷ [])

abbrev interface_a : ObjectDefinition
interface_a = object (codes "interface") (codes "a")

abbrev interface_b : ObjectDefinition
interface_b = object (codes "interface") (codes "b")

abbrev start : State api
start = record {
  server = update interface_a true (update interface_b true (λ o. false));
  relations = scheme;
  stable_view = true;
  object_exists_cache = [];
}

abbrev of_host : List (Item api text)
of_host = object_item (codes "host") (codes "h") ∷ []

abbrev after_nested : State api
after_nested = (all_nested_objects_in api text of_host start).1

nested_value :
    all_nested_objects_in api text of_host start
    ≡ (ok (interface_a ∷ interface_b ∷ []), after_nested)
unfolding text_compare all_nested_objects_in object_compare find insert update db_interaction
    deska.Cli.Path.identifier deska.Cli.Path.group deska.Cli.Path.skip
    deska.Cli.Path.more_identifiers deska.Cli.Path.groups
nested_value = refl

all_nested_objects_in-Below_example :
    All (Below text scheme Known (codes "host")) (interface_a ∷ interface_b ∷ [])
all_nested_objects_in-Below_example =
    all_nested_objects_in-Below api text scheme Known names-Known of_host
      (object_item (codes "host") (codes "h")) start (interface_a ∷ interface_b ∷ []) after_nested
      refl refl nested_value
