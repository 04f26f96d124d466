-- ===== src/Cli/Objects/Contained/Tests.antt =====
-- The box that a host is contained in.
use deska.Base.{true, false, [], ◌∷◌, All, ◌≡◌, refl}
use deska.Base.Text.{Text, codes, text_compare}
use deska.Base.Dict.{find, insert}
use deska.Db.Exec.{ok}
use deska.Db.Objects.{relation_contains}
use deska.Cli.Diff.Converters.{ObjectDefinition}
use deska.Cli.Relations.{Relations, db_interaction, entry}
use deska.Cli.Objects.Key.{object_compare}
use deska.Cli.Objects.State.{State}
use deska.Cli.Objects.Laws.{update}
use deska.Cli.Objects.Example.{object, api}
use deska.Cli.Objects.Contained.{contained_objects, push_new}
use deska.Cli.Objects.Contained.Answers.{Part, Distinct, contained_objects-Part}

abbrev text : Text → Text
text t = t

-- a box that contains a host and a disk
abbrev scheme : Relations
scheme = db_interaction (
    (
      codes "box",
      record { kind = relation_contains; target = codes "host"; column = codes "h" }
          ∷ record { kind = relation_contains; target = codes "disk"; column = codes "d" }
          ∷ [],
    )
    ∷ [])

abbrev host_a : ObjectDefinition
host_a = object (codes "host") (codes "a")

abbrev start : State api
start = record {
  server = update host_a true (λ o. false);
  relations = scheme;
  stable_view = true;
  object_exists_cache = [];
}

abbrev box_a : ObjectDefinition
box_a = object (codes "box") (codes "a")

abbrev after_contained : State api
after_contained = (contained_objects api text box_a start).1

contained_value : contained_objects api text box_a start ≡ (ok (host_a ∷ []), after_contained)
unfolding text_compare contained_objects push_new object_compare find insert update db_interaction
    deska.Cli.Path.identifier deska.Cli.Path.group deska.Cli.Path.skip
    deska.Cli.Path.more_identifiers deska.Cli.Path.groups
contained_value = refl

contained_objects-Part_example :
    All (Part (entry scheme.contains (codes "box")) (codes "a")) (host_a ∷ [])
    × Distinct (host_a ∷ [])
contained_objects-Part_example =
    contained_objects-Part api text box_a start (host_a ∷ []) after_contained contained_value
