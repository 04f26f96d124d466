-- ===== src/Cli/Relations/Tests.antt =====
-- A scheme of hosts with interfaces, each host in a rack.
use deska.Base.{true, List, [], ◌∷◌, ◌≡◌}
use deska.Base.Text.{Text, codes, text_compare}
use deska.Db.Objects.{
  ObjectRelation, ObjectRelationKind, relation_embed_into, relation_containable, relation_contains,
}
use deska.Cli.Relations.{db_interaction, readonly_attribute}
use deska.Cli.Relations.Answers.{db_interaction-readonly_attribute, db_interaction-top_level}

abbrev relation : ObjectRelationKind → Text → Text → ObjectRelation
relation k t c = record { kind = k; target = t; column = c }

abbrev scheme : List (Text × List ObjectRelation)
scheme =
    (codes "interface", relation relation_embed_into (codes "host") (codes "owner") ∷ [])
    ∷ (codes "host", relation relation_containable (codes "rack") (codes "place") ∷ [])
    ∷ (codes "rack", relation relation_contains (codes "host") (codes "content") ∷ [])
    ∷ []

db_interaction-readonly_attribute_example :
    readonly_attribute (db_interaction scheme) (codes "host") (codes "place") ≡ true
unfolding text_compare
db_interaction-readonly_attribute_example =
    db_interaction-readonly_attribute scheme (codes "host") (codes "place")

db_interaction-top_level_example :
    (db_interaction scheme).pure_top_level_kinds ≡ codes "host" ∷ codes "rack" ∷ []
db_interaction-top_level_example = db_interaction-top_level scheme
