-- ===== src/Cli/Relations.antt =====
-- src/deska/cli/DbInteraction.cpp: what the constructor keeps of the relations of the scheme, and the
-- questions that it answers from there.
mod Answers
mod Tests
use deska.Base.{
  Bool, true, false, not, ◌&&◌, ◌||◌, Option, none, some, List, [], ◌∷◌, ◌++◌, if◌then◌else◌,
}
use deska.Base.Text.{Text, text_eq}
use deska.Base.Dict.{Dict, find, insert, text_ord}
use deska.Db.Objects.{
  ObjectRelation, ObjectRelationKind, relation_embed_into, relation_containable, relation_contains,
}

pub record Relations : Type 0 where
  pub pure_top_level_kinds : List Text
  -- the column and the target
  pub embedded_into : Dict Text (Text × Text)
  pub embeds : Dict Text (List Text)
  pub contains : Dict Text (List Text)
  pub containable : Dict Text (List Text)
  pub referring_attrs_cont : Dict Text (Dict Text Text)
  pub referring_attrs_cble : Dict Text (Dict Text Text)
  pub readonly_attributes : Dict Text (List Text)

abbrev pub no_relations : Relations
no_relations = record {
  pure_top_level_kinds = [];
  embedded_into = [];
  embeds = [];
  contains = [];
  containable = [];
  referring_attrs_cont = [];
  referring_attrs_cble = [];
  readonly_attributes = [];
}

-- `m[k]` of a map of vectors or of maps
abbrev pub entry : {V : Type 0} → Dict Text (List V) → Text → List V
entry m k = elim (find k m) [ none ↦ [] | some vs ↦ vs ]

-- what `m[k]` leaves: an empty entry where there was none
abbrev pub touch : {V : Type 0} → Text → Dict Text (List V) → Dict Text (List V)
touch k m = elim (find k m) [ none ↦ insert k [] m | some vs ↦ m ]

-- `m[k].push_back(v)`
abbrev pub push : Text → Text → Dict Text (List Text) → Dict Text (List Text)
push k v m = insert k (entry m k ++ v ∷ []) m

-- `m[k][column] = target`
abbrev pub refer : Text → Text → Text → Dict Text (Dict Text Text) → Dict Text (Dict Text Text)
refer k column target m = insert k (insert column target (entry m k)) m

-- The three tests on one relation of the kind `k`.
unfoldable pub add_relation : Text → ObjectRelation → Relations → Relations
add_relation k r s = elim r.kind [
  | relation_embed_into ↦ record s {
    embeds = push r.target k s.embeds;
    embedded_into = insert k (r.column, r.target) s.embedded_into;
  }
  | relation_containable ↦ record s {
    containable = push k r.target s.containable;
    referring_attrs_cble = refer k r.column r.target s.referring_attrs_cble;
    readonly_attributes = push k r.column s.readonly_attributes;
  }
  | relation_contains ↦ record s {
    contains = push k r.target s.contains;
    referring_attrs_cont = refer k r.column r.target s.referring_attrs_cont;
    readonly_attributes = push k r.column s.readonly_attributes;
  }
  | _ ↦ s
]

abbrev pub is_embed : ObjectRelationKind → Bool
is_embed relation_embed_into = true
is_embed _ = false

-- The inner loop, with `isEmbedded`.
unfoldable pub add_relations : Text → List ObjectRelation → Bool → Relations → Bool × Relations
unfolding add_relation
add_relations k [] embedded s = (embedded, s)
add_relations k (r ∷ rs) embedded s =
    add_relations k rs (embedded || is_embed r.kind) (add_relation k r s)

abbrev pub note_kind : Text → Bool × Relations → Relations
note_kind k (embedded, s) =
    if embedded then s else record s { pure_top_level_kinds = s.pure_top_level_kinds ++ k ∷ [] }

-- The outer loop, over each kind with what `kindRelations` gives for it.
unfoldable pub read_kinds : List (Text × List ObjectRelation) → Relations → Relations
unfolding add_relations
read_kinds [] s = s
read_kinds ((k, rs) ∷ kinds) s = read_kinds kinds (note_kind k (add_relations k rs false s))

-- The constructor.
unfoldable pub db_interaction : List (Text × List ObjectRelation) → Relations
unfolding read_kinds
db_interaction kinds = read_kinds kinds no_relations

-- `std::find(…) != v.end()`
abbrev pub has : List Text → Text → Bool
has [] a = false
has (x ∷ xs) a = text_eq x a || has xs a

unfoldable pub readonly_attribute : Relations → Text → Text → Bool
readonly_attribute s k a = has (entry s.readonly_attributes k) a

unfoldable pub embedded_into_kind : Relations → Text → Text
embedded_into_kind s k = elim (find k s.embedded_into) [ none ↦ [] | some pair ↦ pair.1 ]
