-- ===== src/Cli/Objects/Expand.antt =====
-- `filterOnName` and `expandContextStack`.
use mathlib.Core.Option
use deska.Base.{but_last, Bool, false, Option, none, some, List, [], ◌∷◌, if◌then◌else◌, map, back}
use deska.Base.Text.{Text, codes, is_empty}
use deska.Base.Dict.{find, text_ord}
use deska.Db.Exec.{◌>>=◌, pure}
use deska.Db.Filter.{
  Filter, Filters, expression, or_filter, and_filter, no_filters, one_filter, attribute_expression,
  column_eq,
}
use deska.Cli.Diff.Converters.{ObjectDefinition}
use deska.Cli.Diff.Children.{has_two}
use deska.Cli.Path.{path_to_vector, vector_to_path}
use deska.Cli.Path.Context.{ContextStackItem, is_filter, context_stack_to_path}
use deska.Cli.Relations.{Relations}
use deska.Cli.Session.Rebase.{or_throw}
use deska.Cli.Objects.Key.{step_in_context}
use deska.Cli.Objects.State.{ObjectsApi, Method}
use deska.Cli.Objects.Exists.{instances}

-- `text` makes the value of a string.
module _ {V : Type 0} (text : Text → V) where
  abbrev equal_to : Text → Text → Text → Filter V
  equal_to kind attribute v =
      expression (attribute_expression column_eq kind attribute (some (text v)))

  -- `none` is a ContextStackConversionError, or a BOOST_ASSERT on the length of the path.
  unfoldable pub filter_on_name : Relations → Text → Text → Option (Filter V)
  unfolding path_to_vector vector_to_path
  filter_on_name r kind name = elim (path_to_vector name) [
    | none ↦ none
    | some ids ↦ elim (find kind r.embedded_into) [
      | none ↦ if has_two ids then none else some (equal_to kind (codes "name") name)
      | some (column, target) ↦
          if has_two ids
          then elim (back ids) [
            | none ↦ none
            | some last ↦ some (
                and_filter (
                  one_filter (equal_to kind (codes "name") last)
                    (one_filter (equal_to kind column (vector_to_path (but_last ids))) no_filters)))
          ]
          else none
    ]
  ]

  -- the filter for each of the objects
  unfoldable pub filters_on_names : Relations → List ObjectDefinition → Option (Filters V)
  unfolding filter_on_name
  filters_on_names r [] = some no_filters
  filters_on_names r (o ∷ os) = elim (filter_on_name r o.kind o.name) [
    | none ↦ none
    | some f ↦ Option.map (one_filter f) (filters_on_names r os)
  ]

  -- the objects, and the filter of the context where it has one
  abbrev pub final_filter : Filters V → Option (Filter V) → Filter V
  final_filter fs none = and_filter (one_filter (or_filter fs) no_filters)
  final_filter fs (some f) = and_filter (one_filter (or_filter fs) (one_filter f no_filters))

-- `pathToVector(name).back().empty()`; `none` is the exception.
unfoldable pub ends_empty : Text → Option Bool
unfolding path_to_vector
ends_empty name = elim (path_to_vector name) [
  | none ↦ none
  | some ids ↦ elim (back ids) [ none ↦ none | some last ↦ some (is_empty last) ]
]

-- The loop over the extracted objects: `none` is any of its exceptions.
unfoldable pub all_named : List ObjectDefinition → Option (Unit {0})
unfolding ends_empty
all_named [] = some tt
all_named (o ∷ os) = elim (ends_empty o.name) [ some false ↦ all_named os | _ ↦ none ]

module _ {V : Type 0} (api : ObjectsApi V) (text : Text → V) where
  abbrev pub Item : Type 0
  Item = ContextStackItem (Filter V)

  -- the filter of an item behind other objects
  unfoldable pub instances_under : List ObjectDefinition → Item → Method api (List ObjectDefinition)
  unfolding filters_on_names instances
  instances_under os i s =
      (or_throw (filters_on_names text s.relations os) >>= λ fs.
      instances api i.kind (some (final_filter text fs i.filter)))
        s

  -- one item, behind the objects that are extracted already
  unfoldable pub expand_item : List ObjectDefinition → Item → Method api (List ObjectDefinition)
  unfolding all_named instances_under step_in_context instances
  expand_item [] i =
      if is_filter i.item_type
      then instances api i.kind i.filter
      else pure (record { kind = i.kind; name = i.name } ∷ [])
  expand_item (o ∷ os) i = or_throw (all_named (o ∷ os)) >>= λ _.
      (if is_filter i.item_type
        then instances_under (o ∷ os) i
        else pure (map (λ x. step_in_context x (record { kind = i.kind; name = i.name })) (o ∷ os)))

  abbrev pub none_found : Item → List ObjectDefinition → Bool
  none_found i [] = is_filter i.item_type
  none_found i (o ∷ os) = false

  -- The loop over the context: a filter with no instances ends it with nothing.
  unfoldable pub expand_items :
      List ObjectDefinition → List Item → Method api (List ObjectDefinition)
  unfolding expand_item
  expand_items objects [] = pure objects
  expand_items objects (i ∷ r) = expand_item objects i >>= λ found.
      (if none_found i found then pure [] else expand_items found r)

  unfoldable pub expand_context_stack : List Item → Method api (List ObjectDefinition)
  unfolding expand_items context_stack_to_path
  expand_context_stack context = elim (back context) [
    | none ↦ pure []
    | some last ↦ elim (context_stack_to_path context) [
      | some path ↦ pure (record { kind = last.kind; name = path } ∷ [])
      | none ↦ expand_items [] context
    ]
  ]
