-- ===== src/Cli/Objects/Key.antt =====
-- src/deska/cli/CliObjects.cpp: the order of object definitions, by which the cache is sorted, and the
-- step into the context of a nested object.
use deska.Base.{Bool, true, false, ◌++◌, if◌then◌else◌, ◌≡◌, arith, Ordering}
use deska.Base.Text.{codes, text_compare_refl, text_compare_eq, text_lt, text_compare-flip}
use deska.Base.Dict.{Ord}
use deska.Cli.Diff.Converters.{ObjectDefinition}

-- `operator<`
unfoldable pub object_less : ObjectDefinition → ObjectDefinition → Bool
object_less a b =
    if text_lt a.kind b.kind
    then true
    else if text_lt b.kind a.kind
    then false
    else text_lt a.name b.name

-- The comparison by which `std::map` finds its keys, neither less than the other being equal.
unfoldable pub object_compare : ObjectDefinition → ObjectDefinition → Ordering
unfolding object_less
object_compare a b =
    if object_less a b then Ordering.lt else if object_less b a then Ordering.gt else Ordering.eq

pub object_compare_refl : (a : ObjectDefinition) → object_compare a a ≡ Ordering.eq
unfolding object_compare
object_compare_refl a = ground (arith, text_compare_refl a.kind, text_compare_refl a.name)

pub object_compare_eq : (a b : ObjectDefinition) → object_compare a b ≡ Ordering.eq → a ≡ b
unfolding object_compare
object_compare_eq a b h = ground (
  arith,
  text_compare-flip a.kind b.kind,
  text_compare-flip a.name b.name,
  text_compare_eq a.kind b.kind,
  text_compare_eq a.name b.name,
)

instance abbrev pub object_ord : Ord ObjectDefinition
object_ord = record {
  cmp = object_compare;
  cmp_refl = object_compare_refl;
  cmp_eq = object_compare_eq;
}

unfoldable pub step_in_context : ObjectDefinition → ObjectDefinition → ObjectDefinition
step_in_context current nested = record {
  kind = nested.kind;
  name = current.name ++ (codes "->" ++ nested.name);
}
