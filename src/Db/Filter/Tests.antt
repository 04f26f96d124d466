-- ===== src/Db/Filter/Tests.antt =====
-- Two filters that differ only in the order of their operands.
use deska.Base.{true, some, ◌≡◌, ◌↔◌}
use deska.Base.Text.{Text, codes, text_eq, text_eq_iff}
use deska.Db.Filter.{
  column_eq, column_contains, attribute_expression, Filter, expression, and_filter, no_filters,
  one_filter,
}
use deska.Db.Filter.Equality.{filter_eq}
use deska.Db.Filter.Decides.{filter_eq_iff}

abbrev named : Filter Text
named = expression (attribute_expression column_eq (codes "host") (codes "name") (some (codes "a")))

abbrev tagged : Filter Text
tagged =
    expression
      (attribute_expression column_contains (codes "host") (codes "role") (some (codes "web")))

abbrev one_order : Filter Text
one_order = and_filter (one_filter named (one_filter tagged no_filters))

abbrev other_order : Filter Text
other_order = and_filter (one_filter tagged (one_filter named no_filters))

filter_eq_iff_example : (filter_eq text_eq one_order other_order ≡ true) ↔ (one_order ≡ other_order)
filter_eq_iff_example = filter_eq_iff text_eq text_eq_iff one_order other_order
