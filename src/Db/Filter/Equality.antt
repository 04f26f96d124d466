-- ===== src/Db/Filter/Equality.antt =====
-- The equality of filters, over that of values.
use deska.Base.{ℕ, Bool, true, false, ◌&&◌, Option, none, some, ◌==◌}
use deska.Base.Text.{text_eq}
use deska.Db.Filter.{
  ComparisonOperator, column_eq, column_ne, column_gt, column_ge, column_lt, column_le,
  column_contains, column_not_contains, AttachStatus, attach_detached, attach_in_progress,
  MetadataValue, metadata_value, metadata_revision, metadata_changeset, metadata_status,
  special_embedded_last_one, Expression, metadata_expression, attribute_expression,
  special_expression, Filter, expression, or_filter, and_filter, Filters, no_filters, one_filter,
}

-- the numbers of the enumerators
abbrev pub code : ComparisonOperator → ℕ
code column_eq = 0
code column_ne = 1
code column_gt = 2
code column_ge = 3
code column_lt = 4
code column_le = 5
code column_contains = 6
code column_not_contains = 7

unfoldable pub operator_eq : ComparisonOperator → ComparisonOperator → Bool
operator_eq a b = code a == code b

abbrev pub status_eq : AttachStatus → AttachStatus → Bool
status_eq attach_detached attach_detached = true
status_eq attach_in_progress attach_in_progress = true
status_eq _ _ = false

module _ {V : Type 0} (value_eq : V → V → Bool) where
  -- `boost::optional`
  abbrev pub constant_eq : Option V → Option V → Bool
  constant_eq none none = true
  constant_eq (some a) (some b) = value_eq a b
  constant_eq _ _ = false

  -- `boost::variant`: the types are equal, and the values
  abbrev pub metadata_value_eq : MetadataValue V → MetadataValue V → Bool
  metadata_value_eq (metadata_value a) (metadata_value b) = constant_eq a b
  metadata_value_eq (metadata_revision a) (metadata_revision b) = a == b
  metadata_value_eq (metadata_changeset a) (metadata_changeset b) = a == b
  metadata_value_eq (metadata_status a) (metadata_status b) = status_eq a b
  metadata_value_eq _ _ = false

  unfoldable pub expression_eq : Expression V → Expression V → Bool
  unfolding operator_eq
  expression_eq (metadata_expression o m v) (metadata_expression p n w) =
      operator_eq o p && (text_eq m n && metadata_value_eq v w)
  expression_eq (attribute_expression o k a v) (attribute_expression p l b w) =
      operator_eq o p && (text_eq k l && (text_eq a b && constant_eq v w))
  expression_eq (special_expression special_embedded_last_one k)
        (special_expression special_embedded_last_one l) =
      text_eq k l
  expression_eq _ _ = false

  unfoldable mutual
    pub filter_eq : Filter V → Filter V → Bool
    filter_eq (expression e) (expression f) = expression_eq e f
    filter_eq (or_filter fs) (or_filter gs) = filters_eq fs gs
    filter_eq (and_filter fs) (and_filter gs) = filters_eq fs gs
    filter_eq _ _ = false

    -- `std::vector<Filter>`
    pub filters_eq : Filters V → Filters V → Bool
    filters_eq no_filters no_filters = true
    filters_eq (one_filter f fs) (one_filter g gs) = filter_eq f g && filters_eq fs gs
    filters_eq _ _ = false
