-- ===== src/Db/Filter.antt =====
-- src/deska/db/Filter.h and Filter.cpp: filters, over the type `V` of attribute values.
pub mod Equality
mod Decides
mod Tests
use deska.Base.{ℕ, Option}
use deska.Base.Text.{Text}

pub data ComparisonOperator : Type 0 where
  column_eq column_ne column_gt column_ge column_lt column_le : ComparisonOperator
  column_contains column_not_contains : ComparisonOperator

pub data AttachStatus : Type 0 where
  attach_detached attach_in_progress : AttachStatus

pub data MetadataValue (V : Type 0) : Type 0 where
  metadata_value : Option V → MetadataValue V
  metadata_revision metadata_changeset : ℕ → MetadataValue V
  metadata_status : AttachStatus → MetadataValue V

pub data SpecialFilterType : Type 0 where
  special_embedded_last_one : SpecialFilterType

pub data Expression (V : Type 0) : Type 0 where
  metadata_expression : ComparisonOperator → Text → MetadataValue V → Expression V
  -- the operator, the kind, the attribute and the value
  attribute_expression : ComparisonOperator → Text → Text → Option V → Expression V
  special_expression : SpecialFilterType → Text → Expression V

mutual
  pub data Filter (V : Type 0) : Type 0 where
    expression : Expression V → Filter V
    or_filter and_filter : Filters V → Filter V

  -- `std::vector<Filter>`
  pub data Filters (V : Type 0) : Type 0 where
    no_filters : Filters V
    one_filter : Filter V → Filters V → Filters V
