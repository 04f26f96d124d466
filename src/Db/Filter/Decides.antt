-- ===== src/Db/Filter/Decides.antt =====
-- Equal filters are the same filter.
use deska.Base.{
  ℕ, Bool, true, false, ◌&&◌, Option, none, some, ◌==◌, ==_iff, if◌then◌else◌, ◌≡◌, refl, ap, sym,
  ◌∙◌, ◌↔◌,
}
use deska.Base.Text.{text_eq, text_eq_iff}
use deska.Db.Filter.Equality.{
  code, operator_eq, status_eq, constant_eq, metadata_value_eq, expression_eq, filter_eq,
  filters_eq,
}
use deska.Db.Filter.{
  ComparisonOperator, column_eq, column_ne, column_gt, column_ge, column_lt, column_le,
  column_contains, column_not_contains, AttachStatus, attach_detached, attach_in_progress,
  MetadataValue, metadata_value, metadata_revision, metadata_changeset, metadata_status,
  special_embedded_last_one, Expression, metadata_expression, attribute_expression,
  special_expression, Filter, expression, or_filter, and_filter, Filters, no_filters, one_filter,
}

abbrev decode : ℕ → ComparisonOperator
decode n =
    if n == 0
    then column_eq
    else if n == 1
    then column_ne
    else if n == 2
    then column_gt
    else if n == 3
    then column_ge
    else if n == 4
    then column_lt
    else if n == 5
    then column_le
    else if n == 6
    then column_contains
    else column_not_contains

decode-code : (o : ComparisonOperator) → decode (code o) ≡ o
decode-code column_eq = refl
decode-code column_ne = refl
decode-code column_gt = refl
decode-code column_ge = refl
decode-code column_lt = refl
decode-code column_le = refl
decode-code column_contains = refl
decode-code column_not_contains = refl

operator_lem : (a b : ComparisonOperator) → operator_eq a b ≡ true → a ≡ b
unfolding operator_eq
operator_lem a b h =
    sym (decode-code a) ∙ ap decode ((==_iff (code a) (code b)).0 h) ∙ decode-code b

operator_refl : (a : ComparisonOperator) → operator_eq a a ≡ true
unfolding operator_eq
operator_refl a = (==_iff (code a) (code a)).1 refl

status_lem : (a b : AttachStatus) → status_eq a b ≡ true → a ≡ b
status_lem attach_detached attach_detached h = refl
status_lem attach_detached attach_in_progress h = cc
status_lem attach_in_progress attach_detached h = cc
status_lem attach_in_progress attach_in_progress h = refl

status_refl : (a : AttachStatus) → status_eq a a ≡ true
status_refl attach_detached = refl
status_refl attach_in_progress = refl

and_parts : (a b : Bool) → (a && b) ≡ true → (a ≡ true) × (b ≡ true)
and_parts true b h = (refl, h)
and_parts false b h = cc

and_true : (a b : Bool) → a ≡ true → b ≡ true → (a && b) ≡ true
and_true true b h k = k
and_true false b h k = cc

module _ {V : Type 0} (value_eq : V → V → Bool)
    (decides : (a b : V) → (value_eq a b ≡ true) ↔ (a ≡ b)) where
  constant_lem : (a b : Option V) → constant_eq value_eq a b ≡ true → a ≡ b
  constant_lem none none h = refl
  constant_lem none (some b) h = cc
  constant_lem (some a) none h = cc
  constant_lem (some a) (some b) h = ap (λ v. some v) ((decides a b).0 h)

  constant_refl : (a : Option V) → constant_eq value_eq a a ≡ true
  constant_refl none = refl
  constant_refl (some a) = (decides a a).1 refl

  metadata_lem : (a b : MetadataValue V) → metadata_value_eq value_eq a b ≡ true → a ≡ b
  metadata_lem (metadata_value a) (metadata_value b) h =
      ap (λ v. metadata_value v) (constant_lem a b h)
  metadata_lem (metadata_revision a) (metadata_revision b) h =
      ap (λ v. metadata_revision v) ((==_iff a b).0 h)
  metadata_lem (metadata_changeset a) (metadata_changeset b) h =
      ap (λ v. metadata_changeset v) ((==_iff a b).0 h)
  metadata_lem (metadata_status a) (metadata_status b) h =
      ap (λ v. metadata_status v) (status_lem a b h)
  metadata_lem (metadata_value a) (metadata_revision b) h = cc
  metadata_lem (metadata_value a) (metadata_changeset b) h = cc
  metadata_lem (metadata_value a) (metadata_status b) h = cc
  metadata_lem (metadata_revision a) (metadata_value b) h = cc
  metadata_lem (metadata_revision a) (metadata_changeset b) h = cc
  metadata_lem (metadata_revision a) (metadata_status b) h = cc
  metadata_lem (metadata_changeset a) (metadata_value b) h = cc
  metadata_lem (metadata_changeset a) (metadata_revision b) h = cc
  metadata_lem (metadata_changeset a) (metadata_status b) h = cc
  metadata_lem (metadata_status a) (metadata_value b) h = cc
  metadata_lem (metadata_status a) (metadata_revision b) h = cc
  metadata_lem (metadata_status a) (metadata_changeset b) h = cc

  metadata_refl : (a : MetadataValue V) → metadata_value_eq value_eq a a ≡ true
  metadata_refl (metadata_value a) = constant_refl a
  metadata_refl (metadata_revision a) = (==_iff a a).1 refl
  metadata_refl (metadata_changeset a) = (==_iff a a).1 refl
  metadata_refl (metadata_status a) = status_refl a

  expression_lem : (a b : Expression V) → expression_eq value_eq a b ≡ true → a ≡ b
  unfolding expression_eq
  expression_lem (metadata_expression o m v) (metadata_expression p n w) h =
      let (x, r) = and_parts (operator_eq o p) (text_eq m n && metadata_value_eq value_eq v w) h in
      let (y, z) = and_parts (text_eq m n) (metadata_value_eq value_eq v w) r in
      λ i.
        metadata_expression (operator_lem o p x i) ((text_eq_iff m n).0 y i) (metadata_lem v w z i)
  expression_lem (attribute_expression o k a v) (attribute_expression p l b w) h =
      let (x, r) =
        and_parts (operator_eq o p) (text_eq k l && (text_eq a b && constant_eq value_eq v w)) h in
      let (y, q) = and_parts (text_eq k l) (text_eq a b && constant_eq value_eq v w) r in
      let (z, t) = and_parts (text_eq a b) (constant_eq value_eq v w) q in
      λ i.
        attribute_expression (operator_lem o p x i) ((text_eq_iff k l).0 y i)
          ((text_eq_iff a b).0 z i) (constant_lem v w t i)
  expression_lem (special_expression special_embedded_last_one k)
        (special_expression special_embedded_last_one l) h =
      ap (λ n. special_expression special_embedded_last_one n) ((text_eq_iff k l).0 h)
  expression_lem (metadata_expression o m v) (attribute_expression p l b w) h = cc
  expression_lem (metadata_expression o m v) (special_expression t l) h = cc
  expression_lem (attribute_expression o k a v) (metadata_expression p n w) h = cc
  expression_lem (attribute_expression o k a v) (special_expression t l) h = cc
  expression_lem (special_expression special_embedded_last_one k) (metadata_expression p n w) h = cc
  expression_lem (special_expression special_embedded_last_one k) (attribute_expression p l b w) h =
      cc

  expression_refl : (a : Expression V) → expression_eq value_eq a a ≡ true
  unfolding expression_eq
  expression_refl (metadata_expression o m v) =
      and_true (operator_eq o o) _ (operator_refl o)
        (and_true (text_eq m m) _ ((text_eq_iff m m).1 refl) (metadata_refl v))
  expression_refl (attribute_expression o k a v) = and_true (operator_eq o o) _ (operator_refl o) (
      and_true (text_eq k k) _ ((text_eq_iff k k).1 refl)
        (and_true (text_eq a a) _ ((text_eq_iff a a).1 refl) (constant_refl v)))
  expression_refl (special_expression special_embedded_last_one k) = (text_eq_iff k k).1 refl

  mutual
    unfolding filter_eq

    filter_lem : (a b : Filter V) → filter_eq value_eq a b ≡ true → a ≡ b
    filter_lem (expression e) (expression f) h = ap (λ x. expression x) (expression_lem e f h)
    filter_lem (or_filter fs) (or_filter gs) h = ap (λ x. or_filter x) (filters_lem fs gs h)
    filter_lem (and_filter fs) (and_filter gs) h = ap (λ x. and_filter x) (filters_lem fs gs h)
    filter_lem (expression e) (or_filter gs) h = cc
    filter_lem (expression e) (and_filter gs) h = cc
    filter_lem (or_filter fs) (expression f) h = cc
    filter_lem (or_filter fs) (and_filter gs) h = cc
    filter_lem (and_filter fs) (expression f) h = cc
    filter_lem (and_filter fs) (or_filter gs) h = cc

    filters_lem : (a b : Filters V) → filters_eq value_eq a b ≡ true → a ≡ b
    filters_lem no_filters no_filters h = refl
    filters_lem no_filters (one_filter g gs) h = cc
    filters_lem (one_filter f fs) no_filters h = cc
    filters_lem (one_filter f fs) (one_filter g gs) h =
        let (x, y) = and_parts (filter_eq value_eq f g) (filters_eq value_eq fs gs) h in
        λ i. one_filter (filter_lem f g x i) (filters_lem fs gs y i)

  mutual
    unfolding filter_eq

    filter_refl : (a : Filter V) → filter_eq value_eq a a ≡ true
    filter_refl (expression e) = expression_refl e
    filter_refl (or_filter fs) = filters_refl fs
    filter_refl (and_filter fs) = filters_refl fs

    filters_refl : (a : Filters V) → filters_eq value_eq a a ≡ true
    filters_refl no_filters = refl
    filters_refl (one_filter f fs) =
        and_true (filter_eq value_eq f f) _ (filter_refl f) (filters_refl fs)

  -- If the equality of values decides whether they are the same, then that of filters, nested to any
  -- depth, decides whether they are the same.
  pub filter_eq_iff : (a b : Filter V) → (filter_eq value_eq a b ≡ true) ↔ (a ≡ b)
  filter_eq_iff a b =
      (filter_lem a b, λ e. ap (λ c. filter_eq value_eq a c) (sym e) ∙ filter_refl a)
