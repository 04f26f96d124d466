-- ===== src/Cli/Path/Context.antt =====
-- The items of the context stack, their equality, and the path of a stack.
use mathlib.Core.Option
use deska.Base.{
  Bool, true, false, ◌&&◌, ◌||◌, not, Option, none, some, List, [], ◌∷◌, ◌++◌, if◌then◌else◌, map,
  ◌≡◌, refl, ap, sym, ◌∙◌, ◌↔◌, arith, append-nil,
}
use deska.Base.Text.{Text, codes, text_eq, text_eq_iff}
use deska.Cli.Path.{vector_to_path}

pub data ContextStackItemType : Type 0 where
  item_filter item_object : ContextStackItemType

abbrev pub is_filter : ContextStackItemType → Bool
is_filter item_filter = true
is_filter item_object = false

-- `F` is the type of filters, with its equality.
pub record ContextStackItem (F : Type 0) : Type 0 where
  pub kind : Text
  pub name : Text
  pub filter : Option F
  pub item_type : ContextStackItemType

module _ {F : Type 0} where
  -- the two constructors with arguments
  abbrev pub object_item : Text → Text → ContextStackItem F
  object_item k n = record { kind = k; name = n; filter = none; item_type = item_object }

  abbrev pub filter_item : Text → Option F → ContextStackItem F
  filter_item k f = record { kind = k; name = []; filter = f; item_type = item_filter }

  abbrev has_filter : Option F → Bool
  has_filter none = false
  has_filter (some f) = true

module _ {F : Type 0} (filter_eq : F → F → Bool) where
  abbrev same_filter : Option F → Option F → Bool
  same_filter (some f) (some g) = filter_eq f g
  same_filter _ _ = false

  unfoldable pub item_eq : ContextStackItem F → ContextStackItem F → Bool
  item_eq a b =
      if is_filter a.item_type && is_filter b.item_type
      then (if has_filter a.filter && has_filter b.filter
          then text_eq a.kind b.kind && same_filter a.filter b.filter
          else if not (has_filter a.filter) && not (has_filter b.filter)
          then text_eq a.kind b.kind
          else false)
      else if not (has_filter a.filter) && not (has_filter b.filter)
      then text_eq a.kind b.kind && text_eq a.name b.name
      else false

-- the path behind a name
abbrev behind : List Text → Text
behind [] = []
behind (n ∷ ns) = codes "->" ++ (n ++ behind ns)

vector-behind : (n : Text) (ns : List Text) → vector_to_path (n ∷ ns) ≡ n ++ behind ns
unfolding vector_to_path
vector-behind n [] = sym (append-nil n)
vector-behind n (m ∷ ns) = ap (λ s. n ++ (codes "->" ++ s)) (vector-behind m ns)

module _ {F : Type 0} where
  -- The loop; `none` is the ContextStackConversionError.
  unfoldable pub path_from : Bool → List (ContextStackItem F) → Option Text
  path_from first [] = some []
  path_from first (i ∷ r) =
      let rest = path_from false r in
      let separator = if first then [] else codes "->" in
      if is_filter i.item_type then none else Option.map (λ s. separator ++ (i.name ++ s)) rest

  unfoldable pub context_stack_to_path : List (ContextStackItem F) → Option Text
  unfolding path_from
  context_stack_to_path stack = path_from true stack

  abbrev pub any_filter : List (ContextStackItem F) → Bool
  any_filter [] = false
  any_filter (i ∷ r) = is_filter i.item_type || any_filter r

  abbrev pub names : List (ContextStackItem F) → List Text
  names = map (λ i. i.name)

  later_path :
      (r : List (ContextStackItem F))
      → path_from false r ≡ (if any_filter r then none else some (behind (names r)))
  unfolding path_from
  later_path [] = refl
  later_path (i ∷ r) = ground (arith, later_path r)

  first_path :
      (i : ContextStackItem F) (r : List (ContextStackItem F))
      → path_from false r ≡ (if any_filter r then none else some (behind (names r)))
      → context_stack_to_path (i ∷ r)
        ≡ (if any_filter (i ∷ r) then none else some (i.name ++ behind (names r)))
  unfolding context_stack_to_path path_from
  first_path i r h = ground (arith, h)

  -- The path of a context stack is the path that vectorToPath prints for the names of its items; the
  -- conversion throws exactly when an item is a filter.
  pub context_stack_to_path-eq-vector_to_path :
      (stack : List (ContextStackItem F))
      → context_stack_to_path stack
        ≡ (if any_filter stack then none else some (vector_to_path (names stack)))
  context_stack_to_path-eq-vector_to_path [] = unfold context_stack_to_path vector_to_path in refl
  context_stack_to_path-eq-vector_to_path (i ∷ r) =
      first_path i r (later_path r)
      ∙ ap (λ s. if any_filter (i ∷ r) then none else some s) (sym (vector-behind i.name (names r)))

module _ {F : Type 0} (filter_eq : F → F → Bool)
    (sound : (f g : F) → (filter_eq f g ≡ true) ↔ (f ≡ g)) where
  objects-eq :
      (k n k' n' : Text)
      → (item_eq filter_eq (object_item k n) (object_item k' n') ≡ true) ↔ ((k ≡ k') × (n ≡ n'))
  unfolding item_eq
  objects-eq k n k' n' = ground (arith, text_eq_iff k k', text_eq_iff n n')

  filters-eq :
      (k k' : Text) (f g : Option F)
      → (item_eq filter_eq (filter_item k f) (filter_item k' g) ≡ true) ↔ ((k ≡ k') × (f ≡ g))
  unfolding item_eq
  filters-eq k k' none none = ground (arith, text_eq_iff k k')
  filters-eq k k' none (some g) = ground (arith, text_eq_iff k k')
  filters-eq k k' (some f) none = ground (arith, text_eq_iff k k')
  filters-eq k k' (some f) (some g) = ground (arith, text_eq_iff k k', sound f g)

  object-filter_eq :
      (k k' n : Text) (f : Option F)
      → (item_eq filter_eq (object_item k n) (filter_item k' f) ≡ true)
        ↔ ((k ≡ k') × (n ≡ []) × (f ≡ none))
  unfolding item_eq
  object-filter_eq k k' n none = ground (arith, text_eq_iff k k', text_eq_iff n [])
  object-filter_eq k k' n (some f) = ground (arith, text_eq_iff k k')

  -- Two objects are equal items exactly when their kinds and names are equal, two filters exactly when
  -- their kinds and filters are; and an object is an equal item to a filter exactly when the kinds are
  -- equal, the object has the empty name and the filter matches everything. The equality of filters
  -- decides sameness.
  pub item_eq_iff :
      (k n k' n' : Text) (f g : Option F)
      → ((item_eq filter_eq (object_item k n) (object_item k' n') ≡ true) ↔ ((k ≡ k') × (n ≡ n')))
        × ((item_eq filter_eq (filter_item k f) (filter_item k' g) ≡ true) ↔ ((k ≡ k') × (f ≡ g)))
        × ((item_eq filter_eq (object_item k n) (filter_item k' g) ≡ true)
            ↔ ((k ≡ k') × (n ≡ []) × (g ≡ none)))
  item_eq_iff k n k' n' f g = (objects-eq k n k' n', filters-eq k k' f g, object-filter_eq k k' n g)
