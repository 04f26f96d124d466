-- ===== src/Cli/Diff/Converters.antt =====
-- The six visitors that write a modification for the user. A text that they return is the list of
-- its lines, each ended by one std::endl. The converters whose names end in 2 know the modification
-- that was written before.
use deska.Base.{Bool, false, Option, none, some, List, [], ◌∷◌, ◌++◌, ◌&&◌, ◌||◌, if◌then◌else◌}
use deska.Base.Text.{Text, codes, text_eq}
use deska.Db.Modification.{
  ValueOps, ObjectModificationResult, create_object, delete_object, rename_object, set_attribute,
}
use deska.Cli.Modification.{readable_attr_printer}

-- `ObjectDefinition`: a kind and a name.
pub record ObjectDefinition : Type 0 where
  pub kind : Text
  pub name : Text

unfoldable pub object_eq : ObjectDefinition → ObjectDefinition → Bool
object_eq a b = text_eq a.kind b.kind && text_eq a.name b.name

-- `std::find(…) != m_ourDeletions.end()`
unfoldable pub is_deleted : List ObjectDefinition → Text → Text → Bool
unfolding object_eq
is_deleted [] k n = false
is_deleted (d ∷ ds) k n = object_eq d (record { kind = k; name = n }) || is_deleted ds k n

-- `if (it != m_ourDeletions.end()) ostr << "# ";` before a line.
abbrev pub comment_if : Bool → Text → Text
comment_if hidden line = if hidden then codes "# " ++ line else line

abbrev pub header : Text → Text → Text
header k n = k ++ codes " " ++ n

abbrev pub same_object : Text → Text → Text → Text → Bool
same_object k n k' n' = text_eq k k' && text_eq n n'

module _ {V : Type 0} (ops : ValueOps V) where
  -- the two lines of an attribute that we set
  unfoldable pub our_attribute : Text → Option V → Option V → List Text
  unfolding readable_attr_printer
  our_attribute a (some v) old =
      (codes "#    " ++ a ++ codes " set" ++ readable_attr_printer ops (codes " from") old)
      ∷ (codes "     " ++ a ++ codes " " ++ ops.pretty v)
      ∷ []
  our_attribute a none old =
      (codes "#    " ++ a ++ codes " set" ++ readable_attr_printer ops (codes " from") old)
      ∷ (codes "     no " ++ a)
      ∷ []

  -- the line of an attribute that was set in the newer revision, with the words behind it
  unfoldable pub their_attribute : Text → Option V → Option V → Text → List Text
  unfolding readable_attr_printer
  their_attribute a new old words =
      (codes "#    "
        ++ a
        ++ codes " set"
        ++ readable_attr_printer ops (codes " from") old
        ++ readable_attr_printer ops (codes " to") new
        ++ words)
      ∷ []

module _ {V : Type 0} (ops : ValueOps V) (deletions : List ObjectDefinition) where
  -- `end` of the block of an object
  abbrev pub end_line : Text → Text → Text
  end_line k n = comment_if (is_deleted deletions k n) (codes "end")

  unfoldable pub our_converter : ObjectModificationResult V → List Text
  unfolding our_attribute
  our_converter (create_object k n) = (codes "create " ++ header k n) ∷ []
  our_converter (delete_object k n) = (codes "delete " ++ header k n) ∷ []
  our_converter (rename_object k old new) =
      (codes "rename " ++ header k old ++ codes " " ++ new) ∷ []
  our_converter (set_attribute k n a v w) = header k n ∷ our_attribute ops a v w

  unfoldable pub our_converter2 :
      ObjectModificationResult V → ObjectModificationResult V → List Text
  unfolding our_converter is_deleted
  our_converter2 (set_attribute k n a v w) (set_attribute k' n' a' v' w') =
      if same_object k n k' n'
      then our_attribute ops a v w
      else end_line k' n' ∷ header k n ∷ our_attribute ops a v w
  our_converter2 m last = our_converter m

  abbrev in_newer : Text
  in_newer = codes " in newer revision"

  unfoldable pub extern_converter : ObjectModificationResult V → List Text
  unfolding their_attribute is_deleted
  extern_converter (create_object k n) = (codes "# created " ++ header k n ++ in_newer) ∷ []
  extern_converter (delete_object k n) = (codes "# deleted " ++ header k n ++ in_newer) ∷ []
  extern_converter (rename_object k old new) =
      (codes "# renamed " ++ header k old ++ codes " to " ++ new ++ in_newer) ∷ []
  extern_converter (set_attribute k n a v w) =
      comment_if (is_deleted deletions k n) (header k n) ∷ their_attribute ops a v w in_newer

  unfoldable pub extern_converter2 :
      ObjectModificationResult V → ObjectModificationResult V → List Text
  unfolding extern_converter
  extern_converter2 (set_attribute k n a v w) (set_attribute k' n' a' v' w') =
      if same_object k n k' n'
      then their_attribute ops a v w in_newer
      else end_line k' n'
        ∷ comment_if (is_deleted deletions k n) (header k n)
        ∷ their_attribute ops a v w in_newer
  extern_converter2 m last = extern_converter m

  abbrev in_both : Text
  in_both = codes " in both newer revision and our changeset"

  unfoldable pub both_converter : ObjectModificationResult V → List Text
  unfolding their_attribute
  both_converter (create_object k n) = (codes "# created " ++ header k n ++ in_both) ∷ []
  both_converter (delete_object k n) = (codes "# deleted " ++ header k n ++ in_both) ∷ []
  both_converter (rename_object k old new) =
      (codes "# renamed " ++ header k old ++ codes " to " ++ new ++ in_both) ∷ []
  both_converter (set_attribute k n a v w) = header k n ∷ their_attribute ops a v w in_both

  unfoldable pub both_converter2 :
      ObjectModificationResult V → ObjectModificationResult V → List Text
  unfolding both_converter is_deleted
  both_converter2 (set_attribute k n a v w) (set_attribute k' n' a' v' w') =
      if same_object k n k' n'
      then their_attribute ops a v w in_both
      else end_line k' n' ∷ header k n ∷ their_attribute ops a v w in_both
  both_converter2 m last = both_converter m
