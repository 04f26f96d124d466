-- ===== src/Cli/Diff/Children.antt =====
-- The deletions of nested objects that are left out before the merge: `ModificationDeleteNested`,
-- `clearChildDeletions` and the extraction of our deletions.
use deska.Base.{
  but_last, ℕ, zero, suc, Bool, true, false, not, ◌&&◌, Option, none, some, List, [], ◌∷◌,
  if◌then◌else◌, length,
}
use deska.Base.Text.{Text, text_eq, is_empty}
use deska.Db.Modification.{ObjectModificationResult, delete_object}
use deska.Cli.Diff.Converters.{ObjectDefinition}
use deska.Cli.Path.{path_to_vector, vector_to_path}

abbrev pub has_two : List Text → Bool
has_two (x ∷ y ∷ r) = true
has_two _ = false

-- `embedded_into` is `DbInteraction::embeddedIntoKind`, which gives the empty name for a kind that is
-- not embedded.
module _ {V : Type 0} (embedded_into : Text → Text) where
  -- `none` is the ContextStackConversionError, or the BOOST_ASSERT on the length of the path.
  unfoldable pub modification_delete_nested :
      ObjectModificationResult V → ObjectModificationResult V → Option Bool
  unfolding path_to_vector vector_to_path
  modification_delete_nested (delete_object k n) (delete_object k' n') =
      let parent = embedded_into k' in
      if not (is_empty parent) && text_eq parent k
      then elim (path_to_vector n') [
        | none ↦ none
        | some path ↦
            if has_two path then some (text_eq (vector_to_path (but_last path)) n) else none
      ]
      else some false
  modification_delete_nested a b = some false

  -- What the inner loop finds: whether it reached the end, or the list without the element on which
  -- it stopped.
  unfoldable pub erase_nested :
      ObjectModificationResult V
      → List (ObjectModificationResult V)
      → Option (Option (List (ObjectModificationResult V)))
  unfolding modification_delete_nested
  erase_nested it [] = some none
  erase_nested it (itn ∷ rest) =
      let later = erase_nested it rest in
      elim (modification_delete_nested it itn) [
        | none ↦ none
        | some true ↦ some (some rest)
        | some false ↦ elim later [
          | none ↦ none
          | some none ↦ some none
          | some (some erased) ↦ some (some (itn ∷ erased))
        ]
      ]

  -- The outer loop starts the inner one at the first modification, and `itn`, which is set before it,
  -- stays at the end from then on. Each round of the endless loop but the last erases one element.
  unfoldable pub clear_rounds :
      ℕ → List (ObjectModificationResult V) → Option (List (ObjectModificationResult V))
  unfolding erase_nested
  clear_rounds zero ms = none
  clear_rounds (suc fuel) [] = some []
  clear_rounds (suc fuel) (m ∷ ms) = elim (erase_nested m (m ∷ ms)) [
    | none ↦ none
    | some none ↦ some (m ∷ ms)
    | some (some erased) ↦ clear_rounds fuel erased
  ]

  unfoldable pub clear_child_deletions :
      List (ObjectModificationResult V) → Option (List (ObjectModificationResult V))
  unfolding clear_rounds
  clear_child_deletions ms = clear_rounds (suc (length ms)) ms

module _ {V : Type 0} where
  unfoldable pub modification_delete_extractor :
      ObjectModificationResult V → Option ObjectDefinition
  modification_delete_extractor (delete_object k n) = some (record { kind = k; name = n })
  modification_delete_extractor m = none

  -- `ourDeletions`
  unfoldable pub our_deletions : List (ObjectModificationResult V) → List ObjectDefinition
  unfolding modification_delete_extractor
  our_deletions [] = []
  our_deletions (m ∷ ms) = elim (modification_delete_extractor m) [
    | none ↦ our_deletions ms
    | some d ↦ d ∷ our_deletions ms
  ]
