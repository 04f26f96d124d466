-- ===== src/Cli/Diff/Merge.antt =====
-- The merge of the two sorted lists into the file that the user edits (`Rebase::operator()`).
use mathlib.Core.Option
use deska.Base.{
  Bool, true, false, not, ◌&&◌, ◌||◌, Option, none, some, List, [], ◌∷◌, ◌++◌, if◌then◌else◌,
}
use deska.Base.Text.{Text, codes}
use deska.Db.Modification.{ValueOps, ObjectModificationResult, set_attribute, modification_eq}
use deska.Cli.Diff.Compare.{result_less}
use deska.Cli.Diff.Converters.{
  ObjectDefinition, our_converter, our_converter2, extern_converter, extern_converter2,
  both_converter, both_converter2, is_deleted, comment_if,
}

-- Which iterators a round of the first loop moves.
pub data Turn : Type 0 where
  extern both ours : Turn

-- `lastModif`: an iterator, given by the vector that it points into, the modification there, and
-- what stands behind it.
pub record LastModif (V : Type 0) : Type 0 where
  pub vector : Turn
  pub modification : ObjectModificationResult V
  pub behind : List (ObjectModificationResult V)

-- The comparison as the test of the loops and of std::sort; its exception is read as false.
abbrev pub or_false : Option Bool → Bool
or_false none = false
or_false (some b) = b

module _ {V : Type 0} where
  -- `!v.empty()`
  abbrev pub has_some : List (ObjectModificationResult V) → Bool
  has_some [] = false
  has_some (m ∷ ms) = true

  -- `lastModif == v.end() - 1` for the vector `v` that is meant.
  abbrev is_last : Turn → LastModif V → Bool
  is_last both last = false
  is_last extern last = elim last.vector [ extern ↦ not (has_some last.behind) | _ ↦ false ]
  is_last ours last = elim last.vector [ ours ↦ not (has_some last.behind) | _ ↦ false ]

module _ {V : Type 0} (ops : ValueOps V) where
  unfoldable pub turn : ObjectModificationResult V → ObjectModificationResult V → Turn
  unfolding result_less modification_eq
  turn e o =
      if or_false (result_less e o) then extern else if modification_eq ops e o then both else ours

module _ {V : Type 0} (ops : ValueOps V) (deletions : List ObjectDefinition) where
  -- One modification. Both iterators stand at the beginning exactly as long as nothing was written,
  -- so the test on them is whether there is a `lastModif`.
  unfoldable pub write_one : Turn → ObjectModificationResult V → Option (LastModif V) → List Text
  unfolding our_converter our_converter2 extern_converter extern_converter2 both_converter
      both_converter2
  write_one extern m none = extern_converter ops deletions m
  write_one extern m (some last) = extern_converter2 ops deletions m last.modification
  write_one both m none = both_converter ops deletions m
  write_one both m (some last) = both_converter2 ops deletions m last.modification
  write_one ours m none = our_converter ops deletions m
  write_one ours m (some last) = our_converter2 ops deletions m last.modification

  -- The three loops, with the text that they write and the last `lastModif`.
  unfoldable pub write_merged :
      List (ObjectModificationResult V)
      → List (ObjectModificationResult V)
      → Option (LastModif V)
      → List Text × Option (LastModif V)
  unfolding turn write_one
  write_merged [] [] last = ([], last)
  write_merged (e ∷ es) [] last =
      let here = some (record { vector = extern; modification = e; behind = es }) in
      let rest = write_merged es [] here in (write_one extern e last ++ rest.0, rest.1)
  write_merged [] (o ∷ os) last =
      let here = some (record { vector = ours; modification = o; behind = os }) in
      let rest = write_merged [] os here in (write_one ours o last ++ rest.0, rest.1)
  write_merged (e ∷ es) (o ∷ os) last = elim (turn ops e o) [
    | extern ↦
        let here = some (record { vector = extern; modification = e; behind = es }) in
        let rest = write_merged es (o ∷ os) here in (write_one extern e last ++ rest.0, rest.1)
    | both ↦
        let here = some (record { vector = extern; modification = e; behind = es }) in
        let rest = write_merged es os here in (write_one both e last ++ rest.0, rest.1)
    | ours ↦
        let here = some (record { vector = ours; modification = o; behind = os }) in
        let rest = write_merged (e ∷ es) os here in (write_one ours o last ++ rest.0, rest.1)
  ]

  abbrev pub end_of_ours : ObjectModificationResult V → List Text
  end_of_ours (set_attribute k n a v w) = codes "end" ∷ []
  end_of_ours m = []

  abbrev pub end_of_extern : ObjectModificationResult V → List Text
  end_of_extern (set_attribute k n a v w) = comment_if (is_deleted deletions k n) (codes "end") ∷ []
  end_of_extern m = []

  -- The `end` behind the last block; `none` is the std::logic_error, or the use of a `lastModif`
  -- that was never set.
  unfoldable pub write_end :
      List (ObjectModificationResult V)
      → List (ObjectModificationResult V)
      → Option (LastModif V)
      → Option (List Text)
  unfolding is_deleted
  write_end es os last =
      if has_some os || has_some es
      then elim last [
        | none ↦ none
        | some l ↦
            if has_some os && is_last ours l
            then some (end_of_ours l.modification)
            else if has_some es && is_last extern l
            then some (end_of_extern l.modification)
            else none
      ]
      else some []

  unfoldable pub merged_file :
      List (ObjectModificationResult V) → List (ObjectModificationResult V) → Option (List Text)
  unfolding write_merged write_end
  merged_file es os =
      let text = write_merged es os none in
      Option.map (λ behind. text.0 ++ behind) (write_end es os text.1)
