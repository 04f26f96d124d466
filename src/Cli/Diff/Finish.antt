-- ===== src/Cli/Diff/Finish.antt =====
-- The lastModif that the loops leave, and the text behind the last block.
use deska.Base.{
  All, true, Option, none, some, List, [], ◌∷◌, ◌++◌, ◌≡◌, refl, arith, ◌≢◌, inl, inr, ◌||◌, ◌∙◌,
}
use deska.Base.Text.{Text}
use deska.Db.Modification.{ValueOps, ObjectModificationResult}
use deska.Cli.Diff.Attributes.{HasKind, attribute_lines, file_settings}
use deska.Cli.Diff.Ours.{IsStrict, new_settings, our_settings-visits}
use deska.Cli.Diff.Converters.{ObjectDefinition}
use deska.Cli.Diff.Steps.{Turn-cases, step_extern, step_both, step_ours, only_extern, only_ours}
use deska.Cli.Diff.Merge.{
  extern, both, ours, LastModif, turn, write_merged, has_some, write_end, merged_file, end_of_ours,
  end_of_extern,
}

module _ {V : Type 0} (ops : ValueOps V) (deletions : List ObjectDefinition) where
  -- `lastModif` points right before one of the iterators, into a vector that is not empty.
  record IsBefore (es0 os0 es os : List (ObjectModificationResult V)) (l : LastModif V)
      : Type 0 where
    one_vector : l.vector ≢ both
    in_extern : l.vector ≡ extern → (l.behind ≡ es) × (has_some es0 ≡ true)
    in_ours : l.vector ≡ ours → (l.behind ≡ os) × (has_some os0 ≡ true)

  module _ (es0 os0 : List (ObjectModificationResult V)) where
    -- `lastModif` after a round
    abbrev moved_extern :
        ObjectModificationResult V → List (ObjectModificationResult V) → LastModif V
    moved_extern e es = record { vector = extern; modification = e; behind = es }

    abbrev moved_ours : ObjectModificationResult V → List (ObjectModificationResult V) → LastModif V
    moved_ours o os = record { vector = ours; modification = o; behind = os }

    moved_extern-IsBefore :
        (e : ObjectModificationResult V) (es os : List (ObjectModificationResult V))
        → has_some es0 ≡ true
        → IsBefore es0 os0 es os (moved_extern e es)
    moved_extern-IsBefore e es os h = record {
      one_vector = λ x. cc;
      in_extern = λ _. (refl, h);
      in_ours = λ x. cc;
    }

    moved_ours-IsBefore :
        (o : ObjectModificationResult V) (es os : List (ObjectModificationResult V))
        → has_some os0 ≡ true
        → IsBefore es0 os0 es os (moved_ours o os)
    moved_ours-IsBefore o es os h = record {
      one_vector = λ x. cc;
      in_extern = λ x. cc;
      in_ours = λ _. (refl, h);
    }

    abbrev Finishes :
        List (ObjectModificationResult V)
        → List (ObjectModificationResult V)
        → Option (LastModif V)
        → Type 0
    Finishes es os last =
        (l : LastModif V) × ((write_merged ops deletions es os last).1 ≡ some l)
        × IsBefore es0 os0 [] [] l

    finish :
        (es os : List (ObjectModificationResult V)) (l : LastModif V)
        → (has_some es ≡ true → has_some es0 ≡ true)
        → (has_some os ≡ true → has_some os0 ≡ true)
        → IsBefore es0 os0 es os l
        → Finishes es os (some l)
    finish [] [] l he ho h = unfold write_merged in (l, refl, h)
    finish (e ∷ es) [] l he ho h = rw (only_extern ops deletions e es (some l)) (
        finish es [] (moved_extern e es) (λ _. he refl) ho
          (moved_extern-IsBefore e es [] (he refl)))
    finish [] (o ∷ os) l he ho h =
        rw (only_ours ops deletions o os (some l))
          (finish [] os (moved_ours o os) he (λ _. ho refl) (moved_ours-IsBefore o [] os (ho refl)))
    finish (e ∷ es) (o ∷ os) l he ho h = elim (Turn-cases (turn ops e o)) [
      | inl t ↦ rw (step_extern ops deletions e o es os (some l) t) (
          finish es (o ∷ os) (moved_extern e es) (λ _. he refl) ho
            (moved_extern-IsBefore e es (o ∷ os) (he refl)))
      | inr (inl t) ↦ rw (step_both ops deletions e o es os (some l) t) (
          finish es os (moved_extern e es) (λ _. he refl) (λ _. ho refl)
            (moved_extern-IsBefore e es os (he refl)))
      | inr (inr t) ↦ rw (step_ours ops deletions e o es os (some l) t) (
          finish (e ∷ es) os (moved_ours o os) he (λ _. ho refl)
            (moved_ours-IsBefore o (e ∷ es) os (ho refl)))
    ]

  module _ (es os : List (ObjectModificationResult V)) where
    -- the `end` that is due
    end_total :
        (l : LastModif V)
        → IsBefore es os [] [] l
        → (behind : List Text) × (write_end ops deletions es os (some l) ≡ some behind)
    unfolding write_end
    end_total l h = elim (Turn-cases l.vector) [
      | inl t ↦ (end_of_extern ops deletions l.modification, ground (arith, h.in_extern t))
      | inr (inl t) ↦ absurd (h.one_vector t)
      | inr (inr t) ↦ (end_of_ours ops deletions l.modification, ground (arith, h.in_ours t))
    ]

    file_total :
        Finishes es os es os none
        → (file : List Text) × (merged_file ops deletions es os ≡ some file)
    unfolding merged_file
    file_total (l, last, h) =
        let (behind, e) = end_total l h in
        ((write_merged ops deletions es os none).0 ++ behind, rw last (rw e))

  start :
      (es os : List (ObjectModificationResult V))
      → (has_some es || has_some os) ≡ true
      → Finishes es os es os none
  start [] [] h = cc
  start (e ∷ es) [] h = rw (only_extern ops deletions e es none) (
      finish (e ∷ es) [] es [] (moved_extern (e ∷ es) [] e es) (λ _. refl) (λ x. x)
        (moved_extern-IsBefore (e ∷ es) [] e es [] refl))
  start [] (o ∷ os) h = rw (only_ours ops deletions o os none) (
      finish [] (o ∷ os) [] os (moved_ours [] (o ∷ os) o os) (λ x. x) (λ _. refl)
        (moved_ours-IsBefore [] (o ∷ os) o [] os refl))
  start (e ∷ es) (o ∷ os) h = elim (Turn-cases (turn ops e o)) [
    | inl t ↦ rw (step_extern ops deletions e o es os none t) (
        finish (e ∷ es) (o ∷ os) es (o ∷ os) (moved_extern (e ∷ es) (o ∷ os) e es) (λ _. refl)
          (λ _. refl) (moved_extern-IsBefore (e ∷ es) (o ∷ os) e es (o ∷ os) refl))
    | inr (inl t) ↦ rw (step_both ops deletions e o es os none t) (
        finish (e ∷ es) (o ∷ os) es os (moved_extern (e ∷ es) (o ∷ os) e es) (λ _. refl) (λ _. refl)
          (moved_extern-IsBefore (e ∷ es) (o ∷ os) e es os refl))
    | inr (inr t) ↦ rw (step_ours ops deletions e o es os none t) (
        finish (e ∷ es) (o ∷ os) (e ∷ es) os (moved_ours (e ∷ es) (o ∷ os) o os) (λ _. refl)
          (λ _. refl) (moved_ours-IsBefore (e ∷ es) (o ∷ os) o (e ∷ es) os refl))
  ]

  -- For any two lists of modifications, sorted or not, the merge writes a whole file: the lastModif
  -- that the loops leave is set and is the last element of one of the two lists, so the
  -- std::logic_error "Last modification not found" is never thrown.
  pub merged_file_total :
      (es os : List (ObjectModificationResult V))
      → (file : List Text) × (merged_file ops deletions es os ≡ some file)
  merged_file_total [] [] = unfold merged_file in ([], refl)
  merged_file_total (e ∷ es) os = file_total (e ∷ es) os (start (e ∷ es) os refl)
  merged_file_total [] (o ∷ os) = file_total [] (o ∷ os) (start [] (o ∷ os) refl)

  -- If every modification has the name of a kind, which does not begin with a space, and in either list
  -- each modification is less than every later one, the merge writes a file, and the attributes that the
  -- file sets (its indented lines) are exactly those of our modifications that the external list does
  -- not hold as well, each once and in our order.
  pub merged_file_settings :
      (es os : List (ObjectModificationResult V))
      → All HasKind es
      → All HasKind os
      → IsStrict es
      → IsStrict os
      → (file : List Text) × (merged_file ops deletions es os ≡ some file)
        × (attribute_lines file ≡ new_settings ops es os)
  merged_file_settings es os he ho se so =
      let (file, e) = merged_file_total es os in
      (
        file,
        e,
        file_settings ops deletions es os file he ho e ∙ our_settings-visits ops es os se so,
      )
