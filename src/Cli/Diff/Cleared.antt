-- ===== src/Cli/Diff/Cleared.antt =====
-- What `clearChildDeletions` removes.
use deska.Base.{
  ℕ, zero, suc, ◌<◌, Bool, true, false, Option, none, some, List, [], ◌∷◌, length, All, ◌≡◌, refl,
  sym, ◌∙◌, ap, arith,
}
use deska.Base.Text.{Text}
use deska.Db.Modification.{ObjectModificationResult}
use deska.Cli.Diff.Children.{
  modification_delete_nested, erase_nested, clear_rounds, clear_child_deletions,
}

module _ {V : Type 0} (embedded_into : Text → Text) where
  -- The test of `a` against `b` does not throw.
  abbrev pub Answers : ObjectModificationResult V → ObjectModificationResult V → Type 0
  Answers a b = (c : Bool) × (modification_delete_nested embedded_into a b ≡ some c)

  abbrev pub is_nested : ObjectModificationResult V → ObjectModificationResult V → Bool
  is_nested a b = elim (modification_delete_nested embedded_into a b) [ none ↦ false | some c ↦ c ]

  abbrev pub without_children :
      ObjectModificationResult V
      → List (ObjectModificationResult V)
      → List (ObjectModificationResult V)
  without_children a [] = []
  without_children a (b ∷ bs) = elim (is_nested a b) [
    | true ↦ without_children a bs
    | false ↦ b ∷ without_children a bs
  ]

  -- What the inner loop leaves is shorter, and has the same modifications that are not children.
  abbrev Erases :
      ObjectModificationResult V
      → List (ObjectModificationResult V)
      → Option (Option (List (ObjectModificationResult V)))
      → Type 0
  Erases a bs none = ⊥
  Erases a bs (some none) = without_children a bs ≡ bs
  Erases a bs (some (some l)) =
      (suc (length l) ≡ length bs)
      × (without_children a l ≡ without_children a bs)
      × All (Answers a) l

  without_child :
      (a b : ObjectModificationResult V) (bs : List (ObjectModificationResult V))
      → modification_delete_nested embedded_into a b ≡ some true
      → without_children a (b ∷ bs) ≡ without_children a bs
  without_child a b bs e = rw (e, without_children) refl

  with_other :
      (a b : ObjectModificationResult V) (bs : List (ObjectModificationResult V))
      → modification_delete_nested embedded_into a b ≡ some false
      → without_children a (b ∷ bs) ≡ b ∷ without_children a bs
  with_other a b bs e = rw (e, without_children) refl

  erase_step :
      (a b : ObjectModificationResult V) (bs : List (ObjectModificationResult V)) (c : Bool)
      → modification_delete_nested embedded_into a b ≡ some c
      → All (Answers a) bs
      → (r : Option (Option (List (ObjectModificationResult V))))
      → erase_nested embedded_into a bs ≡ r
      → Erases a bs r
      → Erases a (b ∷ bs) (erase_nested embedded_into a (b ∷ bs))
  unfolding erase_nested
  erase_step a b bs true e h r er ih =
      rw (e, erase_nested) ((refl, sym (without_child a b bs e), h))
  erase_step a b bs false e h none er ih = absurd ih
  erase_step a b bs false e h (some none) er ih =
      rw (e, erase_nested) (rw (er, erase_nested) (with_other a b bs e ∙ ap (λ l. b ∷ l) ih))
  erase_step a b bs false e h (some (some l)) er ih =
      rw (e, erase_nested)
        (rw (er, erase_nested)
          (
            ap suc ih.0,
            with_other a b l e ∙ ap (λ x. b ∷ x) ih.1 ∙ sym (with_other a b bs e),
            ((false, e), ih.2),
          ))

  erase_lem :
      (a : ObjectModificationResult V) (bs : List (ObjectModificationResult V))
      → All (Answers a) bs
      → Erases a bs (erase_nested embedded_into a bs)
  erase_lem a [] h = unfold erase_nested in refl
  erase_lem a (b ∷ bs) h =
      erase_step a b bs h.0.0 h.0.1 h.1 (erase_nested embedded_into a bs) refl (erase_lem a bs h.1)

  module _ (m : ObjectModificationResult V) where
    abbrev Clears : ℕ → Type 0
    Clears fuel =
        (ms : List (ObjectModificationResult V))
        → length ms < fuel
        → All (Answers m) ms
        → clear_rounds embedded_into fuel (m ∷ ms) ≡ some (m ∷ without_children m ms)

    clear_step :
        (fuel : ℕ) (ms : List (ObjectModificationResult V))
        → length ms < suc fuel
        → modification_delete_nested embedded_into m m ≡ some false
        → (r : Option (Option (List (ObjectModificationResult V))))
        → erase_nested embedded_into m ms ≡ r
        → Erases m ms r
        → Clears fuel
        → clear_rounds embedded_into (suc fuel) (m ∷ ms) ≡ some (m ∷ without_children m ms)
    unfolding clear_rounds erase_nested
    clear_step fuel ms l self none er h rest = absurd h
    clear_step fuel ms l self (some none) er h rest =
        rw (self, clear_rounds, erase_nested) (rw (er, clear_rounds, erase_nested) (rw h refl))
    clear_step fuel ms l self (some (some left)) er h rest =
        rw (self, clear_rounds, erase_nested)
          (rw (er, clear_rounds, erase_nested)
            (rest left (omega (arith, h.0)) h.2 ∙ ap (λ l. some (m ∷ l)) h.1))

    clear_lem : modification_delete_nested embedded_into m m ≡ some false → (fuel : ℕ) → Clears fuel
    clear_lem self zero ms l h = absurd (omega arith)
    clear_lem self (suc fuel) ms l h =
        clear_step fuel ms l self (erase_nested embedded_into m ms) refl (erase_lem m ms h)
          (clear_lem self fuel)

    -- If the first modification does not delete a child of its own object, and no test of another
    -- modification against it throws, then clearChildDeletions stops, and it leaves the first
    -- modification and those of the others that do not delete an object embedded directly in the one
    -- that the first modification deletes; so it keeps the deletions of the children of every other
    -- deleted object.
    pub clear_child_deletions-first :
        (ms : List (ObjectModificationResult V))
        → modification_delete_nested embedded_into m m ≡ some false
        → All (Answers m) ms
        → clear_child_deletions embedded_into (m ∷ ms) ≡ some (m ∷ without_children m ms)
    unfolding clear_child_deletions
    clear_child_deletions-first ms self h =
        clear_lem self (suc (suc (length ms))) ms (omega arith) h
