-- ===== src/Cli/Diff/Visits.antt =====
-- The modifications in the order in which the merge writes them, and what each test of the first loop
-- tells of the two heads.
use deska.Base.{true, Option, none, some, List, [], ◌∷◌, ◌≡◌, refl, ap, arith}
use deska.Base.Text.{text_eq_iff}
use deska.Db.Modification.{
  ValueOps, ObjectModificationResult, create_object, delete_object, rename_object, set_attribute,
  modification_eq, value_eq,
}
use deska.Cli.Diff.Compare.{result_less, result_less-key, NotBefore}
use deska.Cli.Diff.Merge.{Turn, extern, both, ours, turn}

module _ {V : Type 0} (ops : ValueOps V) where
  -- The rounds of the three loops.
  unfoldable pub visits :
      List (ObjectModificationResult V)
      → List (ObjectModificationResult V)
      → List (Turn × ObjectModificationResult V)
  visits [] [] = []
  visits (e ∷ es) [] = (extern, e) ∷ visits es []
  visits [] (o ∷ os) = (ours, o) ∷ visits [] os
  visits (e ∷ es) (o ∷ os) = elim (turn ops e o) [
    | extern ↦ (extern, e) ∷ visits es (o ∷ os)
    | both ↦ (both, e) ∷ visits es os
    | ours ↦ (ours, o) ∷ visits (e ∷ es) os
  ]

  pub visits-nil : visits [] [] ≡ []
  unfolding visits
  visits-nil = refl

  pub visits-only_extern :
      (e : ObjectModificationResult V) (es : List (ObjectModificationResult V))
      → visits (e ∷ es) [] ≡ (extern, e) ∷ visits es []
  unfolding visits
  visits-only_extern e es = refl

  pub visits-only_ours :
      (o : ObjectModificationResult V) (os : List (ObjectModificationResult V))
      → visits [] (o ∷ os) ≡ (ours, o) ∷ visits [] os
  unfolding visits
  visits-only_ours o os = refl

  pub visits-extern :
      (e o : ObjectModificationResult V) (es os : List (ObjectModificationResult V))
      → turn ops e o ≡ extern
      → visits (e ∷ es) (o ∷ os) ≡ (extern, e) ∷ visits es (o ∷ os)
  unfolding visits
  visits-extern e o es os h = rw (h, visits)

  pub visits-both :
      (e o : ObjectModificationResult V) (es os : List (ObjectModificationResult V))
      → turn ops e o ≡ both
      → visits (e ∷ es) (o ∷ os) ≡ (both, e) ∷ visits es os
  unfolding visits
  visits-both e o es os h = rw (h, visits)

  pub visits-ours :
      (e o : ObjectModificationResult V) (es os : List (ObjectModificationResult V))
      → turn ops e o ≡ ours
      → visits (e ∷ es) (o ∷ os) ≡ (ours, o) ∷ visits (e ∷ es) os
  unfolding visits
  visits-ours e o es os h = rw (h, visits)

module _ {V : Type 0} where
  -- The modifications of a sequence of visits that are written as theirs, and as ours.
  abbrev pub their_side :
      List (Turn × ObjectModificationResult V) → List (ObjectModificationResult V)
  their_side [] = []
  their_side ((extern, m) ∷ r) = m ∷ their_side r
  their_side ((both, m) ∷ r) = m ∷ their_side r
  their_side ((ours, m) ∷ r) = their_side r

  abbrev pub our_side : List (Turn × ObjectModificationResult V) → List (ObjectModificationResult V)
  our_side [] = []
  our_side ((extern, m) ∷ r) = our_side r
  our_side ((both, m) ∷ r) = m ∷ our_side r
  our_side ((ours, m) ∷ r) = m ∷ our_side r

module _ {V : Type 0} (ops : ValueOps V) where
  value_eq-eq : (v w : Option V) → value_eq ops v w ≡ true → v ≡ w
  unfolding value_eq
  value_eq-eq none none h = refl
  value_eq-eq none (some w) h = cc
  value_eq-eq (some v) none h = cc
  value_eq-eq (some v) (some w) h = ap some ((ops.beq_iff v w).0 h)

  pub modification_eq-eq :
      (a b : ObjectModificationResult V) → modification_eq ops a b ≡ true → a ≡ b
  unfolding modification_eq
  modification_eq-eq (create_object k n) (create_object k' n') h =
      ground (arith, text_eq_iff k k', text_eq_iff n n')
  modification_eq-eq (delete_object k n) (delete_object k' n') h =
      ground (arith, text_eq_iff k k', text_eq_iff n n')
  modification_eq-eq (rename_object k n a) (rename_object k' n' a') h =
      ground (arith, text_eq_iff k k', text_eq_iff n n', text_eq_iff a a')
  modification_eq-eq (set_attribute k n a v w) (set_attribute k' n' a' v' w') h = ground (
    arith,
    text_eq_iff k k',
    text_eq_iff n n',
    text_eq_iff a a',
    value_eq-eq v v',
    value_eq-eq w w',
  )
  modification_eq-eq (create_object k n) _ h = cc
  modification_eq-eq (delete_object k n) _ h = cc
  modification_eq-eq (rename_object k n a) _ h = cc
  modification_eq-eq (set_attribute k n a v w) _ h = cc

  -- What each choice of the loop tells of the two heads.
  module _ (e o : ObjectModificationResult V) where
    pub turn-extern : turn ops e o ≡ extern → result_less e o ≡ some true
    unfolding turn
    turn-extern h = ground (arith, result_less-key e o)

    pub turn-both : turn ops e o ≡ both → e ≡ o
    unfolding turn
    turn-both h = ground (arith, result_less-key e o, modification_eq-eq e o)

    pub turn-ours : turn ops e o ≡ ours → NotBefore e o
    unfolding turn
    turn-ours h = ground (arith, result_less-key e o)
