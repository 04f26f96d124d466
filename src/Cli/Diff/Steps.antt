-- ===== src/Cli/Diff/Steps.antt =====
-- The rounds of the merge as equations.
use deska.Base.{Option, some, List, [], ◌∷◌, ◌++◌, ◌≡◌, refl, ◌⊎◌, inl, inr}
use deska.Base.Text.{Text}
use deska.Db.Modification.{ValueOps, ObjectModificationResult}
use deska.Cli.Diff.Converters.{ObjectDefinition}
use deska.Cli.Diff.Merge.{Turn, extern, both, ours, LastModif, turn, write_one, write_merged}

pub Turn-cases : (t : Turn) → (t ≡ extern) ⊎ ((t ≡ both) ⊎ (t ≡ ours))
Turn-cases extern = inl refl
Turn-cases both = inr (inl refl)
Turn-cases ours = inr (inr refl)

module _ {V : Type 0} where
  abbrev pub moved :
      Turn → ObjectModificationResult V → List (ObjectModificationResult V) → Option (LastModif V)
  moved t m behind = some (record { vector = t; modification = m; behind = behind })

module _ {V : Type 0} (ops : ValueOps V) (deletions : List ObjectDefinition)
    (e o : ObjectModificationResult V) (es os : List (ObjectModificationResult V))
    (last : Option (LastModif V)) where
  -- what a round gives, from the text of the round and what the later rounds give
  abbrev pub after_round :
      List Text → List Text × Option (LastModif V) → List Text × Option (LastModif V)
  after_round text rest = (text ++ rest.0, rest.1)

  pub step_extern :
      turn ops e o ≡ extern
      → write_merged ops deletions (e ∷ es) (o ∷ os) last
        ≡ after_round
            (write_one ops deletions extern e last)
            (write_merged ops deletions es (o ∷ os) (moved extern e es))
  unfolding write_merged
  step_extern h = rw (h, write_merged)

  pub step_both :
      turn ops e o ≡ both
      → write_merged ops deletions (e ∷ es) (o ∷ os) last
        ≡ after_round
            (write_one ops deletions both e last)
            (write_merged ops deletions es os (moved extern e es))
  unfolding write_merged
  step_both h = rw (h, write_merged)

  pub step_ours :
      turn ops e o ≡ ours
      → write_merged ops deletions (e ∷ es) (o ∷ os) last
        ≡ after_round
            (write_one ops deletions ours o last)
            (write_merged ops deletions (e ∷ es) os (moved ours o os))
  unfolding write_merged
  step_ours h = rw (h, write_merged)

module _ {V : Type 0} (ops : ValueOps V) (deletions : List ObjectDefinition)
    (m : ObjectModificationResult V) (ms : List (ObjectModificationResult V))
    (last : Option (LastModif V)) where
  pub only_extern : write_merged ops deletions (m ∷ ms) [] last ≡ (
    write_one ops deletions extern m last
        ++ (write_merged ops deletions ms [] (moved extern m ms)).0,
    (write_merged ops deletions ms [] (moved extern m ms)).1,
  )
  unfolding write_merged
  only_extern = refl

  pub only_ours : write_merged ops deletions [] (m ∷ ms) last ≡ (
    write_one ops deletions ours m last ++ (write_merged ops deletions [] ms (moved ours m ms)).0,
    (write_merged ops deletions [] ms (moved ours m ms)).1,
  )
  unfolding write_merged
  only_ours = refl
