-- ===== src/Cli/Diff/Sides.antt =====
-- What the merge visits of each list, and in which order.
use deska.Base.{Option, some, List, [], ◌∷◌, ◌++◌, ◌∙◌, ◌≡◌, refl, ap, arith, inl, inr}
use deska.Base.Text.{Text}
use deska.Db.Modification.{ValueOps, ObjectModificationResult}
use deska.Cli.Diff.Compare.{result_less-key, sort_key, key_order, Before, NotBefore}
use deska.Cli.Diff.Converters.{ObjectDefinition, our_converter2, extern_converter2, both_converter2}
use deska.Cli.Diff.Merge.{Turn, extern, both, ours, LastModif, turn, write_one, write_merged}
use deska.Cli.Diff.Steps.{
  Turn-cases, moved, step_extern, step_both, step_ours, only_extern, only_ours,
}
use deska.Cli.Diff.Visits.{
  visits, visits-nil, visits-only_extern, visits-only_ours, visits-extern, visits-both, visits-ours,
  their_side, our_side, turn-extern, turn-both, turn-ours,
}

module _ {V : Type 0} where
  -- Every element is not less than the one before it, and the first not less than `b`.
  abbrev pub IsSortedFrom : ObjectModificationResult V → List (ObjectModificationResult V) → Type 0
  IsSortedFrom b [] = Unit
  IsSortedFrom b (m ∷ ms) = NotBefore m b × IsSortedFrom m ms

  abbrev pub IsSorted : List (ObjectModificationResult V) → Type 0
  IsSorted [] = Unit
  IsSorted (m ∷ ms) = IsSortedFrom m ms

  abbrev pub written : List (Turn × ObjectModificationResult V) → List (ObjectModificationResult V)
  written [] = []
  written ((t, m) ∷ r) = m ∷ written r

  flipped_lem : (a b : ObjectModificationResult V) → Before a b → NotBefore b a
  flipped_lem a b h = ground (
    arith,
    result_less-key a b,
    result_less-key b a,
    key_order.cmp_flip (sort_key a) (sort_key b),
  )

module _ {V : Type 0} (ops : ValueOps V) (deletions : List ObjectDefinition) where
  -- The text of a sequence of modifications, each written as the tag beside it says and behind the one
  -- before it.
  abbrev pub text_of : Option (LastModif V) → List (Turn × ObjectModificationResult V) → List Text
  text_of last [] = []
  text_of last ((t, m) ∷ r) = write_one ops deletions t m last ++ text_of (moved t m []) r

  write_one_same :
      (t : Turn) (m : ObjectModificationResult V) (k l : LastModif V)
      → k.modification ≡ l.modification
      → write_one ops deletions t m (some k) ≡ write_one ops deletions t m (some l)
  unfolding write_one
  write_one_same extern m k l h = ap (λ n. extern_converter2 ops deletions m n) h
  write_one_same both m k l h = ap (λ n. both_converter2 ops deletions m n) h
  write_one_same ours m k l h = ap (λ n. our_converter2 ops deletions m n) h

  -- only the modification of a `lastModif` matters
  text_of_same :
      (k l : LastModif V) (r : List (Turn × ObjectModificationResult V))
      → k.modification ≡ l.modification
      → text_of (some k) r ≡ text_of (some l) r
  text_of_same k l [] h = refl
  text_of_same k l ((t, m) ∷ r) h =
      ap (λ x. x ++ text_of (moved t m []) r) (write_one_same t m k l h)

  one_more :
      (t u : Turn) (m : ObjectModificationResult V) (b : List (ObjectModificationResult V))
      (last : Option (LastModif V)) (rest : List Text)
      (r : List (Turn × ObjectModificationResult V))
      → rest ≡ text_of (moved u m b) r
      → write_one ops deletions t m last ++ rest ≡ text_of last ((t, m) ∷ r)
  one_more t u m b last rest r h =
      ap (λ x. write_one ops deletions t m last ++ x)
        (h
          ∙ text_of_same (record { vector = u; modification = m; behind = b })
              (record { vector = t; modification = m; behind = [] }) r refl)

  write_merged_text :
      (es os : List (ObjectModificationResult V)) (last : Option (LastModif V))
      → (write_merged ops deletions es os last).0 ≡ text_of last (visits ops es os)
  write_merged_text [] [] last = rw (visits-nil ops) (unfold write_merged in refl)
  write_merged_text (e ∷ es) [] last =
      let rest = write_merged_text es [] (moved extern e es) in
      rw (only_extern ops deletions e es last, visits-only_extern ops e es)
        (one_more extern extern e es last _ (visits ops es []) rest)
  write_merged_text [] (o ∷ os) last =
      let rest = write_merged_text [] os (moved ours o os) in
      rw (only_ours ops deletions o os last, visits-only_ours ops o os)
        (one_more ours ours o os last _ (visits ops [] os) rest)
  write_merged_text (e ∷ es) (o ∷ os) last = elim (Turn-cases (turn ops e o)) [
    | inl t ↦
        let rest = write_merged_text es (o ∷ os) (moved extern e es) in
        rw (step_extern ops deletions e o es os last t, visits-extern ops e o es os t)
          (one_more extern extern e es last _ (visits ops es (o ∷ os)) rest)
    | inr (inl t) ↦
        let rest = write_merged_text es os (moved extern e es) in
        rw (step_both ops deletions e o es os last t, visits-both ops e o es os t)
          (one_more both extern e es last _ (visits ops es os) rest)
    | inr (inr t) ↦
        let rest = write_merged_text (e ∷ es) os (moved ours o os) in
        rw (step_ours ops deletions e o es os last t, visits-ours ops e o es os t)
          (one_more ours ours o os last _ (visits ops (e ∷ es) os) rest)
  ]

module _ {V : Type 0} (ops : ValueOps V) where
  visits_sides :
      (es os : List (ObjectModificationResult V))
      → (their_side (visits ops es os) ≡ es) × (our_side (visits ops es os) ≡ os)
  visits_sides [] [] = rw (visits-nil ops) (refl, refl)
  visits_sides (e ∷ es) [] =
      let (theirs, mine) = visits_sides es [] in
      rw (visits-only_extern ops e es) (ap (λ l. e ∷ l) theirs, mine)
  visits_sides [] (o ∷ os) =
      let (theirs, mine) = visits_sides [] os in
      rw (visits-only_ours ops o os) (theirs, ap (λ l. o ∷ l) mine)
  visits_sides (e ∷ es) (o ∷ os) = elim (Turn-cases (turn ops e o)) [
    | inl t ↦
        let (theirs, mine) = visits_sides es (o ∷ os) in
        rw (visits-extern ops e o es os t) (ap (λ l. e ∷ l) theirs, mine)
    | inr (inl t) ↦
        let (theirs, mine) = visits_sides es os in
        rw (visits-both ops e o es os t)
          (ap (λ l. e ∷ l) theirs, rw (turn-both ops e o t) (ap (λ l. o ∷ l) mine))
    | inr (inr t) ↦
        let (theirs, mine) = visits_sides (e ∷ es) os in
        rw (visits-ours ops e o es os t) (theirs, ap (λ l. o ∷ l) mine)
  ]

  visits-IsSortedFrom :
      (b : ObjectModificationResult V) (es os : List (ObjectModificationResult V))
      → IsSortedFrom b es
      → IsSortedFrom b os
      → IsSortedFrom b (written (visits ops es os))
  visits-IsSortedFrom b [] [] he ho = rw (visits-nil ops) tt
  visits-IsSortedFrom b (e ∷ es) [] he ho =
      rw (visits-only_extern ops e es) (he.0, visits-IsSortedFrom e es [] he.1 tt)
  visits-IsSortedFrom b [] (o ∷ os) he ho =
      rw (visits-only_ours ops o os) (ho.0, visits-IsSortedFrom o [] os tt ho.1)
  visits-IsSortedFrom b (e ∷ es) (o ∷ os) he ho = elim (Turn-cases (turn ops e o)) [
    | inl t ↦ rw (visits-extern ops e o es os t) (
      he.0,
      visits-IsSortedFrom e es (o ∷ os) he.1 (flipped_lem e o (turn-extern ops e o t), ho.1),
    )
    | inr (inl t) ↦
        rw (visits-both ops e o es os t)
          (he.0, visits-IsSortedFrom e es os he.1 (rw (turn-both ops e o t) ho.1))
    | inr (inr t) ↦
        rw (visits-ours ops e o es os t)
          (ho.0, visits-IsSortedFrom o (e ∷ es) os (turn-ours ops e o t, he.1) ho.1)
  ]

  visits-IsSorted :
      (es os : List (ObjectModificationResult V))
      → IsSorted es
      → IsSorted os
      → IsSorted (written (visits ops es os))
  visits-IsSorted [] [] he ho = rw (visits-nil ops) tt
  visits-IsSorted (e ∷ es) [] he ho =
      rw (visits-only_extern ops e es) (visits-IsSortedFrom e es [] he tt)
  visits-IsSorted [] (o ∷ os) he ho =
      rw (visits-only_ours ops o os) (visits-IsSortedFrom o [] os tt ho)
  visits-IsSorted (e ∷ es) (o ∷ os) he ho = elim (Turn-cases (turn ops e o)) [
    | inl t ↦
        rw (visits-extern ops e o es os t)
          (visits-IsSortedFrom e es (o ∷ os) he (flipped_lem e o (turn-extern ops e o t), ho))
    | inr (inl t) ↦
        rw (visits-both ops e o es os t)
          (visits-IsSortedFrom e es os he (rw (turn-both ops e o t) ho))
    | inr (inr t) ↦
        rw (visits-ours ops e o es os t)
          (visits-IsSortedFrom o (e ∷ es) os (turn-ours ops e o t, he) ho)
  ]

module _ {V : Type 0} (ops : ValueOps V) (deletions : List ObjectDefinition)
    (es os : List (ObjectModificationResult V)) where
  -- A sequence of modifications, each tagged as theirs, as ours or as both, that is the whole of the
  -- two lists: those of theirs and both are the external list, those of ours and both are our list.
  abbrev pub IsMerge : List (Turn × ObjectModificationResult V) → Type 0
  IsMerge vs = (their_side vs ≡ es) × (our_side vs ≡ os)

  -- Whatever the two lists are, the text that the three loops write is that of one sequence of
  -- modifications, each written as its tag says, in which each modification of either list stands exactly
  -- once and in the order of its list, one that is tagged as both counting for the two.
  pub write_merged-IsMerge :
      (last : Option (LastModif V))
      → (vs : List (Turn × ObjectModificationResult V)) × IsMerge vs
        × ((write_merged ops deletions es os last).0 ≡ text_of ops deletions last vs)
  write_merged-IsMerge last =
      (visits ops es os, visits_sides ops es os, write_merged_text ops deletions es os last)

  -- If both lists are sorted by the comparison, as std::sort leaves them, the text that the three loops
  -- write is that of one such sequence that is sorted as well.
  pub write_merged-IsSorted :
      (last : Option (LastModif V))
      → IsSorted es
      → IsSorted os
      → (vs : List (Turn × ObjectModificationResult V)) × IsMerge vs
        × IsSorted (written vs)
        × ((write_merged ops deletions es os last).0 ≡ text_of ops deletions last vs)
  write_merged-IsSorted last he ho = (
    visits ops es os,
    visits_sides ops es os,
    visits-IsSorted ops es os he ho,
    write_merged_text ops deletions es os last,
  )
