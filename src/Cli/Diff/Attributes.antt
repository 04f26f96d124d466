-- ===== src/Cli/Diff/Attributes.antt =====
-- Which attributes the merged file sets when the user leaves it as it is.
use deska.Base.{
  Bool, false, Option, none, some, List, [], ◌∷◌, ◌++◌, ◌≡◌, refl, arith, inl, inr, Option-cases,
  ◌==◌, if◌then◌else◌, All, append-nil,
}
use deska.Base.Text.{Text, codes}
use deska.Db.Modification.{
  ValueOps, ObjectModificationResult, create_object, delete_object, rename_object, set_attribute,
}
use deska.Cli.Diff.Converters.{ObjectDefinition}
use deska.Cli.Diff.Merge.{
  Turn, extern, both, ours, LastModif, turn, write_one, write_merged, write_end, merged_file,
}
use deska.Cli.Diff.Steps.{
  Turn-cases, step_extern, step_both, step_ours, only_extern, only_ours, moved,
}
use deska.Cli.Diff.Visits.{
  visits, visits-nil, visits-only_extern, visits-only_ours, visits-extern, visits-both, visits-ours,
}

-- The line of an attribute in the block of an object is indented.
abbrev pub is_indented : Text → Bool
is_indented [] = false
is_indented (c ∷ s) = c == b' '

abbrev pub attribute_lines : List Text → List Text
attribute_lines [] = []
attribute_lines (l ∷ ls) = if is_indented l then l ∷ attribute_lines ls else attribute_lines ls

attribute_lines-append :
    (xs ys : List Text) → attribute_lines (xs ++ ys) ≡ attribute_lines xs ++ attribute_lines ys
attribute_lines-append [] ys = refl
attribute_lines-append (l ∷ ls) ys = ground (arith, attribute_lines-append ls ys)

-- A kind has a name, which does not begin with a space.
abbrev pub IsNamed : Text → Type 0
IsNamed [] = ⊥
IsNamed (c ∷ s) = (c == b' ') ≡ false

module _ {V : Type 0} where
  abbrev pub kind_of : ObjectModificationResult V → Text
  kind_of (create_object k n) = k
  kind_of (delete_object k n) = k
  kind_of (rename_object k old new) = k
  kind_of (set_attribute k n a v w) = k

  abbrev pub HasKind : ObjectModificationResult V → Type 0
  HasKind m = IsNamed (kind_of m)

module _ {V : Type 0} (ops : ValueOps V) where
  abbrev pub setting : Text → Option V → Text
  setting a (some v) = codes "     " ++ a ++ codes " " ++ ops.pretty v
  setting a none = codes "     no " ++ a

  -- The attribute that a visit sets: those of our own modifications only.
  abbrev pub setting_of : Turn → ObjectModificationResult V → List Text
  setting_of ours (set_attribute k n a v w) = setting a v ∷ []
  setting_of ours m = []
  setting_of extern m = []
  setting_of both m = []

  abbrev pub our_settings : List (Turn × ObjectModificationResult V) → List Text
  our_settings [] = []
  our_settings ((t, m) ∷ r) = setting_of t m ++ our_settings r

module _ {V : Type 0} (ops : ValueOps V) (deletions : List ObjectDefinition) where
  one_setting :
      (t : Turn) (m : ObjectModificationResult V) (last : Option (LastModif V))
      → HasKind m
      → attribute_lines (write_one ops deletions t m last) ≡ setting_of ops t m
  unfolding write_one
  one_setting t (create_object [] n) last h = absurd h
  one_setting t (delete_object [] n) last h = absurd h
  one_setting t (rename_object [] old new) last h = absurd h
  one_setting t (set_attribute [] n a v w) last h = absurd h
  one_setting ours (create_object (c ∷ k) n) none h = ground arith
  one_setting ours (create_object (c ∷ k) n) (some l) h = ground arith
  one_setting ours (delete_object (c ∷ k) n) none h = ground arith
  one_setting ours (delete_object (c ∷ k) n) (some l) h = ground arith
  one_setting ours (rename_object (c ∷ k) old new) none h = ground arith
  one_setting ours (rename_object (c ∷ k) old new) (some l) h = ground arith
  one_setting ours (set_attribute (c ∷ k) n a v w) none h = ground arith
  one_setting ours (set_attribute (c ∷ k) n a v w) (some l) h = ground arith
  one_setting extern (set_attribute (c ∷ k) n a v w) none h = ground arith
  one_setting extern (set_attribute (c ∷ k) n a v w) (some l) h = ground arith
  one_setting both (set_attribute (c ∷ k) n a v w) none h = ground arith
  one_setting both (set_attribute (c ∷ k) n a v w) (some l) h = ground arith
  one_setting extern m none h = ground arith
  one_setting extern m (some l) h = ground arith
  one_setting both m none h = ground arith
  one_setting both m (some l) h = ground arith

  -- a round and what follows it
  round :
      (t : Turn) (m : ObjectModificationResult V) (last : Option (LastModif V)) (rest : List Text)
      (r : List (Turn × ObjectModificationResult V))
      → HasKind m
      → attribute_lines rest ≡ our_settings ops r
      → attribute_lines (write_one ops deletions t m last ++ rest) ≡ our_settings ops ((t, m) ∷ r)
  round t m last rest r h e =
      rw (attribute_lines-append (write_one ops deletions t m last) rest)
        (rw (one_setting t m last h) (rw e))

  merged_settings :
      (es os : List (ObjectModificationResult V)) (last : Option (LastModif V))
      → All HasKind es
      → All HasKind os
      → attribute_lines (write_merged ops deletions es os last).0
        ≡ our_settings ops (visits ops es os)
  merged_settings [] [] last he ho = rw (visits-nil ops) (unfold write_merged in refl)
  merged_settings (e ∷ es) [] last he ho =
      let rest = merged_settings es [] (moved extern e es) he.1 tt in
      rw (only_extern ops deletions e es last, visits-only_extern ops e es)
        (round extern e last _ (visits ops es []) he.0 rest)
  merged_settings [] (o ∷ os) last he ho =
      let rest = merged_settings [] os (moved ours o os) tt ho.1 in
      rw (only_ours ops deletions o os last, visits-only_ours ops o os)
        (round ours o last _ (visits ops [] os) ho.0 rest)
  merged_settings (e ∷ es) (o ∷ os) last he ho = elim (Turn-cases (turn ops e o)) [
    | inl t ↦
        let rest = merged_settings es (o ∷ os) (moved extern e es) he.1 ho in
        rw (step_extern ops deletions e o es os last t, visits-extern ops e o es os t)
          (round extern e last _ (visits ops es (o ∷ os)) he.0 rest)
    | inr (inl t) ↦
        let rest = merged_settings es os (moved extern e es) he.1 ho.1 in
        rw (step_both ops deletions e o es os last t, visits-both ops e o es os t)
          (round both e last _ (visits ops es os) he.0 rest)
    | inr (inr t) ↦
        let rest = merged_settings (e ∷ es) os (moved ours o os) he ho.1 in
        rw (step_ours ops deletions e o es os last t, visits-ours ops e o es os t)
          (round ours o last _ (visits ops (e ∷ es) os) ho.0 rest)
  ]

  -- the last line is no attribute
  end_settings :
      (es os : List (ObjectModificationResult V)) (last : Option (LastModif V)) (behind : List Text)
      → write_end ops deletions es os last ≡ some behind
      → attribute_lines behind ≡ []
  unfolding write_end
  end_settings es os last behind h = ground arith

  -- the file is what the loops write, and the end
  file_parts :
      (es os : List (ObjectModificationResult V)) (file : List Text)
      → merged_file ops deletions es os ≡ some file
      → (behind : List Text) × (write_end ops deletions es os
            (write_merged ops deletions es os none).1
          ≡ some behind)
        × (file ≡ (write_merged ops deletions es os none).0 ++ behind)
  unfolding merged_file
  file_parts es os file h =
      elim (Option-cases
        (write_end ops deletions es os (write_merged ops deletions es os none).1)) [
          | inl lost ↦ ground arith
          | inr (behind, e) ↦ (behind, e, ground arith)
        ]

  pub file_settings :
      (es os : List (ObjectModificationResult V)) (file : List Text)
      → All HasKind es
      → All HasKind os
      → merged_file ops deletions es os ≡ some file
      → attribute_lines file ≡ our_settings ops (visits ops es os)
  file_settings es os file he ho h =
      let (behind, e, whole) = file_parts es os file h in
      let text = (write_merged ops deletions es os none).0 in
      rw (whole, attribute_lines-append text behind, end_settings es os _ behind e, append-nil)
        (merged_settings es os none he ho)
