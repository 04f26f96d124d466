-- ===== src/Cli/Diff/Ours.antt =====
-- Our own modifications among those that the merge writes, against the two lists.
use deska.Base.{
  Bool, true, false, ◌||◌, List, [], ◌∷◌, ◌++◌, All, if◌then◌else◌, ◌≡◌, refl, sym, ap, ◌∙◌, subst,
  arith, inl, inr,
}
use deska.Base.Text.{Text}
use deska.Db.Modification.{ValueOps, ObjectModificationResult, modification_eq}
use deska.Cli.Diff.Compare.{
  result_less-key, result_less_trans, Before, NotBefore, sort_key, key_order,
}
use deska.Cli.Diff.Merge.{both, ours, turn}
use deska.Cli.Diff.Steps.{Turn-cases}
use deska.Cli.Diff.Visits.{
  visits, visits-nil, visits-only_extern, visits-only_ours, visits-extern, visits-both, visits-ours,
  modification_eq-eq, turn-extern, turn-both, turn-ours,
}
use deska.Cli.Diff.Attributes.{setting_of, our_settings}

module _ {V : Type 0} where
  -- Each modification is less than every later one: the list is sorted, and no two of it are alike in
  -- the type, the kind and the names.
  abbrev pub IsStrict : List (ObjectModificationResult V) → Type 0
  IsStrict [] = Unit {0}
  IsStrict (m ∷ ms) = All (Before m) ms × IsStrict ms

  irreflexive : (a : ObjectModificationResult V) → NotBefore a a
  irreflexive a = result_less-key a a ∙ rw (key_order.cmp_refl (sort_key a)) refl

  both_ways : (a b : ObjectModificationResult V) → Before a b → NotBefore a b → ⊥
  both_ways a b h k = let q = sym h ∙ k in cc

  All-Before :
      (a b : ObjectModificationResult V) (ms : List (ObjectModificationResult V))
      → Before a b
      → All (Before b) ms
      → All (Before a) ms
  All-Before a b [] h k = tt
  All-Before a b (m ∷ ms) h (k, ks) = (result_less_trans a b m h k, All-Before a b ms h ks)

module _ {V : Type 0} (ops : ValueOps V) where
  -- the list holds the same modification
  abbrev pub holds : ObjectModificationResult V → List (ObjectModificationResult V) → Bool
  holds o [] = false
  holds o (e ∷ es) = modification_eq ops e o || holds o es

  -- The settings of the modifications of the second list that the first does not hold.
  abbrev pub new_settings :
      List (ObjectModificationResult V) → List (ObjectModificationResult V) → List Text
  new_settings es [] = []
  new_settings es (o ∷ os) =
      let rest = new_settings es os in if holds o es then rest else setting_of ops ours o ++ rest

  other : (a b : ObjectModificationResult V) → (a ≡ b → ⊥) → modification_eq ops a b ≡ false
  other a b h = by_test (modification_eq ops a b) refl
    where
      by_test : (c : Bool) → modification_eq ops a b ≡ c → c ≡ false
      by_test true q = absurd (h (modification_eq-eq ops a b q))
      by_test false q = refl

  Before-other : (a b : ObjectModificationResult V) → Before a b → modification_eq ops a b ≡ false
  Before-other a b h = other a b (λ e. both_ways a a (subst (Before a) (sym e) h) (irreflexive a))

  turn-both_eq :
      (e o : ObjectModificationResult V) → turn ops e o ≡ both → modification_eq ops e o ≡ true
  unfolding turn
  turn-both_eq e o h = ground (arith, result_less-key e o)

  turn-ours_eq :
      (e o : ObjectModificationResult V) → turn ops e o ≡ ours → modification_eq ops e o ≡ false
  unfolding turn
  turn-ours_eq e o h = ground (arith, result_less-key e o)

  drop_first :
      (e : ObjectModificationResult V) (es os : List (ObjectModificationResult V))
      → All (Before e) os
      → new_settings (e ∷ es) os ≡ new_settings es os
  drop_first e es [] h = refl
  drop_first e es (o ∷ os) (h, hs) = rw (Before-other e o h, drop_first e es os hs) refl

  later_lacks :
      (e o : ObjectModificationResult V) (es : List (ObjectModificationResult V))
      → NotBefore e o
      → All (Before e) es
      → holds o es ≡ false
  later_lacks e o [] n h = refl
  later_lacks e o (d ∷ es) n (h, hs) =
      rw (other d o (λ q. both_ways e o (subst (Before e) q h) n)) (later_lacks e o es n hs)

  pub our_settings-visits :
      (es os : List (ObjectModificationResult V))
      → IsStrict es
      → IsStrict os
      → our_settings ops (visits ops es os) ≡ new_settings es os
  our_settings-visits [] [] he ho = rw (visits-nil ops) refl
  our_settings-visits (e ∷ es) [] (h, hs) ho =
      rw (visits-only_extern ops e es) (our_settings-visits es [] hs tt)
  our_settings-visits [] (o ∷ os) he (k, ks) =
      rw (visits-only_ours ops o os)
        (ap (λ l. setting_of ops ours o ++ l) (our_settings-visits [] os tt ks))
  our_settings-visits (e ∷ es) (o ∷ os) (h, hs) (k, ks) = elim (Turn-cases (turn ops e o)) [
    | inl t ↦
        let less = turn-extern ops e o t in
        rw (visits-extern ops e o es os t) (
          our_settings-visits es (o ∷ os) hs (k, ks)
          ∙ sym (drop_first e es (o ∷ os) (less, All-Before e o os less k)))
    | inr (inl t) ↦
        rw (visits-both ops e o es os t, turn-both_eq e o t)
          (our_settings-visits es os hs ks
            ∙ sym
                (drop_first e es os (subst (λ m. All (Before m) os) (sym (turn-both ops e o t)) k)))
    | inr (inr t) ↦
        rw
          (
            visits-ours ops e o es os t,
            turn-ours_eq e o t,
            later_lacks e o es (turn-ours ops e o t) h,
          )
          (ap (λ l. setting_of ops ours o ++ l) (our_settings-visits (e ∷ es) os (h, hs) ks))
  ]
