-- ===== src/Db/Caching/Chain.antt =====
-- What stands in the queue: commands on one object, or on objects of one kind.
use deska.Base.{
  Bool, true, false, List, [], ◌∷◌, ◌++◌, ◌≡◌, refl, sym, ap, ◌∙◌, arith, ◌&&◌, ◌⊎◌, inl, inr,
}
use deska.Base.Text.{Text, text_eq, text_eq_iff}
use deska.Db.Command.{
  ObjectModificationCommand, create_object, delete_object, rename_object, set_attribute,
  set_attribute_insert, set_attribute_remove, extract_kind, extract_id,
}
use deska.Db.Caching.State.{
  CommandBatchingMode, send_immediately, cache_same_object, cache_same_kind,
  is_previous_same_object_as, is_previous_same_kind_as,
}

abbrev pub is_immediate : CommandBatchingMode → Bool
is_immediate send_immediately = true
is_immediate _ = false

module _ {V : Type 0} where
  -- The object that a command is addressed to: a rename goes to the old name.
  abbrev pub target : ObjectModificationCommand V → Text × Text
  target (create_object k n) = (k, n)
  target (delete_object k n) = (k, n)
  target (rename_object k old new) = (k, old)
  target (set_attribute k n a v) = (k, n)
  target (set_attribute_insert k n a i) = (k, n)
  target (set_attribute_remove k n a i) = (k, n)

  -- Each command goes to the object that the command before it leaves behind.
  abbrev pub IsChain : List (ObjectModificationCommand V) → Type 0
  IsChain [] = Unit
  IsChain (c ∷ []) = Unit
  IsChain (c ∷ d ∷ r) = (target d ≡ extract_id c) × IsChain (d ∷ r)

  abbrev pub IsOneKind : List (ObjectModificationCommand V) → Type 0
  IsOneKind [] = Unit
  IsOneKind (c ∷ []) = Unit
  IsOneKind (c ∷ d ∷ r) = ((target d).0 ≡ (target c).0) × IsOneKind (d ∷ r)

  kind-target : (c : ObjectModificationCommand V) → extract_kind c ≡ (target c).0
  unfolding extract_kind
  kind-target (create_object k n) = refl
  kind-target _ = refl

  id-target : (c : ObjectModificationCommand V) → (extract_id c).0 ≡ (target c).0
  unfolding extract_id
  id-target (create_object k n) = refl
  id-target _ = refl

  pub chain-IsOneKind : (cs : List (ObjectModificationCommand V)) → IsChain cs → IsOneKind cs
  chain-IsOneKind [] h = tt
  chain-IsOneKind (c ∷ []) h = tt
  chain-IsOneKind (c ∷ d ∷ r) (e, h) =
      (ap (λ (p : Text × Text). p.0) e ∙ id-target c, chain-IsOneKind (d ∷ r) h)

  same_object :
      (c : ObjectModificationCommand V) (k n : Text)
      → (text_eq (extract_id c).0 k && text_eq (extract_id c).1 n) ≡ true
      → (k, n) ≡ extract_id c
  same_object c k n h =
      ground (arith, text_eq_iff (extract_id c).0 k, text_eq_iff (extract_id c).1 n)

  same_kind :
      (c : ObjectModificationCommand V) (k : Text)
      → text_eq (extract_kind c) k ≡ true
      → k ≡ (target c).0
  same_kind c k h = sym ((text_eq_iff (extract_kind c) k).0 h) ∙ kind-target c

  append-IsChain :
      (cs : List (ObjectModificationCommand V)) (c : ObjectModificationCommand V)
      → IsChain cs
      → is_previous_same_object_as cs (target c).0 (target c).1 ≡ true
      → IsChain (cs ++ c ∷ [])
  append-IsChain [] c h e = tt
  append-IsChain (x ∷ []) c h e =
      (same_object x (target c).0 (target c).1 (unfold is_previous_same_object_as in e), tt)
  append-IsChain (x ∷ y ∷ r) c (p, h) e =
      (p, append-IsChain (y ∷ r) c h (unfold is_previous_same_object_as in e))

  append-IsOneKind :
      (cs : List (ObjectModificationCommand V)) (c : ObjectModificationCommand V)
      → IsOneKind cs
      → is_previous_same_kind_as cs (target c).0 ≡ true
      → IsOneKind (cs ++ c ∷ [])
  append-IsOneKind [] c h e = tt
  append-IsOneKind (x ∷ []) c h e =
      (same_kind x (target c).0 (unfold is_previous_same_kind_as in e), tt)
  append-IsOneKind (x ∷ y ∷ r) c (p, h) e =
      (p, append-IsOneKind (y ∷ r) c h (unfold is_previous_same_kind_as in e))

  -- What each batching mode keeps of the queue.
  abbrev pub Fits : CommandBatchingMode → List (ObjectModificationCommand V) → Type 0
  Fits send_immediately cs = cs ≡ []
  Fits cache_same_object cs = IsChain cs
  Fits cache_same_kind cs = IsOneKind cs

  -- The test by which a mode lets a command join the queue.
  abbrev pub joins : CommandBatchingMode → List (ObjectModificationCommand V) → Text → Text → Bool
  joins send_immediately cs k n = false
  joins cache_same_object cs k n = is_previous_same_object_as cs k n
  joins cache_same_kind cs k n = is_previous_same_kind_as cs k

  append-Fits :
      (mode : CommandBatchingMode) (cs : List (ObjectModificationCommand V))
      (c : ObjectModificationCommand V)
      → Fits mode cs
      → joins mode cs (target c).0 (target c).1 ≡ true
      → Fits mode (cs ++ c ∷ [])
  append-Fits send_immediately cs c h e = cc
  append-Fits cache_same_object cs c h e = append-IsChain cs c h e
  append-Fits cache_same_kind cs c h e = append-IsOneKind cs c h e

pub empty-Fits : (V : Type 0) (mode : CommandBatchingMode) → Fits {V = V} mode []
empty-Fits V send_immediately = refl
empty-Fits V _ = tt

module _ {V : Type 0} where
  -- The queue after a command `c`: as before, empty, `c` alone, or `c` behind the others where the
  -- mode lets it join them.
  abbrev pub Queued :
      CommandBatchingMode
      → List (ObjectModificationCommand V)
      → ObjectModificationCommand V
      → Text
      → Text
      → List (ObjectModificationCommand V)
      → Type 0
  Queued mode cs c k n new =
      (new ≡ cs)
      ⊎ ((new ≡ [])
          ⊎ ((is_immediate mode ≡ false) × (new ≡ c ∷ [])
              ⊎ (joins mode cs k n ≡ true) × (new ≡ cs ++ c ∷ [])))

  pub alone-Fits :
      (mode : CommandBatchingMode) (c : ObjectModificationCommand V)
      → is_immediate mode ≡ false
      → Fits mode (c ∷ [])
  alone-Fits send_immediately c e = cc
  alone-Fits _ c e = tt

  pub Queued-Fits :
      (mode : CommandBatchingMode) (cs new : List (ObjectModificationCommand V))
      (c : ObjectModificationCommand V)
      → Queued mode cs c (target c).0 (target c).1 new
      → Fits mode cs
      → Fits mode new
  Queued-Fits mode cs new c (inl e) h = rw e h
  Queued-Fits mode cs new c (inr (inl e)) h = rw e (empty-Fits V mode)
  Queued-Fits mode cs new c (inr (inr (inl (i, e)))) h = rw e (alone-Fits mode c i)
  Queued-Fits mode cs new c (inr (inr (inr (j, e)))) h = rw e (append-Fits mode cs c h j)
