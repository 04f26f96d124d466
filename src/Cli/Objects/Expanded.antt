-- ===== src/Cli/Objects/Expanded.antt =====
-- What `expandContextStack` answers and what it keeps.
use deska.Base.{
  true, Option, none, some, List, [], ◌∷◌, map, back, if◌then◌else◌, ◌≡◌, refl, ap, subst,
}
use deska.Base.Text.{Text}
use deska.Db.Exec.{ok, ◌>>=◌, pure}
use deska.Db.Filter.{Filter}
use deska.Cli.Diff.Converters.{ObjectDefinition}
use deska.Cli.Path.Context.{is_filter, context_stack_to_path}
use deska.Cli.Session.Rebase.{or_throw}
use deska.Cli.Session.Triples.{Triple, triple_bind, triple_pure, triple_if}
use deska.Cli.Objects.Key.{step_in_context}
use deska.Cli.Objects.State.{ObjectsApi, State, call, note}
use deska.Cli.Objects.Exists.{instances, note_all}
use deska.Cli.Objects.Expand.{
  Item, all_named, filters_on_names, final_filter, instances_under, expand_item, expand_items,
  none_found, expand_context_stack,
}

-- every object is of the kind
abbrev pub OfKind : Text → List ObjectDefinition → Type 0
OfKind k [] = Unit {0}
OfKind k (o ∷ os) = (o.kind ≡ k) × OfKind k os

OfKind-steps :
    (i : ObjectDefinition) (os : List ObjectDefinition)
    → OfKind i.kind (map (λ x. step_in_context x i) os)
unfolding step_in_context
OfKind-steps i [] = tt
OfKind-steps i (o ∷ os) = (refl, OfKind-steps i os)

module _ {S A : Type 0} where
  pub triple_or_throw : (P : S → Type 0) (a : Option A) → Triple P (or_throw a) (λ b s. P s)
  triple_or_throw P none s b t p h = cc
  triple_or_throw P (some a) s b t p h = subst P (ap (λ z. z.1) h) p

module _ {V : Type 0} (api : ObjectsApi V) (text : Text → V) (I : State api → Type 0)
    (named : (k : Text) (f : Option (Filter V))
      → Triple I (instances api k f) (λ os s. I s × OfKind k os)) where
  abbrev Of : Text → List ObjectDefinition → State api → Type 0
  Of k os s = I s × OfKind k os

  under_lem :
      (os : List ObjectDefinition) (i : Item api text)
      → Triple I (instances_under api text os i) (Of i.kind)
  unfolding instances_under
  under_lem os i s =
      triple_bind I (λ fs. I) (Of i.kind) (or_throw (filters_on_names text s.relations os))
        (λ fs. instances api i.kind (some (final_filter text fs i.filter)))
        (triple_or_throw I (filters_on_names text s.relations os))
        (λ fs. named i.kind (some (final_filter text fs i.filter))) s

  item_lem :
      (os : List ObjectDefinition) (i : Item api text)
      → Triple I (expand_item api text os i) (Of i.kind)
  unfolding expand_item
  item_lem [] i =
      triple_if I (Of i.kind) (is_filter i.item_type) (instances api i.kind i.filter)
        (pure (record { kind = i.kind; name = i.name } ∷ [])) (named i.kind i.filter)
        (triple_pure I (Of i.kind) (record { kind = i.kind; name = i.name } ∷ [])
          (λ s p. (p, (refl, tt))))
  item_lem (o ∷ os) i =
      let to : ObjectDefinition = record { kind = i.kind; name = i.name } in
      let stepped : List ObjectDefinition = map (λ x. step_in_context x to) (o ∷ os) in
      triple_bind I (λ u. I) (Of i.kind) (or_throw (all_named (o ∷ os)))
        (λ u. if is_filter i.item_type then instances_under api text (o ∷ os) i else pure stepped)
        (triple_or_throw I (all_named (o ∷ os)))
        (λ u.
          triple_if I (Of i.kind) (is_filter i.item_type) (instances_under api text (o ∷ os) i)
            (pure stepped) (under_lem (o ∷ os) i)
            (triple_pure I (Of i.kind) stepped (λ s p. (p, OfKind-steps to (o ∷ os)))))

  abbrev last_kind : Text → List (Item api text) → Text
  last_kind k [] = k
  last_kind k (i ∷ r) = last_kind i.kind r

  items_lem :
      (k : Text) (os : List ObjectDefinition) (c : List (Item api text))
      → OfKind k os
      → Triple I (expand_items api text os c) (Of (last_kind k c))
  unfolding expand_items
  items_lem k os [] h = triple_pure I (Of k) os (λ s p. (p, h))
  items_lem k os (i ∷ r) h =
      triple_bind I (Of i.kind) (Of (last_kind i.kind r)) (expand_item api text os i)
        (λ found. if none_found api text i found then pure [] else expand_items api text found r)
        (item_lem os i)
        (λ found s a t (p, q).
          triple_if I (Of (last_kind i.kind r)) (none_found api text i found) (pure [])
            (expand_items api text found r)
            (triple_pure I (Of (last_kind i.kind r)) [] (λ v y. (y, tt)))
            (items_lem i.kind found r q) s a t p)

  back-last_kind :
      (k : Text) (c : List (Item api text)) (last : Item api text)
      → back c ≡ some last
      → last_kind k c ≡ last.kind
  back-last_kind k [] last h = cc
  back-last_kind k (i ∷ []) last h = cc
  back-last_kind k (i ∷ j ∷ r) last h = back-last_kind i.kind (j ∷ r) last h

  pub expanded_lem :
      (c : List (Item api text)) (last : Item api text)
      → back c ≡ some last
      → Triple I (expand_context_stack api text c) (λ os s. I s × OfKind last.kind os)
  unfolding expand_context_stack
  expanded_lem c last h = rw (h, expand_context_stack) (by_path (context_stack_to_path c))
    where
      by_path :
          (path : Option Text)
          → Triple I
              (elim path [
                | some n ↦ pure (record { kind = last.kind; name = n } ∷ [])
                | none ↦ expand_items api text [] c
              ])
              (Of last.kind)
      by_path (some n) =
          triple_pure I (Of last.kind) (record { kind = last.kind; name = n } ∷ [])
            (λ s p. (p, (refl, tt)))
      by_path none =
          subst (λ k. Triple I (expand_items api text [] c) (Of k)) (back-last_kind [] c last h)
            (items_lem [] [] c tt)

-- The objects that the server names are of the kind, and with what `note_all` keeps, so is the rest.
module _ {V : Type 0} (api : ObjectsApi V) where
  noted_lem :
      (I : List Text → State api → Type 0) (k : Text)
      → ((n : Text) (ns : List Text)
          → Triple (I (n ∷ ns)) (note api (record { kind = k; name = n }) true) (λ u. I ns))
      → (ns : List Text) → Triple (I ns) (note_all api k ns) (λ os s. I [] s × OfKind k os)
  unfolding note_all
  noted_lem I k step [] = triple_pure (I []) (λ os s. I [] s × OfKind k os) [] (λ s p. (p, tt))
  noted_lem I k step (n ∷ ns) =
      triple_bind (I (n ∷ ns)) (λ u. I ns) (λ os s. I [] s × OfKind k os)
        (note api (record { kind = k; name = n }) true)
        (λ u. note_all api k ns >>= λ os. pure (record { kind = k; name = n } ∷ os)) (step n ns)
        (λ u.
          triple_bind (I ns) (λ os s. I [] s × OfKind k os) (λ os s. I [] s × OfKind k os)
            (note_all api k ns) (λ os. pure (record { kind = k; name = n } ∷ os))
            (noted_lem I k step ns)
            (λ os.
              triple_pure (λ s. I [] s × OfKind k os) (λ l s. I [] s × OfKind k l)
                (record { kind = k; name = n } ∷ os) (λ s (p, q). (p, (refl, q)))))

  pub instances_lem :
      (I : List Text → State api → Type 0) (k : Text) (f : Option (Filter V))
      (P : State api → Type 0)
      → Triple P (call api (api.kind_instances k f)) I
      → ((n : Text) (ns : List Text)
          → Triple (I (n ∷ ns)) (note api (record { kind = k; name = n }) true) (λ u. I ns))
      → Triple P (instances api k f) (λ os s. I [] s × OfKind k os)
  unfolding instances
  instances_lem I k f P called step =
      triple_bind P I (λ os s. I [] s × OfKind k os) (call api (api.kind_instances k f))
        (note_all api k) called (noted_lem I k step)

  -- Whatever the state and the server, the objects that are found are of the kind of the last item.
  pub expand_context_stack-OfKind :
      (text : Text → V) (c : List (Item api text)) (last : Item api text) (s : State api)
      (os : List ObjectDefinition) (t : State api)
      → back c ≡ some last
      → expand_context_stack api text c s ≡ (ok os, t)
      → OfKind last.kind os
  expand_context_stack-OfKind text c last s os t h e =
      (expanded_lem api text (λ s. Unit {0})
        (λ k f.
          instances_lem (λ ns s. Unit {0}) k f (λ s. Unit {0}) (λ v a w p q. tt)
            (λ n ns v a w p q. tt))
        c last h s os t tt e).1
