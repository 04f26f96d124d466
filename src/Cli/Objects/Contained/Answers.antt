-- ===== src/Cli/Objects/Contained/Answers.antt =====
-- What `containedObjects` answers.
use deska.Base.{
  Bool, true, false, ◌||◌, Option, none, some, List, [], ◌∷◌, ◌++◌, All, All-append, if◌then◌else◌,
  ◌≡◌, refl, sym, ap, ◌∙◌, subst, arith,
}
use deska.Base.Text.{Text, text_eq, text_eq_iff}
use deska.Db.Exec.{ok, ◌>>=◌, pure}
use deska.Db.Filter.{Filter}
use deska.Cli.Diff.Converters.{ObjectDefinition, object_eq}
use deska.Cli.Relations.{entry, has}
use deska.Cli.Session.Rebase.{or_throw}
use deska.Cli.Session.Triples.{Triple, triple_bind, triple_pure}
use deska.Cli.Objects.State.{ObjectsApi, State, Method, touch_contains, call, note}
use deska.Cli.Objects.Expand.{all_named, filter_on_name}
use deska.Cli.Objects.Expanded.{triple_or_throw}
use deska.Cli.Objects.Contained.{holds, push_new, single, keep, contained_from, contained_objects}

abbrev pub Differ : ObjectDefinition → ObjectDefinition → Type 0
Differ o x = ¬ (x ≡ o)

-- no object stands in the list twice
abbrev pub Distinct : List ObjectDefinition → Type 0
Distinct [] = Unit {0}
Distinct (x ∷ xs) = All (λ y. ¬ (x ≡ y)) xs × Distinct xs

object_eq_refl : (o : ObjectDefinition) → object_eq o o ≡ true
unfolding object_eq
object_eq_refl o = rw ((text_eq_iff o.kind o.kind).1 refl, (text_eq_iff o.name o.name).1 refl) refl

pub holds-Differ :
    (o : ObjectDefinition) (xs : List ObjectDefinition) → holds o xs ≡ false → All (Differ o) xs
holds-Differ o [] h = tt
holds-Differ o (x ∷ xs) h = by_test (object_eq x o) refl (holds-Differ o xs) h
  where
    by_test :
        (b : Bool)
        → object_eq x o ≡ b
        → (holds o xs ≡ false → All (Differ o) xs)
        → (b || holds o xs) ≡ false
        → All (Differ o) (x ∷ xs)
    by_test true q rest m = cc
    by_test false q rest m = (
      λ p. let e : object_eq x o ≡ true = ap (λ z. object_eq z o) p ∙ object_eq_refl o in cc,
      rest m,
    )

pub Distinct-append :
    (o : ObjectDefinition) (xs : List ObjectDefinition)
    → All (Differ o) xs
    → Distinct xs
    → Distinct (xs ++ o ∷ [])
Distinct-append o [] d h = (tt, tt)
Distinct-append o (x ∷ xs) (d, ds) (h, hs) =
    (All-append (λ y. ¬ (x ≡ y)) xs (o ∷ []) h (d, tt), Distinct-append o xs ds hs)

abbrev pub Good : (ObjectDefinition → Type 0) → List ObjectDefinition → Type 0
Good J os = All J os × Distinct os

push_new-Good :
    (J : ObjectDefinition → Type 0) (o : ObjectDefinition) (found : List ObjectDefinition)
    → J o
    → Good J found
    → Good J (push_new o found)
unfolding push_new
push_new-Good J o found j (g, d) = by_test (holds o found) refl
  where
    by_test : (b : Bool) → holds o found ≡ b → Good J (if b then found else found ++ o ∷ [])
    by_test true h = (g, d)
    by_test false h =
        (All-append J found (o ∷ []) g (j, tt), Distinct-append o found (holds-Differ o found h) d)

has-more :
    (k : Text) (ks ms : List Text)
    → All (λ m. has ks m ≡ true) ms
    → All (λ m. has (k ∷ ks) m ≡ true) ms
has-more k ks [] h = tt
has-more k ks (m ∷ ms) (h, hs) = (by_test (text_eq k m), has-more k ks ms hs)
  where
    by_test : (b : Bool) → (b || has ks m) ≡ true
    by_test true = refl
    by_test false = h

pub has-itself : (ks : List Text) → All (λ k. has ks k ≡ true) ks
has-itself [] = tt
has-itself (k ∷ ks) = (rw ((text_eq_iff k k).1 refl) refl, has-more k ks ks (has-itself ks))

single-eq : (name : Text) (ns : List Text) → single name ns ≡ some true → ns ≡ name ∷ []
unfolding single
single-eq name [] h = cc
single-eq name (n ∷ []) h = by_test (text_eq n name) refl h
  where
    by_test :
        (b : Bool)
        → text_eq n name ≡ b
        → (if b then some true else none) ≡ some true
        → n ∷ [] ≡ name ∷ []
    by_test true q m = ap (λ x. x ∷ []) ((text_eq_iff n name).0 q)
    by_test false q m = cc
single-eq name (n ∷ m ∷ ns) h = cc

module _ {V : Type 0} (api : ObjectsApi V) (text : Text → V) (I : State api → Type 0)
    (H : Text → List Text → State api → Type 0)
    (asked : (k : Text) (f : Option (Filter V))
      → Triple I (call api (api.kind_instances k f)) (H k))
    (plain : (k : Text) (ns : List Text) (s : State api) → H k ns s → I s)
    (noted : (k n : Text)
      → Triple (H k (n ∷ [])) (note api (record { kind = k; name = n }) true) (λ u. I))
    (J : ObjectDefinition → Type 0) where
  abbrev G : List ObjectDefinition → State api → Type 0
  G os s = I s × Good J os

  kept_lem :
      (k name : Text) (ns : List Text) (found : List ObjectDefinition) (b : Bool)
      → single name ns ≡ some b
      → J (record { kind = k; name = name })
      → Good J found
      → Triple (H k ns) (keep api text b (record { kind = k; name = name }) found) G
  unfolding keep
  kept_lem k name ns found false e j g = triple_pure (H k ns) G found (λ s p. (plain k ns s p, g))
  kept_lem k name ns found true e j g =
      let o : ObjectDefinition = record { kind = k; name = name } in
      triple_bind (H k ns) (λ u. I) G (note api o true) (λ u. pure (push_new o found))
        (subst (λ ms. Triple (H k ms) (note api o true) (λ u. I)) (sym (single-eq name ns e))
          (noted k name))
        (λ u. triple_pure I G (push_new o found) (λ s p. (p, push_new-Good J o found j g)))

  -- the two assertions, and what follows them
  asserted :
      (name : Text) (ns : List Text) (b : Bool) (s t : State api)
      → or_throw (single name ns) s ≡ (ok b, t)
      → (single name ns ≡ some b) × (s ≡ t)
  asserted name ns b s t h = by_value (single name ns) h
    where
      by_value : (a : Option Bool) → or_throw a s ≡ (ok b, t) → (a ≡ some b) × (s ≡ t)
      by_value none q = cc
      by_value (some c) q = ground arith

  abbrev Again : Text → List Text → Type 0
  Again name ks =
      (next : List ObjectDefinition)
      → Good J next
      → Triple I (contained_from api text name next ks) G

  from_lem :
      (name : Text) (found : List ObjectDefinition) (ks : List Text)
      → All (λ k. J (record { kind = k; name = name })) ks
      → Good J found
      → Triple I (contained_from api text name found ks) G
  unfolding contained_from
  from_lem name found [] j g s = triple_pure I G found (λ v p. (p, g)) s
  from_lem name found (k ∷ ks) (j, js) g s =
      triple_bind I (λ f. I) G (or_throw (filter_on_name text s.relations k name))
        (λ f. call api (api.kind_instances k (some f)) >>= λ ns. checked ns)
        (triple_or_throw I (filter_on_name text s.relations k name))
        (λ f.
          triple_bind I (H k) G (call api (api.kind_instances k (some f))) checked
            (asked k (some f)) (checked_lem (λ next q. from_lem name next ks js q)))
        s
    where
      stored : Bool → Method api (List ObjectDefinition)
      stored b = keep api text b (record { kind = k; name = name }) found >>= λ next.
          contained_from api text name next ks

      checked : List Text → Method api (List ObjectDefinition)
      checked ns = or_throw (single name ns) >>= stored

      stored_lem :
          (again : Again name ks) (ns : List Text) (b : Bool)
          → single name ns ≡ some b
          → Triple (H k ns) (stored b) G
      stored_lem again ns b e =
          triple_bind (H k ns) G G (keep api text b (record { kind = k; name = name }) found)
            (λ next. contained_from api text name next ks) (kept_lem k name ns found b e j g)
            (λ next v a t (p, q). again next q v a t p)

      checked_lem : (again : Again name ks) (ns : List Text) → Triple (H k ns) (checked ns) G
      checked_lem again ns =
          triple_bind (H k ns) (λ b v. (single name ns ≡ some b) × H k ns v) G
            (or_throw (single name ns)) stored
            (λ v b t p h. let (e, q) = asserted name ns b v t h in (e, subst (H k ns) q p))
            (λ b v a t (e, p). stored_lem again ns b e v a t p)

-- What holds of a contained object: its kind is one of the kinds, and its name is the given one.
abbrev pub Part : List Text → Text → ObjectDefinition → Type 0
Part ks name o = (has ks o.kind ≡ true) × (o.name ≡ name)

All-Part :
    (ks : List Text) (name : Text) (ms : List Text)
    → All (λ k. has ks k ≡ true) ms
    → All (λ k. Part ks name (record { kind = k; name = name })) ms
All-Part ks name [] h = tt
All-Part ks name (m ∷ ms) (h, hs) = ((h, refl), All-Part ks name ms hs)

module _ {V : Type 0} (api : ObjectsApi V) (text : Text → V) (I : State api → Type 0)
    (H : Text → List Text → State api → Type 0)
    (asked : (k : Text) (f : Option (Filter V))
      → Triple I (call api (api.kind_instances k f)) (H k))
    (plain : (k : Text) (ns : List Text) (s : State api) → H k ns s → I s)
    (noted : (k n : Text)
      → Triple (H k (n ∷ [])) (note api (record { kind = k; name = n }) true) (λ u. I))
    (touched : (k : Text) (s : State api) → I s → I (touch_contains api k s)) where
  -- where the answer is from the relations of the state before it
  pub contained_lem :
      (o : ObjectDefinition) (s : State api) (os : List ObjectDefinition) (t : State api)
      → I s
      → contained_objects api text o s ≡ (ok os, t)
      → I t × (All (Part (entry s.relations.contains o.kind) o.name) os × Distinct os)
  unfolding contained_objects
  contained_lem o s os t p h =
      let ks : List Text = entry s.relations.contains o.kind in
      triple_bind (λ v. (v ≡ s) × I v) (λ u v. (v ≡ s) × I v)
        (λ l v. I v × (All (Part ks o.name) l × Distinct l)) (or_throw (all_named (o ∷ [])))
        (λ u v.
          contained_from api text o.name [] (entry v.relations.contains o.kind)
            (touch_contains api o.kind v))
        (triple_or_throw (λ v. (v ≡ s) × I v) (all_named (o ∷ [])))
        (λ u v a w (q, r) e.
          from_lem api text I H asked plain noted (Part ks o.name) o.name [] ks
            (All-Part ks o.name ks (has-itself ks)) (tt, tt) (touch_contains api o.kind v) a w
            (touched o.kind v r)
            (subst
              (λ x.
                contained_from api text o.name [] (entry x.relations.contains o.kind)
                  (touch_contains api o.kind v)
                ≡ (ok a, w))
              q e))
        s os t (refl, p) h

module _ {V : Type 0} (api : ObjectsApi V) where
  -- Where containedObjects returns, every object that it answers has the name of the given one and a
  -- kind that the relations have as contained in its kind, and none is answered twice.
  pub contained_objects-Part :
      (text : Text → V) (o : ObjectDefinition) (s : State api) (os : List ObjectDefinition)
      (t : State api)
      → contained_objects api text o s ≡ (ok os, t)
      → All (Part (entry s.relations.contains o.kind) o.name) os × Distinct os
  contained_objects-Part text o s os t h =
      (contained_lem api text (λ s. Unit {0}) (λ k ns s. Unit {0}) (λ k f v a w p q. tt)
        (λ k ns v p. tt) (λ k n v a w p q. tt) (λ k v p. p) o s os t tt h).1
