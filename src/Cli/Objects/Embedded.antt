-- ===== src/Cli/Objects/Embedded.antt =====
-- What `allNestedObjects` answers.
mod Tests
use deska.Cli.Objects.Named.{IsSame, R, R-filter, R-touched, R-named, instances-of_names}
use deska.Base.{
  Bool, true, false, ◌||◌, Option, none, some, List, [], ◌∷◌, ◌++◌, All, All-append, back,
  if◌then◌else◌, ◌≡◌, refl, ap, sym, ◌∙◌, subst,
}
use deska.Base.Text.{Text, text_eq, text_compare_eq, text_eq_iff}
use deska.Base.Dict.{Dict, find, insert, find-insert, text_ord}
use deska.Db.Exec.{ok, ◌>>=◌, pure, >>=-eq-ok, pure-eq-ok}
use deska.Db.Filter.{Filter}
use deska.Cli.Diff.Converters.{ObjectDefinition}
use deska.Cli.Relations.{Relations, entry, touch, has}
use deska.Cli.Session.Rebase.{or_throw}
use deska.Cli.Session.Triples.{Triple, triple_bind, triple_pure}
use deska.Cli.Objects.State.{ObjectsApi, State, call, store, note, touch_embeds}
use deska.Cli.Objects.Exists.{instances, note_all}
use deska.Cli.Objects.Expand.{Item, all_named, filter_on_name, expand_context_stack}
use deska.Cli.Objects.Expanded.{OfKind, expanded_lem, instances_lem, triple_or_throw}
use deska.Cli.Objects.Laws.{of_names}
use deska.Cli.Objects.Nested.{
  embedded_objects, all_nested_objects, nested_before, all_nested_objects_in,
}

-- `matches k f n`: the object `n` of the kind `k` is one that the filter lets through.
module _ {V : Type 0} (text : Text → V) (r : Relations)
    (matches : Text → Filter V → Text → Type 0) where
  -- An object embedded in `o`: its kind is one that the relations embed into the kind of `o`, and it
  -- is let through by the filter on the name of `o`.
  abbrev pub EmbeddedIn : ObjectDefinition → ObjectDefinition → Type 0
  EmbeddedIn o x =
      (has (entry r.embeds o.kind) x.kind ≡ true)
      × (f : Filter V) × (filter_on_name text r o.kind o.name ≡ some f)
      × matches x.kind f x.name

  -- the same with the kinds that are left
  abbrev Under : ObjectDefinition → List Text → ObjectDefinition → Type 0
  Under o ks x =
      (has ks x.kind ≡ true)
      × (f : Filter V) × (filter_on_name text r o.kind o.name ≡ some f)
      × matches x.kind f x.name

  -- an object embedded in some object of the kind
  abbrev pub Below : Text → ObjectDefinition → Type 0
  Below k x = (o : ObjectDefinition) × (o.kind ≡ k) × EmbeddedIn o x

module _ {V : Type 0} (api : ObjectsApi V) (text : Text → V) (r : Relations)
    (matches : Text → Filter V → Text → Type 0)
    (answered : (k : Text) (f : Filter V) (s : api.Server) (ns : List Text) (t : api.Server)
      → api.kind_instances k (some f) s ≡ (ok ns, t)
      → All (matches k f) ns) where
  abbrev I : State api → Type 0
  I = R api text r

  abbrev Embedded : ObjectDefinition → ObjectDefinition → Type 0
  Embedded = EmbeddedIn text r matches

  abbrev Rest : ObjectDefinition → List Text → ObjectDefinition → Type 0
  Rest = Under text r matches

  abbrev Down : Text → ObjectDefinition → Type 0
  Down = Below text r matches

  Under-more :
      (o : ObjectDefinition) (k : Text) (ks : List Text) (os : List ObjectDefinition)
      → All (Rest o ks) os
      → All (Rest o (k ∷ ks)) os
  Under-more o k ks [] h = tt
  Under-more o k ks (x ∷ xs) ((h, f, q, m), hs) =
      ((by_test (text_eq k x.kind), f, q, m), Under-more o k ks xs hs)
    where
      by_test : (b : Bool) → (b || has ks x.kind) ≡ true
      by_test true = refl
      by_test false = h

  named-Under :
      (o : ObjectDefinition) (k : Text) (ks : List Text) (f : Filter V) (ns : List Text)
      → filter_on_name text r o.kind o.name ≡ some f
      → All (matches k f) ns
      → All (Rest o (k ∷ ks)) (of_names k ns)
  named-Under o k ks f [] h m = tt
  named-Under o k ks f (n ∷ ns) h (m, ms) =
      ((rw ((text_eq_iff k k).1 refl) refl, f, h, m), named-Under o k ks f ns h ms)

  -- the objects of one kind
  found_lem :
      (o : ObjectDefinition) (k : Text) (ks : List Text) (f : Filter V)
      → filter_on_name text r o.kind o.name ≡ some f
      → Triple I (instances api k (some f)) (λ os s. I s × All (Rest o (k ∷ ks)) os)
  found_lem o k ks f h s os t p e =
      let (ns, v, called, names) = instances-of_names api k (some f) s os t e in
      let w : api.Server = (api.kind_instances k (some f) s.server).1 in
      (
        (R-named api text r k (some f) s os t p e).0,
        subst (All (Rest o (k ∷ ks))) (sym names) (
            named-Under o k ks f ns h
              (answered k f s.server ns w (λ i. (ap (λ z. z.0) called i, w)))),
      )

  threw :
      {A : Type 0} (c : Option A) (s : State api) (a : A) (t : State api)
      → or_throw c s ≡ (ok a, t)
      → (c ≡ some a) × (s ≡ t)
  threw none s a t h = cc
  threw (some b) s a t h = (ap some (sym (pure-eq-ok b s h).0), (pure-eq-ok b s h).1)

  embedded_lem :
      (o : ObjectDefinition) (ks : List Text)
      → Triple I (embedded_objects api text o ks) (λ os s. I s × All (Rest o ks) os)
  unfolding embedded_objects
  embedded_lem o [] s os t p h =
      let (none_left, same) = pure-eq-ok [] s h in
      (subst I same p, subst (All (Rest o [])) (sym none_left) tt)
  embedded_lem o (k ∷ ks) s os t p h =
      let (f, v, filtered, later) =
        >>=-eq-ok (or_throw (filter_on_name text s.relations o.kind o.name))
          (λ f. instances api k (some f) >>= λ found.
            embedded_objects api text o ks >>= λ rest. pure (found ++ rest))
          s h in
      let (found, w, asked, others) =
        >>=-eq-ok (instances api k (some f))
          (λ l. embedded_objects api text o ks >>= λ rest. pure (l ++ rest)) v later in
      let (rest, x, below, last) =
        >>=-eq-ok (embedded_objects api text o ks) (λ l. pure (found ++ l)) w others in
      let (c, same) = threw (filter_on_name text s.relations o.kind o.name) s f v filtered in
      let mine : filter_on_name text r o.kind o.name ≡ some f =
        sym (R-filter api text r s p o.kind o.name) ∙ c in
      let (q, here) = found_lem o k ks f mine v found w (subst I same p) asked in
      let (y, there) = embedded_lem o ks w rest x q below in
      let (whole, ended) = pure-eq-ok (found ++ rest) x last in
      (
        subst I ended y,
        subst (All (Rest o (k ∷ ks))) (sym whole)
            (All-append (Rest o (k ∷ ks)) found rest here (Under-more o k ks rest there)),
      )

  nested_lem :
      (o : ObjectDefinition)
      → Triple I (all_nested_objects api text o) (λ os s. I s × All (Embedded o) os)
  unfolding all_nested_objects
  nested_lem o =
      triple_bind I (λ u. I) (λ os s. I s × All (Embedded o) os) (or_throw (all_named (o ∷ [])))
        (λ u s.
          embedded_objects api text o (entry s.relations.embeds o.kind) (touch_embeds api o.kind s))
        (triple_or_throw I (all_named (o ∷ [])))
        (λ u s os t p h.
          subst (λ ks. I t × All (Rest o ks) os) (p.embeds o.kind)
            (embedded_lem o (entry s.relations.embeds o.kind) (touch_embeds api o.kind s) os t
              (R-touched api text r o.kind s p) h))

  All-Below :
      (k : Text) (o : ObjectDefinition) (os : List ObjectDefinition)
      → o.kind ≡ k
      → All (Embedded o) os
      → All (Down k) os
  All-Below k o [] h a = tt
  All-Below k o (x ∷ xs) h (a, rest) = ((o, h, a), All-Below k o xs h rest)

  before_lem :
      (k : Text) (nested os : List ObjectDefinition)
      → OfKind k os
      → All (Down k) nested
      → Triple I (nested_before api text nested os) (λ l s. I s × All (Down k) l)
  unfolding nested_before
  before_lem k nested [] h n = triple_pure I (λ l s. I s × All (Down k) l) nested (λ s p. (p, n))
  before_lem k nested (o ∷ os) (h, hs) n =
      triple_bind I (λ l s. I s × All (Embedded o) l) (λ l s. I s × All (Down k) l)
        (all_nested_objects api text o) (λ found. nested_before api text (found ++ nested) os)
        (nested_lem o)
        (λ found s a t (p, q).
          before_lem k (found ++ nested) os hs
            (All-append (Down k) found nested (All-Below k o found h q) n) s a t p)

  -- Let `matches` be what the server says of the filters: kindInstances with a filter answers only names
  -- that it lets through. Where allNestedObjects of a context returns, every object that it answers is
  -- embedded in some object of the kind of the last item: its kind is one that the relations embed into
  -- that kind, and it is let through by the filter on the name of that object.
  pub all_nested_objects_in-Below :
      (c : List (Item api text)) (last : Item api text) (s : State api) (os : List ObjectDefinition)
      (t : State api)
      → back c ≡ some last
      → s.relations ≡ r
      → all_nested_objects_in api text c s ≡ (ok os, t)
      → All (Below text r matches last.kind) os
  unfolding all_nested_objects_in
  all_nested_objects_in-Below c last s os t h q e =
      let (p, below) =
        triple_bind I (λ l v. I v × OfKind last.kind l) (λ l v. I v × All (Down last.kind) l)
          (expand_context_stack api text c) (nested_before api text [])
          (expanded_lem api text I (R-named api text r) c last h)
          (λ l v a w (p, k). before_lem last.kind [] l k tt v a w p) s os t
          (record {
            into = ap (λ v. v.embedded_into) q;
            embeds = λ k. ap (λ v. entry v.embeds k) q;
          })
          e in
      below
