-- ===== src/Cli/Objects/Transitive/Reached.antt =====
-- What the search of nested objects finds.
use deska.Base.{
  ℕ, zero, suc, Bool, true, false, Option, none, some, List, [], ◌∷◌, ◌++◌, All, All-append,
  if◌then◌else◌, ◌≡◌, refl, sym, ap, ◌∙◌, subst, ◌⊎◌, inl, inr,
}
use deska.Base.Text.{Text}
use deska.Db.Exec.{ok, ◌>>=◌, pure, >>=-eq-ok, pure-eq-ok}
use deska.Db.Filter.{Filter}
use deska.Cli.Diff.Converters.{ObjectDefinition}
use deska.Cli.Relations.{Relations, entry, has}
use deska.Cli.Session.Interface.{Fault}
use deska.Cli.Session.Rebase.{or_throw}
use deska.Cli.Session.Triples.{Triple, triple_bind, triple_pure}
use deska.Cli.Objects.State.{ObjectsApi, State, touch_embeds, call, note}
use deska.Cli.Objects.Expand.{all_named, filter_on_name}
use deska.Cli.Objects.Expanded.{triple_or_throw}
use deska.Cli.Objects.Contained.{holds}
use deska.Cli.Objects.Contained.Answers.{Good, Distinct, Distinct-append, holds-Differ, has-itself}
use deska.Cli.Objects.Named.{R, R-filter, R-touched, R-note, R-called}
use deska.Cli.Objects.Embedded.{EmbeddedIn}
use deska.Cli.Objects.Transitive.{
  Search, search_new, each_instance, each_kind, all_nested_objects_rec, all_nested_transitively,
}

-- The objects that a chain of embeddings leads to.
pub data Reachable {V : Type 0} (text : Text → V) (r : Relations)
    (matches : Text → Filter V → Text → Type 0) (o : ObjectDefinition)
    : ObjectDefinition → Type 0 where
  directly : (x : ObjectDefinition) → EmbeddedIn text r matches o x → Reachable text r matches o x
  further :
      (x y : ObjectDefinition)
      → Reachable text r matches o x
      → EmbeddedIn text r matches x y
      → Reachable text r matches o y

module _ {V : Type 0} (api : ObjectsApi V) (text : Text → V) (r : Relations)
    (matches : Text → Filter V → Text → Type 0)
    (answered : (k : Text) (f : Filter V) (s : api.Server) (ns : List Text) (t : api.Server)
      → api.kind_instances k (some f) s ≡ (ok ns, t)
      → All (matches k f) ns)
    (root : ObjectDefinition) where
  abbrev I : State api → Type 0
  I = R api text r

  abbrev Reach : ObjectDefinition → Type 0
  Reach = Reachable text r matches root

  -- the objects that are searched
  abbrev Start : ObjectDefinition → Type 0
  Start o = (o ≡ root) ⊎ Reach o

  step : (o x : ObjectDefinition) → Start o → EmbeddedIn text r matches o x → Reach x
  step o x (inl q) e = directly x (subst (λ p. EmbeddedIn text r matches p x) q e)
  step o x (inr h) e = further o x h e

  abbrev G : List ObjectDefinition → State api → Type 0
  G l s = I s × Good Reach l

  abbrev Finds : Search api text → Type 0
  Finds go =
      (o : ObjectDefinition) (found : List ObjectDefinition)
      → Start o
      → Triple (G found) (go o found) G

  new-Finds :
      (go : Search api text) (o : ObjectDefinition) (found : List ObjectDefinition)
      → Finds go
      → Reach o
      → Triple (G found) (search_new api text go o found) G
  unfolding search_new
  new-Finds go o found h p s l t (i, (g, d)) e = by_test (holds o found) refl e
    where
      by_test :
          (b : Bool)
          → holds o found ≡ b
          → (if b then pure found else go o (found ++ o ∷ [])) s ≡ (ok l, t)
          → G l t
      by_test true q e = triple_pure (G found) G found (λ v z. z) s l t (i, (g, d)) e
      by_test false q e =
          h o (found ++ o ∷ []) (inr p) s l t
            (
              i,
              (
                All-append Reach found (o ∷ []) g (p, tt),
                Distinct-append o found (holds-Differ o found q) d,
              ),
            )
            e

  instance-Finds :
      (go : Search api text) (k : Text) (ns : List Text) (found : List ObjectDefinition)
      → Finds go
      → All (λ n. Reach (record { kind = k; name = n })) ns
      → Triple (G found) (each_instance api text go k ns found) G
  unfolding each_instance
  instance-Finds go k [] found h p = triple_pure (G found) G found (λ s z. z)
  instance-Finds go k (n ∷ ns) found h (p, ps) =
      let o : ObjectDefinition = record { kind = k; name = n } in
      triple_bind (G found) (λ u. G found) G (note api o true)
        (λ u. search_new api text go o found >>= each_instance api text go k ns)
        (λ s u t (i, g) e. (R-note api text r o true s u t i e, g))
        (λ u.
          triple_bind (G found) G G (search_new api text go o found)
            (each_instance api text go k ns) (new-Finds go o found h p)
            (λ next. instance-Finds go k ns next h ps))

  -- the instances of a kind that is embedded in the kind of `o`
  reached :
      (o : ObjectDefinition) (k : Text) (f : Filter V) (ns : List Text)
      → Start o
      → has (entry r.embeds o.kind) k ≡ true
      → filter_on_name text r o.kind o.name ≡ some f
      → All (matches k f) ns
      → All (λ n. Reach (record { kind = k; name = n })) ns
  reached o k f [] b h q m = tt
  reached o k f (n ∷ ns) b h q (m, ms) =
      (step o (record { kind = k; name = n }) b (h, f, q, m), reached o k f ns b h q ms)

  threw :
      {A : Type 0} (c : Option A) (s : State api) (a : A) (t : State api)
      → or_throw c s ≡ (ok a, t)
      → (c ≡ some a) × (s ≡ t)
  threw none s a t h = cc
  threw (some b) s a t h = (ap some (sym (pure-eq-ok b s h).0), (pure-eq-ok b s h).1)

  kind-Finds :
      (go : Search api text) (o : ObjectDefinition) (ks : List Text) (found : List ObjectDefinition)
      → Finds go
      → Start o
      → All (λ k. has (entry r.embeds o.kind) k ≡ true) ks
      → Triple (G found) (each_kind api text go o ks found) G
  unfolding each_kind
  kind-Finds go o [] found h b a s l t p e = triple_pure (G found) G found (λ v z. z) s l t p e
  kind-Finds go o (k ∷ ks) found h b (a, rest) s l t (i, g) e =
      let (f, v, filtered, later) =
        >>=-eq-ok (or_throw (filter_on_name text s.relations o.kind o.name))
          (λ f. call api (api.kind_instances k (some f)) >>= λ ns.
            each_instance api text go k ns found >>= each_kind api text go o ks)
          s e in
      let (c, same) = threw (filter_on_name text s.relations o.kind o.name) s f v filtered in
      let mine : filter_on_name text r o.kind o.name ≡ some f =
        sym (R-filter api text r s i o.kind o.name) ∙ c in
      let (ns, w, called, others) =
        >>=-eq-ok (call api (api.kind_instances k (some f)))
          (λ ns. each_instance api text go k ns found >>= each_kind api text go o ks) v later in
      let x : api.Server = (api.kind_instances k (some f) v.server).1 in
      let m : All (matches k f) ns =
        answered k f v.server ns x (λ j. (ap (λ z. z.0) called j, x)) in
      triple_bind (G found) G G (each_instance api text go k ns found) (each_kind api text go o ks)
        (instance-Finds go k ns found h (reached o k f ns b a mine m))
        (λ next. kind-Finds go o ks next h b rest) w l t
        (R-called api text r k (some f) v ns w (subst I same i) called, g) others

  rec-Finds : (e : Fault) (fuel : ℕ) → Finds (all_nested_objects_rec api text e fuel)
  unfolding all_nested_objects_rec
  rec-Finds e zero o found b s l t p h = cc
  rec-Finds e (suc fuel) o found b s l t (i, g) h =
      kind-Finds (all_nested_objects_rec api text e fuel) o (entry s.relations.embeds o.kind) found
        (rec-Finds e fuel) b
        (subst (λ ks. All (λ k. has (entry r.embeds o.kind) k ≡ true) ks) (sym (i.embeds o.kind))
          (has-itself (entry r.embeds o.kind)))
        (touch_embeds api o.kind s) l t (R-touched api text r o.kind s i, g) h

  -- Let kindInstances with a filter answer only names that the filter lets through. Where the search of
  -- all nested objects of an object returns, every object that it answers is reached from that object by
  -- a chain of embeddings, each by the relations and let through by the filter on the name of the object
  -- before it, and none is answered twice.
  pub all_nested_transitively-Reachable :
      (e : Fault) (fuel : ℕ) (s : State api) (os : List ObjectDefinition) (t : State api)
      → s.relations ≡ r
      → all_nested_transitively api text e fuel root s ≡ (ok os, t)
      → All (Reachable text r matches root) os × Distinct os
  unfolding all_nested_transitively
  all_nested_transitively-Reachable e fuel s os t q h =
      let (i, g) =
        triple_bind I (λ u. I) G (or_throw (all_named (root ∷ [])))
          (λ u. all_nested_objects_rec api text e fuel root [])
          (triple_or_throw I (all_named (root ∷ [])))
          (λ u v l w p d. rec-Finds e fuel root [] (inl refl) v l w (p, (tt, tt)) d) s os t
          (record {
            into = ap (λ v. v.embedded_into) q;
            embeds = λ k. ap (λ v. entry v.embeds k) q;
          })
          h in
      g
