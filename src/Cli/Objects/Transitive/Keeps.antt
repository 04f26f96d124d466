-- ===== src/Cli/Objects/Transitive/Keeps.antt =====
-- The search of nested objects leaves the relations as they are, but for empty entries.
use deska.Base.{ℕ, zero, suc, true, some, List, [], ◌∷◌, ◌++◌}
use deska.Base.Text.{Text}
use deska.Db.Exec.{◌>>=◌, pure}
use deska.Cli.Diff.Converters.{ObjectDefinition}
use deska.Cli.Relations.{Relations, entry}
use deska.Cli.Session.Interface.{Fault}
use deska.Cli.Session.Rebase.{or_throw}
use deska.Cli.Session.Triples.{Triple, triple_bind, triple_pure, triple_if}
use deska.Cli.Objects.State.{ObjectsApi, State, touch_embeds, call, note}
use deska.Cli.Objects.Expand.{filter_on_name}
use deska.Cli.Objects.Expanded.{triple_or_throw}
use deska.Cli.Objects.Contained.{holds}
use deska.Cli.Objects.Named.{R, R-touched, R-note, R-called}
use deska.Cli.Objects.Transitive.{
  Search, search_new, each_instance, each_kind, all_nested_objects_rec,
}

module _ {V : Type 0} (api : ObjectsApi V) (text : Text → V) (r : Relations) where
  abbrev I : State api → Type 0
  I = R api text r

  abbrev pub Keeping : Search api text → Type 0
  Keeping go =
      (o : ObjectDefinition) (found : List ObjectDefinition) → Triple I (go o found) (λ l. I)

  pub new_keeps :
      (go : Search api text) (o : ObjectDefinition) (found : List ObjectDefinition)
      → Keeping go
      → Triple I (search_new api text go o found) (λ l. I)
  unfolding search_new
  new_keeps go o found h =
      triple_if I (λ l. I) (holds o found) (pure found) (go o (found ++ o ∷ []))
        (triple_pure I (λ l. I) found (λ s p. p)) (h o (found ++ o ∷ []))

  pub instance_keeps :
      (go : Search api text) (k : Text) (ns : List Text) (found : List ObjectDefinition)
      → Keeping go
      → Triple I (each_instance api text go k ns found) (λ l. I)
  unfolding each_instance
  instance_keeps go k [] found h = triple_pure I (λ l. I) found (λ s p. p)
  instance_keeps go k (n ∷ ns) found h =
      let o : ObjectDefinition = record { kind = k; name = n } in
      triple_bind I (λ u. I) (λ l. I) (note api o true)
        (λ u. search_new api text go o found >>= each_instance api text go k ns)
        (R-note api text r o true)
        (λ u.
          triple_bind I (λ l. I) (λ l. I) (search_new api text go o found)
            (each_instance api text go k ns) (new_keeps go o found h)
            (λ next. instance_keeps go k ns next h))

  kind_keeps :
      (go : Search api text) (o : ObjectDefinition) (ks : List Text) (found : List ObjectDefinition)
      → Keeping go
      → Triple I (each_kind api text go o ks found) (λ l. I)
  unfolding each_kind
  kind_keeps go o [] found h s = triple_pure I (λ l. I) found (λ v p. p) s
  kind_keeps go o (k ∷ ks) found h s =
      triple_bind I (λ f. I) (λ l. I) (or_throw (filter_on_name text s.relations o.kind o.name))
        (λ f. call api (api.kind_instances k (some f)) >>= λ ns.
          each_instance api text go k ns found >>= each_kind api text go o ks)
        (triple_or_throw I (filter_on_name text s.relations o.kind o.name))
        (λ f.
          triple_bind I (λ ns. I) (λ l. I) (call api (api.kind_instances k (some f)))
            (λ ns. each_instance api text go k ns found >>= each_kind api text go o ks)
            (R-called api text r k (some f))
            (λ ns.
              triple_bind I (λ l. I) (λ l. I) (each_instance api text go k ns found)
                (each_kind api text go o ks) (instance_keeps go k ns found h)
                (λ next. kind_keeps go o ks next h)))
        s

  pub rec_keeps : (e : Fault) (fuel : ℕ) → Keeping (all_nested_objects_rec api text e fuel)
  unfolding all_nested_objects_rec
  rec_keeps e zero o found s l t p h = cc
  rec_keeps e (suc fuel) o found s l t p h =
      kind_keeps (all_nested_objects_rec api text e fuel) o (entry s.relations.embeds o.kind) found
        (rec_keeps e fuel) (touch_embeds api o.kind s) l t (R-touched api text r o.kind s p) h
