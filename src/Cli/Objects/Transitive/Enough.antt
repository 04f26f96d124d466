-- ===== src/Cli/Objects/Transitive/Enough.antt =====
-- The search of nested objects ends where the embedding of kinds is not circular.
use deska.Base.{
  ℕ, zero, suc, ◌<◌, back, Bool, true, false, some, List, [], ◌∷◌, ◌++◌, All, if◌then◌else◌, ◌≡◌,
  refl, sym, ap, ◌∙◌, subst, arith,
}
use deska.Base.Text.{Text}
use deska.Db.Exec.{Exec, Result, ok, fail, after, ◌>>=◌, pure}
use deska.Db.Filter.{Filter}
use deska.Cli.Diff.Converters.{ObjectDefinition}
use deska.Cli.Relations.{Relations, entry, has}
use deska.Cli.Session.Interface.{Fault}
use deska.Cli.Session.Rebase.{or_throw}
use deska.Cli.Session.Triples.{Triple, triple_bind}
use deska.Cli.Objects.State.{ObjectsApi, State, Method, touch_embeds, call, note}
use deska.Cli.Objects.Expand.{Item, all_named, filter_on_name, expand_context_stack}
use deska.Cli.Objects.Expanded.{OfKind, expanded_lem, triple_or_throw}
use deska.Cli.Objects.Contained.{holds}
use deska.Cli.Objects.Named.{R, R-touched, R-note, R-called, R-named}
use deska.Cli.Objects.Transitive.Keeps.{Keeping, new_keeps, instance_keeps, rec_keeps}
use deska.Cli.Objects.Transitive.{
  Search, search_new, each_instance, each_kind, all_nested_objects_rec, all_nested_transitively,
  transitively_before, all_nested_transitively_in,
}
use deska.Cli.Objects.Contained.Answers.{has-itself}

-- Sequences whose parts agree.
module _ {S A B : Type 0} where
  after_agree :
      (r : Result Fault A) (k l : A → Exec S Fault B) (t : S)
      → ((a : A) → r ≡ ok a → k a t ≡ l a t)
      → after r k t ≡ after r l t
  after_agree (ok a) k l t h = h a refl
  after_agree (fail e) k l t h = refl

  after_both :
      (x y : Result Fault A × S) (k l : A → Exec S Fault B)
      → x ≡ y
      → ((a : A) → x.0 ≡ ok a → k a x.1 ≡ l a x.1)
      → after x.0 k x.1 ≡ after y.0 l y.1
  after_both x y k l q h = after_agree x.0 k l x.1 h ∙ ap (λ z. after z.0 l z.1) q

  bind_agree :
      (m n : Exec S Fault A) (k l : A → Exec S Fault B) (s : S)
      → m s ≡ n s
      → ((a : A) (t : S) → m s ≡ (ok a, t) → k a t ≡ l a t)
      → (m >>= k) s ≡ (n >>= l) s
  bind_agree m n k l s q h = after_both (m s) (n s) k l q (λ a e. h a (m s).1 (λ i. (e i, (m s).1)))

module _ {V : Type 0} (api : ObjectsApi V) (text : Text → V) (r : Relations) where
  abbrev I : State api → Type 0
  I = R api text r

  -- Two searches that are the same for the objects of a kind.
  abbrev Agree : Search api text → Search api text → Text → Type 0
  Agree m n k =
      (o : ObjectDefinition) (found : List ObjectDefinition) (s : State api)
      → o.kind ≡ k
      → I s
      → m o found s ≡ n o found s

  module _ (m n : Search api text) (keeps : Keeping api text r m) where
    new-Agree :
        (o : ObjectDefinition) (found : List ObjectDefinition) (s : State api)
        → Agree m n o.kind
        → I s
        → search_new api text m o found s ≡ search_new api text n o found s
    unfolding search_new
    new-Agree o found s h p = by_test (holds o found)
      where
        by_test :
            (b : Bool)
            → (if b then pure found else m o (found ++ o ∷ [])) s
              ≡ (if b then pure found else n o (found ++ o ∷ [])) s
        by_test true = refl
        by_test false = h o (found ++ o ∷ []) s refl p

    instance-Agree :
        (k : Text) (ns : List Text) (found : List ObjectDefinition) (s : State api)
        → Agree m n k
        → I s
        → each_instance api text m k ns found s ≡ each_instance api text n k ns found s
    unfolding each_instance
    instance-Agree k [] found s h p = refl
    instance-Agree k (x ∷ ns) found s h p =
        let o : ObjectDefinition = record { kind = k; name = x } in
        bind_agree (note api o true) (note api o true)
          (λ u. search_new api text m o found >>= each_instance api text m k ns)
          (λ u. search_new api text n o found >>= each_instance api text n k ns) s refl
          (λ u v e.
            let q : I v = R-note api text r o true s u v p e in
            bind_agree (search_new api text m o found) (search_new api text n o found)
              (each_instance api text m k ns) (each_instance api text n k ns) v
              (new-Agree o found v h q)
              (λ next w d.
                instance-Agree k ns next w h (new_keeps api text r m o found keeps v next w q d)))

    kind-Agree :
        (o : ObjectDefinition) (ks : List Text) (found : List ObjectDefinition) (s : State api)
        → All (Agree m n) ks
        → I s
        → each_kind api text m o ks found s ≡ each_kind api text n o ks found s
    unfolding each_kind
    kind-Agree o [] found s h p = refl
    kind-Agree o (k ∷ ks) found s (h, hs) p =
        let filter : Method api (Filter V) =
          or_throw (filter_on_name text s.relations o.kind o.name) in
        bind_agree filter filter
          (λ f. call api (api.kind_instances k (some f)) >>= λ ns.
            each_instance api text m k ns found >>= each_kind api text m o ks)
          (λ f. call api (api.kind_instances k (some f)) >>= λ ns.
            each_instance api text n k ns found >>= each_kind api text n o ks)
          s refl
          (λ f v e.
            let q : I v =
              triple_or_throw I (filter_on_name text s.relations o.kind o.name) s f v p e in
            bind_agree (call api (api.kind_instances k (some f)))
              (call api (api.kind_instances k (some f)))
              (λ ns. each_instance api text m k ns found >>= each_kind api text m o ks)
              (λ ns. each_instance api text n k ns found >>= each_kind api text n o ks) v refl
              (λ ns w d.
                let z : I w = R-called api text r k (some f) v ns w q d in
                bind_agree (each_instance api text m k ns found)
                  (each_instance api text n k ns found) (each_kind api text m o ks)
                  (each_kind api text n o ks) w (instance-Agree k ns found w h z)
                  (λ next x c.
                    kind-Agree o ks next x hs
                      (instance_keeps api text r m k ns found keeps w next x z c))))

  module _ (rank : Text → ℕ)
      (ranked : (k j : Text) → has (entry r.embeds k) j ≡ true → rank j < rank k) where
    kinds_below :
        (m n : Search api text) (o : ObjectDefinition) (ks : List Text)
        → All (λ j. rank j < rank o.kind) ks
        → ((j : Text) → rank j < rank o.kind → Agree m n j)
        → All (Agree m n) ks
    kinds_below m n o [] h a = tt
    kinds_below m n o (k ∷ ks) (h, hs) a = (a k h, kinds_below m n o ks hs a)

    lower :
        (k : Text) (ks : List Text)
        → All (λ j. has (entry r.embeds k) j ≡ true) ks
        → All (λ j. rank j < rank k) ks
    lower k [] h = tt
    lower k (j ∷ ks) (h, hs) = (ranked k j h, lower k ks hs)

    entry_lower :
        (k : Text) (s : State api) → I s → All (λ j. rank j < rank k) (entry s.relations.embeds k)
    entry_lower k s p =
        subst (All (λ j. rank j < rank k)) (sym (p.embeds k))
          (lower k (entry r.embeds k) (has-itself (entry r.embeds k)))

    enough :
        (e d : Fault) (x y : ℕ) (o : ObjectDefinition) (found : List ObjectDefinition)
        (s : State api)
        → rank o.kind < x
        → rank o.kind < y
        → I s
        → all_nested_objects_rec api text e x o found s
          ≡ all_nested_objects_rec api text d y o found s
    unfolding all_nested_objects_rec
    enough e d zero y o found s h g p = absurd (omega arith)
    enough e d (suc x) zero o found s h g p = absurd (omega arith)
    enough e d (suc x) (suc y) o found s h g p =
        let m : Search api text = all_nested_objects_rec api text e x in
        let n : Search api text = all_nested_objects_rec api text d y in
        kind-Agree m n (rec_keeps api text r e x) o (entry s.relations.embeds o.kind) found
          (touch_embeds api o.kind s)
          (kinds_below m n o (entry s.relations.embeds o.kind) (entry_lower o.kind s p)
            (λ j l i f v q z.
              let same : rank i.kind ≡ rank j = ap rank q in
              enough e d x y i f v (omega arith) (omega arith) z))
          (R-touched api text r o.kind s p)

    one_enough :
        (e d : Fault) (x y : ℕ) (o : ObjectDefinition) (s : State api)
        → rank o.kind < x
        → rank o.kind < y
        → I s
        → all_nested_transitively api text e x o s ≡ all_nested_transitively api text d y o s
    unfolding all_nested_transitively
    one_enough e d x y o s h g p =
        bind_agree (or_throw (all_named (o ∷ []))) (or_throw (all_named (o ∷ [])))
          (λ u. all_nested_objects_rec api text e x o [])
          (λ u. all_nested_objects_rec api text d y o []) s refl
          (λ u v c. enough e d x y o [] v h g (triple_or_throw I (all_named (o ∷ [])) s u v p c))

    one_keeps :
        (e : Fault) (x : ℕ) (o : ObjectDefinition)
        → Triple I (all_nested_transitively api text e x o) (λ l. I)
    unfolding all_nested_transitively
    one_keeps e x o =
        triple_bind I (λ u. I) (λ l. I) (or_throw (all_named (o ∷ [])))
          (λ u. all_nested_objects_rec api text e x o []) (triple_or_throw I (all_named (o ∷ [])))
          (λ u. rec_keeps api text r e x o [])

    before_enough :
        (e d : Fault) (x y : ℕ) (k : Text) (nested os : List ObjectDefinition) (s : State api)
        → rank k < x
        → rank k < y
        → OfKind k os
        → I s
        → transitively_before api text e x nested os s
          ≡ transitively_before api text d y nested os s
    unfolding transitively_before
    before_enough e d x y k nested [] s h g c p = refl
    before_enough e d x y k nested (o ∷ os) s h g (c, cs) p =
        let same : rank o.kind ≡ rank k = ap rank c in
        bind_agree (all_nested_transitively api text e x o) (all_nested_transitively api text d y o)
          (λ found. transitively_before api text e x (found ++ nested) os)
          (λ found. transitively_before api text d y (found ++ nested) os) s
          (one_enough e d x y o s (omega arith) (omega arith) p)
          (λ found v q.
            before_enough e d x y k (found ++ nested) os v h g cs (one_keeps e x o s found v p q))

    -- If the kinds have ranks, so that a kind has a greater one than every kind that the relations embed
    -- into it, then with more fuel than the rank of the last kind of the context the search of all nested
    -- objects never runs out of it: with any two such amounts of fuel, and whatever the lack of fuel
    -- would throw, it gives the same answer or exception and leaves the same state, whatever the server
    -- says.
    pub all_nested_transitively_in-enough :
        (e d : Fault) (x y : ℕ) (c : List (Item api text)) (last : Item api text) (s : State api)
        → back c ≡ some last
        → rank last.kind < x
        → rank last.kind < y
        → s.relations ≡ r
        → all_nested_transitively_in api text e x c s ≡ all_nested_transitively_in api text d y c s
    unfolding all_nested_transitively_in
    all_nested_transitively_in-enough e d x y c last s b h g q =
        let p : I s = record {
          into = ap (λ v. v.embedded_into) q;
          embeds = λ k. ap (λ v. entry v.embeds k) q;
        } in
        bind_agree (expand_context_stack api text c) (expand_context_stack api text c)
          (transitively_before api text e x []) (transitively_before api text d y []) s refl
          (λ os v f.
            let (z, k) = expanded_lem api text I (R-named api text r) c last b s os v p f in
            before_enough e d x y last.kind [] os v h g k z)
