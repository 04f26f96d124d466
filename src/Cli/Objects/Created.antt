-- ===== src/Cli/Objects/Created.antt =====
-- The existing objects after the creation of one object.
use deska.Base.{true, false, not, some, if◌then◌else◌, ◌≡◌, refl, ap, ◌∙◌, subst, Ordering}
use deska.Base.Text.{Text, text_compare, text_compare_eq, is_eq}
use deska.Base.Dict.{find}
use deska.Db.Exec.{fail, ◌>>=◌, pure}
use deska.Cli.Diff.Converters.{ObjectDefinition}
use deska.Cli.Path.Context.{object_item}
use deska.Cli.Session.Interface.{other_error}
use deska.Cli.Session.Rebase.{or_throw}
use deska.Cli.Session.Triples.{Triple, triple_bind, triple_pure}
use deska.Cli.Objects.Key.{object_ord}
use deska.Cli.Objects.State.{ObjectsApi, State, call, note}
use deska.Cli.Objects.Expand.{Item, ends_empty}
use deska.Cli.Objects.Modify.{create_one, created_one, last_of}
use deska.Cli.Objects.Laws.{Existing, update, ExistenceLaws, Fits}
use deska.Cli.Objects.Cached.{Fits-insert}
use deska.Cli.Objects.Changed.{Q, settled-Fits}
use deska.Cli.Objects.Expanded.{triple_or_throw}

module _ {V : Type 0} (api : ObjectsApi V) (laws : ExistenceLaws api) (text : Text → V)
    (o : ObjectDefinition) (e : Existing) where
  -- After the call that has created `new`, when the cache answers for `w`.
  record Created (new : Text) (w : Existing) (s : State api) : Type 0 where
    stable : s.stable_view ≡ true
    truth :
        (x : ObjectDefinition)
        → laws.exists s.server x ≡ update (record { kind = o.kind; name = new }) true e x
    fits : (x : ObjectDefinition) → Fits (find x s.object_exists_cache) (e x) (w x)

  abbrev Final : Item api text → State api → Type 0
  Final i = Q api laws (update o true e) (update o true e)

  Created-call :
      Triple (Q api laws e e) (call api (api.create_object o.kind o.name)) (λ new. Created new e)
  Created-call s new t p h =
      let v : api.Server = (api.create_object o.kind o.name s.server).1 in
      subst (Created new e) (ap (λ z. z.1) h) (record {
        stable = p.stable;
        truth = λ x.
            laws.create_ok o.kind o.name s.server new v (λ i. (ap (λ z. z.0) h i, v)) x
            ∙ ap (λ f. update (record { kind = o.kind; name = new }) true f x) (λ i y. p.truth y i);
        fits = p.fits;
      })

  Created-note :
      (new : Text) → Triple (Created new e) (note api o true) (λ u. Created new (update o true e))
  unfolding note update
  Created-note new s u t p h = subst (Created new (update o true e)) (ap (λ z. z.1) h) (
      rw (p.stable) (record {
        stable = refl;
        truth = p.truth;
        fits = λ x. Fits-insert o x true s.object_exists_cache (e x) (e x) (p.fits x);
      }))

  Created-named :
      (new : Text)
      → new ≡ o.name
      → (s : State api) → Created new (update o true e) s
      → Q api laws (update o true e) (update o true e) s
  Created-named new h s p = record {
    stable = p.stable;
    truth = λ x. p.truth x ∙ ap (λ n. update (record { kind = o.kind; name = n }) true e x) h;
    fits = λ x.
        settled-Fits api laws (find x s.object_exists_cache) (e x) (update o true e x) (p.fits x);
  }

  Created-checked :
      (new : Text) → Triple (Created new (update o true e)) (created_one api text o new false) Final
  unfolding created_one
  Created-checked new = by_name (text_compare new o.name) refl
    where
      by_name :
          (c : Ordering)
          → text_compare new o.name ≡ c
          → Triple
              (Created new (update o true e))
              (if not (is_eq c)
                then (λ s. (fail other_error, s))
                else (or_throw (last_of new) >>= λ name. pure (object_item o.kind name)))
              Final
      by_name Ordering.lt h = λ s i t p q. cc
      by_name Ordering.gt h = λ s i t p q. cc
      by_name Ordering.eq h =
          triple_bind (Created new (update o true e)) (λ n. Created new (update o true e)) Final
            (or_throw (last_of new)) (λ name. pure (object_item o.kind name))
            (triple_or_throw (Created new (update o true e)) (last_of new))
            (λ name.
              triple_pure (Created new (update o true e)) Final (object_item o.kind name)
                (Created-named new (text_compare_eq new o.name h)))

  pub created_one_lem :
      ends_empty o.name ≡ some false
      → Triple
          (Q api laws e e)
          (create_one api text o)
          (λ i. Q api laws (update o true e) (update o true e))
  unfolding create_one
  created_one_lem h =
      triple_bind (Q api laws e e) (λ new. Created new e) Final
        (call api (api.create_object o.kind o.name))
        (λ new.
          note api o true >>= λ u. (or_throw (ends_empty o.name) >>= created_one api text o new))
        Created-call
        (λ new.
          triple_bind (Created new e) (λ u. Created new (update o true e)) Final (note api o true)
            (λ u. or_throw (ends_empty o.name) >>= created_one api text o new) (Created-note new)
            (λ u. rw (h) (Created-checked new)))
