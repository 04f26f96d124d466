-- ===== src/Cli/Objects/Restored.antt =====
-- The existing objects after the loop of `restoreDeletedObject`.
use deska.Base.{
  Bool, true, false, not, ◌&&◌, List, [], ◌∷◌, if◌then◌else◌, ◌≡◌, refl, ap, ◌∙◌, subst,
}
use deska.Base.Text.{is_empty}
use deska.Base.Dict.{find, insert}
use deska.Db.Exec.{◌>>◌}
use deska.Cli.Diff.Converters.{ObjectDefinition}
use deska.Cli.Session.Triples.{Triple, triple_bind, triple_pure}
use deska.Cli.Objects.Key.{object_ord}
use deska.Cli.Objects.State.{ObjectsApi, State, call, note}
use deska.Cli.Objects.Exists.{object_exists}
use deska.Cli.Objects.Modify.{restore_objects}
use deska.Cli.Objects.Laws.{Existing, update, marked, ExistenceLaws, Fits}
use deska.Cli.Objects.Cached.{Answered, Fits-insert, object_exists_lem}
use deska.Cli.Objects.Changed.{Q, settled-Fits, Pending-same, marked_step}

module _ {V : Type 0} (api : ObjectsApi V) (laws : ExistenceLaws api) where
  -- Between the restoration of an object and the note of it.
  record Restored (o : ObjectDefinition) (e : Existing) (s : State api) : Type 0 where
    stable : s.stable_view ≡ true
    truth : (x : ObjectDefinition) → laws.exists s.server x ≡ update o true e x
    fits : (x : ObjectDefinition) → Fits (find x s.object_exists_cache) (e x) (e x)

  Restored-call :
      (o : ObjectDefinition) (e : Existing)
      → Triple
          (Q api laws e e)
          (call api (api.restore_deleted_object o.kind o.name))
          (λ u. Restored o e)
  Restored-call o e s u t p h =
      let v : api.Server = (api.restore_deleted_object o.kind o.name s.server).1 in
      subst (Restored o e) (ap (λ z. z.1) h) (record {
        stable = p.stable;
        truth = λ x.
            laws.restore_ok o.kind o.name s.server u v (λ i. (ap (λ z. z.0) h i, v)) x
            ∙ ap (λ f. update o true f x) (λ i y. p.truth y i);
        fits = p.fits;
      })

  Restored-note :
      (o : ObjectDefinition) (e : Existing)
      → Triple
          (Restored o e)
          (note api o true)
          (λ u. Q api laws (update o true e) (update o true e))
  unfolding note update
  Restored-note o e s u t p h =
      subst (Q api laws (update o true e) (update o true e)) (ap (λ z. z.1) h) (
        rw (p.stable) (record {
          stable = refl;
          truth = p.truth;
          fits = λ x.
              settled-Fits api laws (find x (insert o true s.object_exists_cache)) (e x)
                (update o true e x)
                (Fits-insert o x true s.object_exists_cache (e x) (e x) (p.fits x));
        }))

  abbrev Restores : List ObjectDefinition → Type 0
  Restores os =
      (e : Existing)
      → Triple (Q api laws e e) (restore_objects api os)
          (λ u. Q api laws (marked false os e) (marked false os e))

  restore_branch :
      (o : ObjectDefinition) (os : List ObjectDefinition) (a : Bool)
      → Restores os
      → (e : Existing)
      → Triple
          (Q api laws e e)
          (if a
            then restore_objects api os
            else call api (api.restore_deleted_object o.kind o.name)
              >> (note api o true >> restore_objects api os))
          (λ u.
            Q api laws
              (marked false os (if not a then update o true e else e))
              (marked false os (if not a then update o true e else e)))
  restore_branch o os true rest e = rest e
  restore_branch o os false rest e =
      let f : Existing = update o true e in
      let final : Unit {0} → State api → Type 0 =
        λ u. Q api laws (marked false os f) (marked false os f) in
      triple_bind (Q api laws e e) (λ u. Restored o e) final
        (call api (api.restore_deleted_object o.kind o.name))
        (λ u. note api o true >> restore_objects api os) (Restored-call o e)
        (λ u.
          triple_bind (Restored o e) (λ u. Q api laws f f) final (note api o true)
            (λ u. restore_objects api os) (Restored-note o e) (λ u. rest f))

  pub restored_lem : (os : List ObjectDefinition) → Restores os
  unfolding restore_objects marked
  restored_lem [] e =
      triple_pure (Q api laws e e) (λ u. Q api laws (marked false [] e) (marked false [] e)) tt
        (λ s p. p)
  restored_lem (o ∷ os) e =
      triple_bind (Q api laws e e) (Answered api laws o e e)
        (λ u. Q api laws (marked false (o ∷ os) e) (marked false (o ∷ os) e)) (object_exists api o)
        (λ a.
          if a
          then restore_objects api os
          else call api (api.restore_deleted_object o.kind o.name)
            >> (note api o true >> restore_objects api os))
        (object_exists_lem api laws o e e)
        (λ a s u t (q, p) h.
          let v : Bool → Existing = λ b. marked false os (if not b then update o true e else e) in
          let step : (x : ObjectDefinition)
              → v (not (is_empty o.name) && e o) x ≡ marked false (o ∷ os) e x =
            marked_step false o os e in
          Pending-same api laws (v (not (is_empty o.name) && e o)) (marked false (o ∷ os) e)
            (v (not (is_empty o.name) && e o)) (marked false (o ∷ os) e) t step step
            (subst (λ b. Q api laws (v b) (v b) t) q
              (restore_branch o os a (restored_lem os) e s u t p h)))
