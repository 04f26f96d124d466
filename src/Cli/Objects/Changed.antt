-- ===== src/Cli/Objects/Changed.antt =====
-- The existing objects after `deleteObjects`, the mass creation and the restoration.
use deska.Base.{
  All, Bool, Option, none, some, true, false, not, ◌&&◌, ◌||◌, List, [], ◌∷◌, if◌then◌else◌, ◌≡◌,
  refl, ap, ◌∙◌, subst, arith,
}
use deska.Base.Text.{is_empty}
use deska.Db.Command.{ObjectModificationCommand, lacks_local, create_object, delete_object}
use deska.Db.Exec.{ok, ◌>>=◌, ◌>>◌, pure}
use deska.Base.Dict.{find}
use deska.Cli.Diff.Converters.{ObjectDefinition}
use deska.Cli.Session.Triples.{Triple, triple_bind, triple_pure}
use deska.Cli.Objects.Key.{object_compare, object_compare_eq, object_ord}
use deska.Cli.Objects.State.{ObjectsApi, State, call, note}
use deska.Cli.Objects.Exists.{object_exists}
use deska.Cli.Objects.Modify.{commands_for, delete_objects, create_objects}
use deska.Cli.Objects.Laws.{
  Existing, same_object, update, listed, marked, effect, effects, is_open, has_open, ExistenceLaws,
  Fits,
}
use deska.Cli.Objects.Cached.{P, Answered, note_lem, object_exists_lem, is_eq_lem}

-- whether the loop changes an object, from the answer for it
abbrev chosen : Bool → Bool → Bool
chosen wanted a = if wanted then a else not a

step_table :
    (wanted l n m v u c : Bool)
    → (c ≡ true → (n ≡ m) × (u ≡ v))
    → (if l && (not wanted || not n)
        then not wanted
        else if chosen wanted (not m && v)
        then if c then not wanted else u
        else u)
      ≡ (if (c || l) && (not wanted || not n) then not wanted else u)
step_table wanted l n m v u false h = ground arith
step_table wanted l n m v u true h = let (a, b) = h refl in rw (a, b) (ground arith)

applied :
    (c : Bool) (f g : Existing) (x : ObjectDefinition)
    → (if c then f else g) x ≡ (if c then f x else g x)
applied true f g x = refl
applied false f g x = refl

-- One more object, that is to be changed or not.
pub marked_step :
    (wanted : Bool) (o : ObjectDefinition) (os : List ObjectDefinition) (w : Existing)
    (x : ObjectDefinition)
    → marked wanted os
        (if chosen wanted (not (is_empty o.name) && w o) then update o (not wanted) w else w)
        x
      ≡ marked wanted (o ∷ os) w x
unfolding marked update same_object
marked_step wanted o os w x =
    ap (λ r. if listed os x && (not wanted || not (is_empty x.name)) then not wanted else r)
      (applied (chosen wanted (not (is_empty o.name) && w o)) (update o (not wanted) w) w x)
    ∙ step_table wanted (listed os x) (is_empty x.name) (is_empty o.name) (w o) (w x)
        (same_object x o)
        (λ q.
          let e = object_compare_eq x o (is_eq_lem (object_compare x o) q) in
          (ap (λ y. is_empty y.name) e, ap w e))

-- an object whose name has its local part
abbrev pub HasLocal : ObjectDefinition → Type 0
HasLocal o = lacks_local o.name ≡ false

module _ {V : Type 0} (api : ObjectsApi V) (laws : ExistenceLaws api) where
  abbrev pub Q : Existing → Existing → State api → Type 0
  Q = P api laws

  pub Pending-same :
      (e f w v : Existing) (s : State api)
      → ((x : ObjectDefinition) → e x ≡ f x)
      → ((x : ObjectDefinition) → w x ≡ v x)
      → Q e w s
      → Q f v s
  Pending-same e f w v s he hw p = record {
    stable = p.stable;
    truth = λ x. p.truth x ∙ he x;
    fits = λ x.
        subst (λ a. Fits (find x s.object_exists_cache) a (v x)) (he x)
          (subst (λ b. Fits (find x s.object_exists_cache) (e x) b) (hw x) (p.fits x));
  }

  -- The commands of a loop, for what they make of the existing objects.
  abbrev Made :
      Existing → Existing → Existing → List (ObjectModificationCommand V) → State api → Type 0
  Made e w v cs s =
      Q e v s × (has_open cs ≡ false) × ((x : ObjectDefinition) → effects cs w x ≡ v x)

  Made-same :
      (e w v v' : Existing) (cs : List (ObjectModificationCommand V)) (s : State api)
      → ((x : ObjectDefinition) → v x ≡ v' x)
      → Made e w v cs s
      → Made e w v' cs s
  Made-same e w v v' cs s k (p, q, r) = (Pending-same e e v v' s (λ x. refl) k p, q, λ x. r x ∙ k x)

  module _ (wanted : Bool) (make : ObjectDefinition → ObjectModificationCommand V)
      (does : (o : ObjectDefinition) (w : Existing)
        → effect (make o) w ≡ update o (not wanted) w) where
    abbrev Loop : List ObjectDefinition → Type 0
    Loop os =
        (e w : Existing)
        → Triple (Q e w) (commands_for api wanted make os) (Made e w (marked wanted os w))

    changed_one :
        (o : ObjectDefinition) (os : List ObjectDefinition)
        → is_open (make o) ≡ false
        → Loop os
        → (e w : Existing)
        → Triple
            (Q e w)
            (do note api o (not wanted); cs ← commands_for api wanted make os; pure (make o ∷ cs))
            (Made e w (marked wanted os (update o (not wanted) w)))
    changed_one o os plain rest e w =
        triple_bind (Q e w) (λ u. Q e (update o (not wanted) w))
          (Made e w (marked wanted os (update o (not wanted) w))) (note api o (not wanted))
          (λ u. commands_for api wanted make os >>= λ cs. pure (make o ∷ cs))
          (note_lem api laws o (not wanted) e w)
          (λ u.
            triple_bind (Q e (update o (not wanted) w))
              (Made e (update o (not wanted) w) (marked wanted os (update o (not wanted) w)))
              (Made e w (marked wanted os (update o (not wanted) w)))
              (commands_for api wanted make os) (λ cs. pure (make o ∷ cs))
              (rest e (update o (not wanted) w))
              (λ cs.
                triple_pure
                  (Made e (update o (not wanted) w) (marked wanted os (update o (not wanted) w)) cs)
                  (Made e w (marked wanted os (update o (not wanted) w))) (make o ∷ cs)
                  (λ s (p, q, r). (p, rw plain q, λ x. rw (does o w) (r x)))))

    branch :
        (o : ObjectDefinition) (os : List ObjectDefinition) (c : Bool)
        → is_open (make o) ≡ false
        → Loop os
        → (e w : Existing)
        → Triple
            (Q e w)
            (if c
              then (do
                note api o (not wanted)
                cs ← commands_for api wanted make os
                pure (make o ∷ cs))
              else commands_for api wanted make os)
            (Made e w (marked wanted os (if c then update o (not wanted) w else w)))
    branch o os true plain rest = changed_one o os plain rest
    branch o os false plain rest = rest

    pub looped : (os : List ObjectDefinition) → All (λ o. is_open (make o) ≡ false) os → Loop os
    unfolding commands_for marked
    looped [] g e w =
        triple_pure (Q e w) (Made e w (marked wanted [] w)) [] (λ s p. (p, refl, λ x. refl))
    looped (o ∷ os) (g, gs) e w =
        triple_bind (Q e w) (Answered api laws o e w) (Made e w (marked wanted (o ∷ os) w))
          (object_exists api o)
          (λ a.
            if chosen wanted a
            then (do
              note api o (not wanted)
              cs ← commands_for api wanted make os
              pure (make o ∷ cs))
            else commands_for api wanted make os)
          (object_exists_lem api laws o e w)
          (λ a s cs t (q, p) h.
            Made-same e w
              (marked wanted os (
                if chosen wanted (not (is_empty o.name) && w o)
                then update o (not wanted) w
                else w))
              (marked wanted (o ∷ os) w) cs t (marked_step wanted o os w)
              (subst
                (λ b.
                  Made e w
                    (marked wanted os (if chosen wanted b then update o (not wanted) w else w)) cs
                    t)
                q (branch o os (chosen wanted a) g (looped os gs) e w s cs t p h)))

  pub settled-Fits : (c : Option Bool) (e w : Bool) → Fits c e w → Fits c w w
  unfolding Fits
  settled-Fits none e w h = refl
  settled-Fits (some c) e w h = h

  -- after a call that makes the objects exist for which the cache answers
  settled :
      (e w : Existing) (s : State api) (v : api.Server)
      → Q e w s
      → ((x : ObjectDefinition) → laws.exists v x ≡ w x)
      → Q w w (record s { server = v })
  settled e w s v p k = record {
    stable = p.stable;
    truth = k;
    fits = λ x. settled-Fits (find x s.object_exists_cache) (e x) (w x) (p.fits x);
  }

  -- the call that sends the commands
  sent_lem :
      (e w : Existing) (cs : List (ObjectModificationCommand V)) (s : State api) (u : Unit {0})
      (t : State api)
      → Made e e w cs s
      → call api (api.apply_batched_changes cs) s ≡ (ok u, t)
      → Q w w t
  sent_lem e w cs s u t (p, r, k) h =
      let v : api.Server = (api.apply_batched_changes cs s.server).1 in
      subst (Q w w) (ap (λ z. z.1) h) (
        settled e w s v p (λ x.
          laws.apply_ok cs s.server u v r (λ i. (ap (λ z. z.0) h i, v)) x
          ∙ ap (λ f. effects cs f x) (λ i y. p.truth y i)
          ∙ k x))

  abbrev removal : ObjectDefinition → ObjectModificationCommand V
  removal o = delete_object o.kind o.name

  no_creations : (os : List ObjectDefinition) → All (λ o. is_open (removal o) ≡ false) os
  no_creations [] = tt
  no_creations (o ∷ os) = (refl, no_creations os)

  pub deleted_lem :
      (os : List ObjectDefinition) (e : Existing)
      → Triple (Q e e) (delete_objects api os) (λ u. Q (marked true os e) (marked true os e))
  unfolding delete_objects
  deleted_lem os e =
      triple_bind (Q e e) (Made e e (marked true os e))
        (λ u. Q (marked true os e) (marked true os e))
        (commands_for api true (λ o. delete_object o.kind o.name) os)
        (λ cs. call api (api.apply_batched_changes cs))
        (looped true (λ o. delete_object o.kind o.name) (unfold effect in λ o w. refl) os
          (no_creations os) e e)
        (λ cs s u t. sent_lem e (marked true os e) cs s u t)

  pub created_lem :
      (os : List ObjectDefinition) (e : Existing)
      → All HasLocal os
      → Triple (Q e e) (create_objects api os) (λ u. Q (marked false os e) (marked false os e))
  unfolding create_objects
  created_lem os e g =
      triple_bind (Q e e) (Made e e (marked false os e))
        (λ u. Q (marked false os e) (marked false os e))
        (commands_for api false (λ o. create_object o.kind o.name) os)
        (λ cs. call api (api.apply_batched_changes cs))
        (looped false (λ o. create_object o.kind o.name) (unfold effect in λ o w. refl) os g e e)
        (λ cs s u t. sent_lem e (marked false os e) cs s u t)
