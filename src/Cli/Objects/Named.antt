-- ===== src/Cli/Objects/Named.antt =====
-- What the searches keep of the relations, and the names that the server gives.
use deska.Base.{
  Bool, true, false, Option, none, some, List, [], ◌∷◌, if◌then◌else◌, ◌≡◌, refl, ap, sym, ◌∙◌,
  subst,
}
use deska.Base.Text.{Text, text_eq, text_eq_iff}
use deska.Base.Dict.{Dict, find, insert, find-insert, text_ord}
use deska.Db.Exec.{ok, ◌>>=◌, pure, >>=-eq-ok, pure-eq-ok}
use deska.Db.Filter.{Filter}
use deska.Cli.Diff.Converters.{ObjectDefinition}
use deska.Cli.Relations.{Relations, entry, touch}
use deska.Cli.Session.Triples.{Triple}
use deska.Cli.Objects.State.{ObjectsApi, State, call, store, note, touch_embeds}
use deska.Cli.Objects.Exists.{instances, note_all}
use deska.Cli.Objects.Expand.{filter_on_name}
use deska.Cli.Objects.Expanded.{OfKind, instances_lem}
use deska.Cli.Objects.Laws.{of_names}

abbrev or_entry : {V : Type 0} → Option (List V) → List V
or_entry c = elim c [ none ↦ [] | some vs ↦ vs ]

entry-touch : {V : Type 0} (k j : Text) (m : Dict Text (List V)) → entry (touch k m) j ≡ entry m j
entry-touch {V} k j m = by_entry (find k m) refl
  where
    by_key :
        (b : Bool)
        → text_eq j k ≡ b
        → find k m ≡ none
        → or_entry (if b then some [] else find j m) ≡ entry m j
    by_key true q h = sym (ap (λ c. or_entry c) (ap (λ x. find x m) ((text_eq_iff j k).0 q) ∙ h))
    by_key false q h = refl

    by_entry :
        (c : Option (List V))
        → find k m ≡ c
        → entry (elim c [ none ↦ insert k [] m | some vs ↦ m ]) j ≡ entry m j
    by_entry none h = ap (λ c. or_entry c) (find-insert j k [] m) ∙ by_key (text_eq j k) refl h
    by_entry (some vs) h = refl

module _ {V : Type 0} (api : ObjectsApi V) (text : Text → V) (r : Relations) where
  filter_on_name-same :
      (v : Relations) (k n : Text)
      → v.embedded_into ≡ r.embedded_into
      → filter_on_name text v k n ≡ filter_on_name text r k n
  unfolding filter_on_name
  filter_on_name-same v k n h = rw h refl

  -- The relations are those of `r`, but for empty entries.
  pub record IsSame (v : Relations) : Type 0 where
    pub into : v.embedded_into ≡ r.embedded_into
    pub embeds : (k : Text) → entry v.embeds k ≡ entry r.embeds k

  abbrev pub R : State api → Type 0
  R s = IsSame s.relations

  pub R-filter :
      (s : State api)
      → R s
      → (k n : Text) → filter_on_name text s.relations k n ≡ filter_on_name text r k n
  R-filter s h k n = filter_on_name-same s.relations k n h.into

  pub R-touched : (k : Text) (s : State api) → R s → R (touch_embeds api k s)
  R-touched k s h = record {
    into = h.into;
    embeds = λ j. entry-touch k j s.relations.embeds ∙ h.embeds j;
  }

  pub R-note : (o : ObjectDefinition) (b : Bool) → Triple R (note api o b) (λ u. R)
  unfolding note
  R-note o b s u t p h = by_view s.stable_view (ap (λ z. z.1.relations) h)
    where
      by_view :
          (c : Bool)
          → (if c then store api o b s else s).relations ≡ t.relations
          → IsSame t.relations
      by_view true q = subst IsSame q p
      by_view false q = subst IsSame q p

  pub R-called :
      (k : Text) (f : Option (Filter V)) → Triple R (call api (api.kind_instances k f)) (λ ns. R)
  R-called k f s ns t p h = subst IsSame (ap (λ z. z.1.relations) h) p

  pub R-named :
      (k : Text) (f : Option (Filter V)) → Triple R (instances api k f) (λ os s. R s × OfKind k os)
  R-named k f =
      instances_lem api (λ ns. R) k f R (R-called k f)
        (λ n ns. R-note (record { kind = k; name = n }) true)

module _ {V : Type 0} (api : ObjectsApi V) where
  -- the loop answers the names that the server has given
  note_all-of_names :
      (k : Text) (ns : List Text) (s : State api) (os : List ObjectDefinition) (t : State api)
      → note_all api k ns s ≡ (ok os, t)
      → os ≡ of_names k ns
  unfolding note_all
  note_all-of_names k [] s os t h = (pure-eq-ok [] s h).0
  note_all-of_names k (n ∷ ns) s os t h =
      let o : ObjectDefinition = record { kind = k; name = n } in
      let (u, v, noted, others) =
        >>=-eq-ok (note api o true) (λ u. note_all api k ns >>= λ l. pure (o ∷ l)) s h in
      let (rest, w, found, last) = >>=-eq-ok (note_all api k ns) (λ l. pure (o ∷ l)) v others in
      (pure-eq-ok (o ∷ rest) w last).0 ∙ ap (λ l. o ∷ l) (note_all-of_names k ns v rest w found)

  pub instances-of_names :
      (k : Text) (f : Option (Filter V)) (s : State api) (os : List ObjectDefinition)
      (t : State api)
      → instances api k f s ≡ (ok os, t)
      → (ns : List Text) × (v : State api) × (call api (api.kind_instances k f) s ≡ (ok ns, v))
        × (os ≡ of_names k ns)
  unfolding instances
  instances-of_names k f s os t h =
      let (ns, v, called, noted) =
        >>=-eq-ok (call api (api.kind_instances k f)) (note_all api k) s h in
      (ns, v, called, note_all-of_names k ns v os t noted)
