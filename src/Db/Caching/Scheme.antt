-- ===== src/Db/Caching/Scheme.antt =====
-- A server with a scheme, and what the cache answers of it.
use deska.Base.{
  All, Bool, true, false, some, List, [], ◌∷◌, ◌≡◌, refl, arith, if◌then◌else◌, ◌||◌, ◌∙◌, sym, ap,
  subst,
}
use deska.Base.Text.{Text, text_eq, text_eq_iff, text_compare_eq}
use deska.Base.Dict.{text_ord, find, insert, find-insert}
use deska.Db.Objects.{KindAttributeDataType, ObjectRelation}
use deska.Db.Exec.{Result, ok}
use deska.Db.Caching.Api.{JsonApi}
use deska.Db.Caching.State.{State, fresh}
use deska.Db.Caching.Metadata.{
  ask_each, ask_for_metadata, kind_attributes_cached, kind_relations_cached,
}

abbrev pub elem : Text → List Text → Bool
elem k [] = false
elem k (j ∷ js) = text_eq k j || elem k js

elem-more :
    (j : Text) (js ks : List Text)
    → All (λ k. elem k js ≡ true) ks
    → All (λ k. elem k (j ∷ js) ≡ true) ks
elem-more j js [] h = tt
elem-more j js (k ∷ ks) (h, hs) = (rw h (by_test (text_eq k j)), elem-more j js ks hs)
  where
    by_test : (b : Bool) → (b || true) ≡ true
    by_test true = refl
    by_test false = refl

elem-itself : (ks : List Text) → All (λ k. elem k ks ≡ true) ks
elem-itself [] = tt
elem-itself (k ∷ ks) = (rw ((text_eq_iff k k).1 refl) refl, elem-more k ks ks (elem-itself ks))

module _ {V : Type 0} (api : JsonApi V) where
  -- A server that answers the three questions about its scheme, for the kinds that it names, and is not changed by them.
  pub record HasScheme (names : List Text) (attrs : Text → List KindAttributeDataType)
      (relations : Text → List ObjectRelation) : Type 0 where
    pub on_names : (t : api.Server) → api.kind_names t ≡ (ok names, t)
    pub on_attrs :
        (k : Text) (t : api.Server)
        → elem k names ≡ true
        → api.kind_attributes k t ≡ (ok (attrs k), t)
    pub on_relations :
        (k : Text) (t : api.Server)
        → elem k names ≡ true
        → api.kind_relations k t ≡ (ok (relations k), t)

module _ {V : Type 0} (api : JsonApi V) (names : List Text)
    (attrs : Text → List KindAttributeDataType) (relations : Text → List ObjectRelation)
    (scheme : HasScheme api names attrs relations) where
  -- one round of the loop
  asked : Text → State api → State api
  asked k s = record s {
    cache = record {
      attrs = insert k (attrs k) s.cache.attrs;
      relations = insert k (relations k) s.cache.relations;
    };
  }

  abbrev Named : Text → Type 0
  Named k = elem k names ≡ true

  ask_each-cons :
      (k : Text) (ks : List Text) (s : State api)
      → Named k
      → ask_each api (k ∷ ks) s ≡ ask_each api ks (asked k s)
  unfolding ask_each asked
  ask_each-cons k ks s h = rw (scheme.on_attrs k s.server h) (rw (scheme.on_relations k s.server h))

  server-asked : (k : Text) (s : State api) → (asked k s).server ≡ s.server
  unfolding asked
  server-asked k s = refl

  find-asked_attrs :
      (k j : Text) (s : State api)
      → find k (asked j s).cache.attrs
        ≡ (if text_eq k j then some (attrs k) else find k s.cache.attrs)
  unfolding asked
  find-asked_attrs k j s =
      ground (arith, find-insert k j (attrs j) s.cache.attrs, text_compare_eq k j)

  find-asked_relations :
      (k j : Text) (s : State api)
      → find k (asked j s).cache.relations
        ≡ (if text_eq k j then some (relations k) else find k s.cache.relations)
  unfolding asked
  find-asked_relations k j s =
      ground (arith, find-insert k j (relations j) s.cache.relations, text_compare_eq k j)

  find-ask_each_attrs :
      (k : Text) (ks : List Text) (s : State api)
      → All Named ks
      → find k (ask_each api ks s).1.cache.attrs
        ≡ (if elem k ks then some (attrs k) else find k s.cache.attrs)
  find-ask_each_attrs k [] s g = unfold ask_each in refl
  find-ask_each_attrs k (j ∷ ks) s (g, gs) =
      rw (ask_each-cons j ks s g)
        (rw (find-ask_each_attrs k ks (asked j s) gs) (rw find-asked_attrs (ground arith)))

  find-ask_each_relations :
      (k : Text) (ks : List Text) (s : State api)
      → All Named ks
      → find k (ask_each api ks s).1.cache.relations
        ≡ (if elem k ks then some (relations k) else find k s.cache.relations)
  find-ask_each_relations k [] s g = unfold ask_each in refl
  find-ask_each_relations k (j ∷ ks) s (g, gs) =
      rw (ask_each-cons j ks s g)
        (rw (find-ask_each_relations k ks (asked j s) gs) (rw find-asked_relations (ground arith)))

  ask_each-ok :
      (ks : List Text) (s : State api)
      → All Named ks
      → ((ask_each api ks s).0 ≡ ok tt) × ((ask_each api ks s).1.server ≡ s.server)
  ask_each-ok [] s g = unfold ask_each in (refl, refl)
  ask_each-ok (j ∷ ks) s (g, gs) =
      let (done, same) = ask_each-ok ks (asked j s) gs in
      rw (ask_each-cons j ks s g) (done, same ∙ server-asked j s)

  -- the state after the first question
  learned : api.Server → State api
  learned t = record ((ask_each api names (fresh t)).1) { asked_for_metadata = true }

  ask_for_metadata-fresh : (t : api.Server) → ask_for_metadata api (fresh t) ≡ (ok tt, learned t)
  unfolding ask_for_metadata learned
  ask_for_metadata-fresh t =
      ground (arith, scheme.on_names t, ask_each-ok names (fresh t) (elem-itself names))

  -- A second question asks the server nothing: the state is left as it is.
  ask_for_metadata-learned :
      (t : api.Server) → ask_for_metadata api (learned t) ≡ (ok tt, learned t)
  unfolding ask_for_metadata learned
  ask_for_metadata-learned t = refl

  -- what the server says of a kind, nothing if it does not name the kind
  abbrev pub known_attributes : Text → List KindAttributeDataType
  known_attributes k = if elem k names then attrs k else []

  abbrev pub known_relations : Text → List ObjectRelation
  known_relations k = if elem k names then relations k else []

  attributes-learned :
      (k : Text) (t : api.Server)
      → kind_attributes_cached api k (learned t) ≡ (ok (known_attributes k), learned t)
  unfolding kind_attributes_cached learned
  attributes-learned k t =
      rw (ask_for_metadata-learned t)
        (rw (find-ask_each_attrs k names (fresh t) (elem-itself names)) (ground arith))

  relations-learned :
      (k : Text) (t : api.Server)
      → kind_relations_cached api k (learned t) ≡ (ok (known_relations k), learned t)
  unfolding kind_relations_cached learned
  relations-learned k t =
      rw (ask_for_metadata-learned t)
        (rw (find-ask_each_relations k names (fresh t) (elem-itself names)) (ground arith))

  -- the first question is the second one after `askForMetadata`
  first_as_second :
      (k : Text) (t : api.Server)
      → (kind_attributes_cached api k (fresh t) ≡ kind_attributes_cached api k (learned t))
        × (kind_relations_cached api k (fresh t) ≡ kind_relations_cached api k (learned t))
  unfolding kind_attributes_cached kind_relations_cached
  first_as_second k t = rw (ask_for_metadata-fresh t, ask_for_metadata-learned t) (refl, refl)

  server-learned : (t : api.Server) → (learned t).server ≡ t
  unfolding learned
  server-learned t = (ask_each-ok names (fresh t) (elem-itself names)).1

  -- The state of a new cache after its first question.
  abbrev pub after_first : api.Server → State api
  after_first t = (ask_for_metadata api (fresh t)).1

  -- the answers, if a first question leaves the state `s`
  abbrev Answers : Text → api.Server → State api → Type 0
  Answers k t s =
      (kind_attributes_cached api k (fresh t) ≡ (ok (known_attributes k), s))
      × (kind_relations_cached api k (fresh t) ≡ (ok (known_relations k), s))
      × (s.server ≡ t)
      × (kind_attributes_cached api k s ≡ (ok (known_attributes k), s))
      × (kind_relations_cached api k s ≡ (ok (known_relations k), s))

  -- A new cache over a server with the scheme `names`, `attrs`, `relations` answers the first
  -- question about the attributes or the relations of a kind as the server does, with an empty list
  -- for a kind that the server does not name, and leaves the server as it was. Every later question
  -- has the same answer and changes nothing at all.
  pub scheme_answers :
      (k : Text) (t : api.Server)
      → (kind_attributes_cached api k (fresh t) ≡ (ok (known_attributes k), after_first t))
        × (kind_relations_cached api k (fresh t) ≡ (ok (known_relations k), after_first t))
        × ((after_first t).server ≡ t)
        × (kind_attributes_cached api k (after_first t) ≡ (ok (known_attributes k), after_first t))
        × (kind_relations_cached api k (after_first t) ≡ (ok (known_relations k), after_first t))
  scheme_answers k t =
      let (first_attrs, first_rels) = first_as_second k t in
      subst (Answers k t)
        (sym (ap (λ (x : Result api.Fault (Unit {0}) × State api). x.1) (ask_for_metadata-fresh t)))
        (
          first_attrs ∙ attributes-learned k t,
          first_rels ∙ relations-learned k t,
          server-learned t,
          attributes-learned k t,
          relations-learned k t,
        )
