-- ===== src/Cli/Relations/Answers.antt =====
-- The answers against the relations of the scheme.
use deska.Base.{
  Bool, true, false, ◌&&◌, ◌||◌, List, [], ◌∷◌, ◌++◌, if◌then◌else◌, ◌≡◌, refl, ap, sym, ◌∙◌, arith,
  append-nil, append_assoc,
}
use deska.Base.Text.{Text, text_eq, text_eq_iff}
use deska.Base.Dict.{Dict, find, find-insert, text_ord}
use deska.Db.Objects.{ObjectRelation, ObjectRelationKind, relation_containable, relation_contains}
use deska.Cli.Relations.{
  Relations, no_relations, entry, push, add_relation, add_relations, is_embed, note_kind,
  read_kinds, db_interaction, has, readonly_attribute,
}

-- A relation by which its column is read-only: one side or the other of a containment.
abbrev pub is_containment : ObjectRelationKind → Bool
is_containment relation_containable = true
is_containment relation_contains = true
is_containment _ = false

abbrev pub has_column : List ObjectRelation → Text → Bool
has_column [] a = false
has_column (r ∷ rs) a = is_containment r.kind && text_eq r.column a || has_column rs a

-- The kind has, in one of its entries, a containment at the column.
abbrev pub any_containment : List (Text × List ObjectRelation) → Text → Text → Bool
any_containment [] k a = false
any_containment ((j, rs) ∷ kinds) k a = text_eq k j && has_column rs a || any_containment kinds k a

has-append : (xs : List Text) (v a : Text) → has (xs ++ v ∷ []) a ≡ (has xs a || text_eq v a)
has-append [] v a = ground arith
has-append (x ∷ xs) v a = ground (arith, has-append xs v a)

has-push :
    (j v k a : Text) (m : Dict Text (List Text))
    → has (entry (push j v m) k) a ≡ (has (entry m k) a || (text_eq k j && text_eq v a))
has-push j v k a m =
    ground
      (arith, find-insert k j (entry m j ++ v ∷ []) m, has-append (entry m j) v a, text_eq_iff k j)

one-readonly_attribute :
    (j : Text) (r : ObjectRelation) (s : Relations) (k a : Text)
    → readonly_attribute (add_relation j r s) k a
      ≡ (readonly_attribute s k a || (text_eq k j && (is_containment r.kind && text_eq r.column a)))
unfolding readonly_attribute add_relation
one-readonly_attribute j r s k a = ground (arith, has-push j r.column k a s.readonly_attributes)

distributed : (x t b c : Bool) → ((x || (t && b)) || (t && c)) ≡ (x || (t && (b || c)))
distributed x t b c = ground arith

or_assoc : (x y z : Bool) → ((x || y) || z) ≡ (x || (y || z))
or_assoc x y z = ground arith

relations_step :
    (j : Text) (r : ObjectRelation) (rs : List ObjectRelation) (e : Bool) (s : Relations)
    (k a : Text)
    → readonly_attribute (add_relations j rs (e || is_embed r.kind) (add_relation j r s)).1 k a
      ≡ (readonly_attribute (add_relation j r s) k a || (text_eq k j && has_column rs a))
    → readonly_attribute (add_relations j (r ∷ rs) e s).1 k a
      ≡ (readonly_attribute s k a || (text_eq k j && has_column (r ∷ rs) a))
unfolding add_relations
relations_step j r rs e s k a h =
    h
    ∙ rw (one-readonly_attribute j r s k a) (
        distributed (readonly_attribute s k a) (text_eq k j)
          (is_containment r.kind && text_eq r.column a) (has_column rs a))

many-readonly_attribute :
    (j : Text) (rs : List ObjectRelation) (e : Bool) (s : Relations) (k a : Text)
    → readonly_attribute (add_relations j rs e s).1 k a
      ≡ (readonly_attribute s k a || (text_eq k j && has_column rs a))
many-readonly_attribute j [] e s k a = unfold add_relations in ground arith
many-readonly_attribute j (r ∷ rs) e s k a =
    relations_step j r rs e s k a
      (many-readonly_attribute j rs (e || is_embed r.kind) (add_relation j r s) k a)

noted-readonly_attribute :
    (j : Text) (p : Bool × Relations) (k a : Text)
    → readonly_attribute (note_kind j p) k a ≡ readonly_attribute p.1 k a
unfolding readonly_attribute
noted-readonly_attribute j (true, s) k a = refl
noted-readonly_attribute j (false, s) k a = refl

kinds_step :
    (j : Text) (rs : List ObjectRelation) (kinds : List (Text × List ObjectRelation))
    (s : Relations) (k a : Text)
    → readonly_attribute (read_kinds kinds (note_kind j (add_relations j rs false s))) k a ≡ (
        readonly_attribute (note_kind j (add_relations j rs false s)) k a
        || any_containment kinds k a)
    → readonly_attribute (read_kinds ((j, rs) ∷ kinds) s) k a
      ≡ (readonly_attribute s k a || any_containment ((j, rs) ∷ kinds) k a)
unfolding read_kinds
kinds_step j rs kinds s k a h =
    h
    ∙ rw (noted-readonly_attribute j (add_relations j rs false s) k a) (
        rw (many-readonly_attribute j rs false s k a) (
          or_assoc (readonly_attribute s k a) (text_eq k j && has_column rs a)
            (any_containment kinds k a)))

read-readonly_attribute :
    (kinds : List (Text × List ObjectRelation)) (s : Relations) (k a : Text)
    → readonly_attribute (read_kinds kinds s) k a
      ≡ (readonly_attribute s k a || any_containment kinds k a)
read-readonly_attribute [] s k a = unfold read_kinds in ground arith
read-readonly_attribute ((j, rs) ∷ kinds) s k a =
    kinds_step j rs kinds s k a
      (read-readonly_attribute kinds (note_kind j (add_relations j rs false s)) k a)

nothing_readonly :
    (kinds : List (Text × List ObjectRelation)) (k a : Text)
    → (readonly_attribute no_relations k a || any_containment kinds k a) ≡ any_containment kinds k a
unfolding readonly_attribute find
nothing_readonly kinds k a = refl

-- An attribute of a kind is read-only exactly when the kind has a relation of type contains or
-- containable in that column.
pub db_interaction-readonly_attribute :
    (kinds : List (Text × List ObjectRelation)) (k a : Text)
    → readonly_attribute (db_interaction kinds) k a ≡ any_containment kinds k a
unfolding db_interaction
db_interaction-readonly_attribute kinds k a =
    read-readonly_attribute kinds no_relations k a ∙ nothing_readonly kinds k a

-- The kinds with no embedding, in their order.
abbrev pub any_embed : List ObjectRelation → Bool
any_embed [] = false
any_embed (r ∷ rs) = is_embed r.kind || any_embed rs

abbrev pub top_level : List (Text × List ObjectRelation) → List Text
top_level [] = []
top_level ((k, rs) ∷ kinds) = let rest = top_level kinds in if any_embed rs then rest else k ∷ rest

one-top :
    (j : Text) (r : ObjectRelation) (s : Relations)
    → (add_relation j r s).pure_top_level_kinds ≡ s.pure_top_level_kinds
unfolding add_relation
one-top j r s = ground arith

top_step :
    (j : Text) (r : ObjectRelation) (rs : List ObjectRelation) (e : Bool) (s : Relations)
    → ((add_relations j rs (e || is_embed r.kind) (add_relation j r s)).0
        ≡ ((e || is_embed r.kind) || any_embed rs))
      × ((add_relations j rs (e || is_embed r.kind) (add_relation j r s)).1.pure_top_level_kinds
          ≡ (add_relation j r s).pure_top_level_kinds)
    → ((add_relations j (r ∷ rs) e s).0 ≡ (e || any_embed (r ∷ rs)))
      × ((add_relations j (r ∷ rs) e s).1.pure_top_level_kinds ≡ s.pure_top_level_kinds)
unfolding add_relations
top_step j r rs e s h = (h.0 ∙ or_assoc e (is_embed r.kind) (any_embed rs), h.1 ∙ one-top j r s)

many-top :
    (j : Text) (rs : List ObjectRelation) (e : Bool) (s : Relations)
    → ((add_relations j rs e s).0 ≡ (e || any_embed rs))
      × ((add_relations j rs e s).1.pure_top_level_kinds ≡ s.pure_top_level_kinds)
many-top j [] e s = unfold add_relations in (ground arith, refl)
many-top j (r ∷ rs) e s =
    top_step j r rs e s (many-top j rs (e || is_embed r.kind) (add_relation j r s))

noted-top :
    (j : Text) (p : Bool × Relations)
    → (note_kind j p).pure_top_level_kinds
      ≡ (if p.0 then p.1.pure_top_level_kinds else p.1.pure_top_level_kinds ++ j ∷ [])
noted-top j (true, s) = refl
noted-top j (false, s) = refl

if_append :
    (b : Bool) (xs ys : List Text) (j : Text)
    → (if b then xs else xs ++ j ∷ []) ++ ys ≡ xs ++ (if b then ys else j ∷ ys)
if_append true xs ys j = refl
if_append false xs ys j = append_assoc xs (j ∷ []) ys

read_top_step :
    (j : Text) (rs : List ObjectRelation) (kinds : List (Text × List ObjectRelation))
    (s : Relations)
    → (read_kinds kinds (note_kind j (add_relations j rs false s))).pure_top_level_kinds
      ≡ (note_kind j (add_relations j rs false s)).pure_top_level_kinds ++ top_level kinds
    → (read_kinds ((j, rs) ∷ kinds) s).pure_top_level_kinds
      ≡ s.pure_top_level_kinds ++ top_level ((j, rs) ∷ kinds)
unfolding read_kinds
read_top_step j rs kinds s h =
    let (flag, kept) = many-top j rs false s in
    h
    ∙ ap (λ xs. xs ++ top_level kinds) (noted-top j (add_relations j rs false s))
    ∙ rw flag (rw kept (if_append (any_embed rs) s.pure_top_level_kinds (top_level kinds) j))

read-top :
    (kinds : List (Text × List ObjectRelation)) (s : Relations)
    → (read_kinds kinds s).pure_top_level_kinds ≡ s.pure_top_level_kinds ++ top_level kinds
read-top [] s = unfold read_kinds in sym (append-nil s.pure_top_level_kinds)
read-top ((j, rs) ∷ kinds) s =
    read_top_step j rs kinds s (read-top kinds (note_kind j (add_relations j rs false s)))

-- The pure top-level kinds are the kinds that are embedded into none, in the order of the scheme.
pub db_interaction-top_level :
    (kinds : List (Text × List ObjectRelation))
    → (db_interaction kinds).pure_top_level_kinds ≡ top_level kinds
unfolding db_interaction
db_interaction-top_level kinds = read-top kinds no_relations
