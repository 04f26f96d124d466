-- ===== src/Cli/Path/RoundTrip.antt =====
-- Printing the names of nested objects as a path and parsing the path.
use deska.Base.{
  ℕ, zero, suc, ◌+◌, ◌≤◌, Bool, true, false, some, List, [], ◌∷◌, ◌++◌, length, ◌≡◌, refl, ap, ◌∙◌,
  arith, map, append-nil,
}
use deska.Base.Text.{Text, codes}
use deska.Cli.Path.{
  is_word, span, skip, group, identifier, arrow, more_identifiers, path_to_vector, vector_to_path,
}
use deska.Cli.Path.Groups.{
  Group, IsGroup, AllGroups, group_text, groups_text, groups_text-append, group_text-append,
  groups-text, group-text, StopsIdentifier, dashes, groups_text-StopsWord,
}

-- A name as the grammar reads it: words, with dashes between them and before the first.
pub record Name : Type 0 where
  pub head : Group
  pub more : List Group

abbrev pub IsName : Name → Type 0
IsName i = IsGroup i.head × AllGroups i.more

abbrev pub AllNames : List Name → Type 0
AllNames [] = Unit
AllNames (i ∷ r) = IsName i × AllNames r

-- The text of a name, before a rest.
abbrev pub name_text : Name → Text → Text
name_text i rest = group_text i.head (groups_text i.more rest)

abbrev pub name_of : Name → Text
name_of i = name_text i []

-- What ends a path: nothing, or an arrow with no name behind it.
abbrev pub ending : Bool → Text
ending false = []
ending true = codes "->"

abbrev pub last_name : Bool → List Text
last_name false = []
last_name true = [] ∷ []

abbrev rest_text : List Name → Text → Text
rest_text [] end = end
rest_text (i ∷ r) end = b'-' ∷ b'>' ∷ name_text i (rest_text r end)

skip-word : (n c : ℕ) (s : Text) → is_word c ≡ true → skip (dashes n (c ∷ s)) ≡ dashes n (c ∷ s)
unfolding skip span is_word
skip-word zero c s h = ground arith
skip-word (suc n) c s h = refl

length-dashes : (n : ℕ) (c : ℕ) (s : Text) → suc (length s) ≤ length (dashes n (c ∷ s))
length-dashes zero c s = omega arith
length-dashes (suc n) c s = omega (arith, length-dashes n c s)

length-word : (w s : Text) → length s ≤ length (w ++ s)
length-word [] s = omega arith
length-word (c ∷ w) s = omega (arith, length-word w s)

length-group : (g : Group) (s : Text) → suc (length s) ≤ length (group_text g s)
length-group g s = omega (arith, length-dashes g.lead g.first (g.word ++ s), length-word g.word s)

length-groups : (gs : List Group) (s : Text) → length gs + length s ≤ length (groups_text gs s)
length-groups [] s = omega arith
length-groups (g ∷ gs) s = omega (arith, length-groups gs s, length-group g (groups_text gs s))

identifier-text :
    (i : Name) (rest : Text)
    → IsName i
    → StopsIdentifier rest
    → identifier (name_text i rest) ≡ some (name_of i, rest)
unfolding identifier
identifier-text i rest h e =
    rw
      (
        skip-word i.head.lead i.head.first (i.head.word ++ groups_text i.more rest) h.0.0,
        identifier,
      )
      (rw
        (group-text i.head (groups_text i.more rest) h.0
          (groups_text-StopsWord i.more rest h.1 e.0))
        (rw
          (groups-text (length (groups_text i.more rest)) i.more (group_text i.head []) rest
            (omega (arith, length-groups i.more rest)) h.1 e)
          (rw (group_text-append i.head [] (groups_text i.more [])) refl)))

arrow_stops : (s : Text) → StopsIdentifier (b'-' ∷ b'>' ∷ s)
unfolding group is_word span
arrow_stops s = (refl, refl)

rest_stops : (r : List Name) (unfinished : Bool) → StopsIdentifier (rest_text r (ending unfinished))
unfolding group is_word span
rest_stops [] false = (tt, refl)
rest_stops [] true = (refl, refl)
rest_stops (i ∷ r) unfinished = arrow_stops (name_text i (rest_text r (ending unfinished)))

length-rest : (r : List Name) (end : Text) → length r ≤ length (rest_text r end)
length-rest [] end = omega arith
length-rest (i ∷ r) end = omega (
  arith,
  length-rest r end,
  length-groups i.more (rest_text r end),
  length-group i.head (groups_text i.more (rest_text r end)),
)

more-ending :
    (fuel : ℕ) (unfinished : Bool)
    → more_identifiers fuel (ending unfinished) ≡ ([], ending unfinished)
unfolding more_identifiers arrow skip span identifier group
more-ending zero unfinished = refl
more-ending (suc fuel) false = refl
more-ending (suc fuel) true = refl

arrow-skip : (s : Text) → arrow (skip (b'-' ∷ b'>' ∷ s)) ≡ some s
unfolding arrow skip span
arrow-skip s = refl

more_step :
    (fuel : ℕ) (s i rest : Text)
    → identifier s ≡ some (i, rest)
    → more_identifiers (suc fuel) (b'-' ∷ b'>' ∷ s)
      ≡ (i ∷ (more_identifiers fuel rest).0, (more_identifiers fuel rest).1)
unfolding more_identifiers
more_step fuel s i rest h = rw (arrow-skip s, more_identifiers) (rw (h, more_identifiers))

more-text :
    (fuel : ℕ) (r : List Name) (unfinished : Bool)
    → length r ≤ fuel
    → AllNames r
    → more_identifiers fuel (rest_text r (ending unfinished)) ≡ (map name_of r, ending unfinished)
more-text fuel [] unfinished l h = more-ending fuel unfinished
more-text zero (i ∷ r) unfinished l h = absurd (omega arith)
more-text (suc fuel) (i ∷ r) unfinished l h =
    more_step fuel (name_text i (rest_text r (ending unfinished))) (name_of i)
      (rest_text r (ending unfinished))
      (identifier-text i (rest_text r (ending unfinished)) h.0 (rest_stops r unfinished))
    ∙ ap (λ m. (name_of i ∷ m.0, m.1)) (more-text fuel r unfinished (omega arith) h.1)

parsed :
    (s i rest : Text) (names : List Text) (unfinished : Bool)
    → identifier s ≡ some (i, rest)
    → more_identifiers (length rest) rest ≡ (names, ending unfinished)
    → path_to_vector s ≡ some (i ∷ (names ++ last_name unfinished))
unfolding path_to_vector skip span arrow
parsed s i rest names false h m = rw (h, path_to_vector) (rw m (rw append-nil refl))
parsed s i rest names true h m = rw (h, path_to_vector) (rw m (rw m refl))

name_text-append : (i : Name) (s : Text) → name_of i ++ s ≡ name_text i s
name_text-append i s =
    group_text-append i.head (groups_text i.more []) s
    ∙ ap (group_text i.head) (groups_text-append i.more s)

vector_step :
    (i j : Text) (r : List Text)
    → vector_to_path (i ∷ j ∷ r) ≡ i ++ (codes "->" ++ vector_to_path (j ∷ r))
unfolding vector_to_path
vector_step i j r = refl

printed :
    (i : Name) (r : List Name) (unfinished : Bool)
    → vector_to_path (name_of i ∷ (map name_of r ++ last_name unfinished))
      ≡ name_text i (rest_text r (ending unfinished))
printed i [] false = unfold vector_to_path in refl
printed i [] true = unfold vector_to_path in name_text-append i (codes "->")
printed i (j ∷ r) unfinished =
    vector_step (name_of i) (name_of j) (map name_of r ++ last_name unfinished)
    ∙ ap (λ s. name_of i ++ (codes "->" ++ s)) (printed j r unfinished)
    ∙ name_text-append i (b'-' ∷ b'>' ∷ name_text j (rest_text r (ending unfinished)))

-- Parsing the path that is printed for some names, one at least, gives the names back, also when an
-- empty name stands behind the last one (`last_name true`). Each name is made of letters, digits,
-- underscores and dashes and does not end in a dash.
pub path_to_vector-vector_to_path :
    (i : Name) (r : List Name) (unfinished : Bool)
    → IsName i
    → AllNames r
    → path_to_vector (vector_to_path (name_of i ∷ (map name_of r ++ last_name unfinished)))
      ≡ some (name_of i ∷ (map name_of r ++ last_name unfinished))
path_to_vector-vector_to_path i r unfinished hi hr =
    ap path_to_vector (printed i r unfinished)
    ∙ parsed (name_text i (rest_text r (ending unfinished))) (name_of i)
        (rest_text r (ending unfinished)) (map name_of r) unfinished
        (identifier-text i (rest_text r (ending unfinished)) hi (rest_stops r unfinished))
        (more-text (length (rest_text r (ending unfinished))) r unfinished
          (length-rest r (ending unfinished)) hr)
