-- ===== src/Cli/Path.antt =====
-- src/deska/cli/ContextStack.cpp: names of nested objects as paths, `pathToVector` and
-- `vectorToPath`. The grammar is read as a recursive descent: alternatives in order, repetitions as
-- long as they go, white space skipped before each token.
mod Groups
mod RoundTrip
pub mod Context
mod Tests
use deska.Base.{
  ℕ, zero, suc, Bool, true, false, ◌&&◌, ◌||◌, Option, none, some, List, [], ◌∷◌, ◌++◌, leb, ◌==◌,
  if◌then◌else◌, length, ◌≡◌, refl,
}
use deska.Base.Text.{Text, codes, is_empty}

-- `ascii::alnum | '_'`
unfoldable pub is_word : ℕ → Bool
is_word c =
    leb b'0' c && leb c b'9'
    || (leb b'A' c && leb c b'Z' || (leb b'a' c && leb c b'z' || c == b'_'))

abbrev pub is_dash : ℕ → Bool
is_dash c = c == b'-'

-- `ascii::space`
abbrev pub is_space : ℕ → Bool
is_space c = c == 32 || leb 9 c && leb c 13

-- The longest prefix of characters that pass, and the rest.
unfoldable pub span : (ℕ → Bool) → Text → Text × Text
span p [] = ([], [])
span p (c ∷ s) = if p c then (c ∷ (span p s).0, (span p s).1) else ([], c ∷ s)

unfoldable pub skip : Text → Text
unfolding span
skip s = (span is_space s).1

-- `*lit('-') >> +(alnum | '_')`
unfoldable pub group : Text → Option (Text × Text)
unfolding span is_word
group s =
    let dashes = span is_dash s in
    let word = span is_word dashes.1 in
    if is_empty word.0 then none else some (dashes.0 ++ word.0, word.1)

-- More groups, as long as they go; each takes a character at least, so the length is enough fuel.
unfoldable pub groups : ℕ → Text → Text → Text × Text
groups zero taken s = (taken, s)
groups (suc fuel) taken s = elim (group s) [
  | none ↦ (taken, s)
  | some (g, rest) ↦ groups fuel (taken ++ g) rest
]

-- `tIdentifier`
unfoldable pub identifier : Text → Option (Text × Text)
identifier s = elim (group (skip s)) [
  | none ↦ none
  | some (g, rest) ↦ some (groups (length rest) g rest)
]

unfoldable pub arrow : Text → Option Text
arrow (d ∷ g ∷ s) = if d == b'-' && g == b'>' then some s else none
arrow _ = none

-- The further elements of `tIdentifier % "->"`; an arrow with no identifier behind it is given back.
unfoldable pub more_identifiers : ℕ → Text → List Text × Text
more_identifiers zero s = ([], s)
more_identifiers (suc fuel) s = elim (arrow (skip s)) [
  | none ↦ ([], s)
  | some after ↦ elim (identifier after) [
    | none ↦ ([], s)
    | some (i, rest) ↦ let tail = more_identifiers fuel rest in (i ∷ tail.0, tail.1)
  ]
]

-- `none` is the ContextStackConversionError.
unfoldable pub path_to_vector : Text → Option (List Text)
path_to_vector path = elim (identifier path) [
  | none ↦ none
  | some (i, rest) ↦
      let more = more_identifiers (length rest) rest in
      let left = skip more.1 in
      if is_empty left then some (i ∷ more.0) else elim (arrow left) [
        | none ↦ none
        | some after ↦ if is_empty (skip after) then some (i ∷ (more.0 ++ [] ∷ [])) else none
      ]
]

unfoldable pub vector_to_path : List Text → Text
vector_to_path [] = []
vector_to_path (i ∷ []) = i
vector_to_path (i ∷ j ∷ r) = i ++ (codes "->" ++ vector_to_path (j ∷ r))

path_of_three :
    path_to_vector (codes " a-b -> c->d_1 ") ≡ some (codes "a-b" ∷ codes "c" ∷ codes "d_1" ∷ [])
unfolding path_to_vector more_identifiers identifier arrow skip groups group
path_of_three = refl

path_open : path_to_vector (codes "a->") ≡ some (codes "a" ∷ [] ∷ [])
unfolding path_to_vector more_identifiers identifier arrow skip groups group
path_open = refl

path_errors : (path_to_vector [] ≡ none) × (path_to_vector (codes "a->b-->c") ≡ none)
unfolding path_to_vector more_identifiers identifier arrow skip groups group
path_errors = (refl, refl)
