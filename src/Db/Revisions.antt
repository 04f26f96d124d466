-- ===== src/Db/Revisions.antt =====
-- src/deska/db/Revisions.h, Revisions.cpp: the ids of revisions and of changesets.
use deska.Base.{ℕ, zero, suc, Option, none, some, [], ◌∷◌, ◌==◌, if◌then◌else◌}
use deska.Base.Text.{Text, codes}

-- `boost::starts_with` and `str.substr(prefix.size())`
abbrev pub strip_prefix : Text → Text → Option Text
strip_prefix [] s = some s
strip_prefix (p ∷ ps) [] = none
strip_prefix (p ∷ ps) (c ∷ s) = if p == c then strip_prefix ps s else none

-- The constructors throw at 0, which is `none`.
unfoldable pub checked_id : ℕ → Option ℕ
checked_id zero = none
checked_id (suc n) = some (suc n)

-- `lexical_cast` is `boost::lexical_cast<unsigned int>`, with `none` for bad_lexical_cast.
module _ (lexical_cast : Text → Option ℕ) where
  unfoldable pub extract_revision_from_json : Text → Text → Option ℕ
  unfolding checked_id
  extract_revision_from_json prefix str = elim (strip_prefix prefix str) [
    | none ↦ none
    | some digits ↦ elim (lexical_cast digits) [ none ↦ none | some n ↦ checked_id n ]
  ]

  unfoldable pub revision_from_string : Text → Option ℕ
  unfolding extract_revision_from_json
  revision_from_string s = extract_revision_from_json (codes "r") s

  unfoldable pub changeset_from_string : Text → Option ℕ
  unfolding extract_revision_from_json
  changeset_from_string s = extract_revision_from_json (codes "tmp") s
