-- ===== src/Cli/Path/Groups.antt =====
-- Identifiers, and how far the grammar reads them.
use deska.Base.{
  ℕ, zero, suc, ◌≤◌, true, false, none, some, List, [], ◌∷◌, ◌++◌, length, ◌≡◌, refl, ap, sym, ◌∙◌,
  arith, append-nil, append_assoc,
}
use deska.Base.Text.{Text}
use deska.Cli.Path.{is_word, is_dash, span, group, groups}

abbrev pub AllWord : Text → Type 0
AllWord [] = Unit
AllWord (c ∷ s) = (is_word c ≡ true) × AllWord s

abbrev pub dashes : ℕ → Text → Text
dashes zero s = s
dashes (suc n) s = b'-' ∷ dashes n s

-- Dashes, and a word of one character at least.
pub record Group : Type 0 where
  pub lead : ℕ
  pub first : ℕ
  pub word : Text

abbrev pub IsGroup : Group → Type 0
IsGroup g = (is_word g.first ≡ true) × AllWord g.word

-- The text of groups, before a rest.
abbrev pub group_text : Group → Text → Text
group_text g rest = dashes g.lead (g.first ∷ (g.word ++ rest))

abbrev pub groups_text : List Group → Text → Text
groups_text [] rest = rest
groups_text (g ∷ gs) rest = group_text g (groups_text gs rest)

-- Groups behind the first one begin with a dash, else they would belong to the word before.
abbrev pub AllGroups : List Group → Type 0
AllGroups [] = Unit
AllGroups (g ∷ gs) = IsGroup g × (1 ≤ g.lead) × AllGroups gs

-- What may stand behind a word, and what ends an identifier: nothing, or a dash with no word.
abbrev pub StopsWord : Text → Type 0
StopsWord [] = Unit
StopsWord (c ∷ s) = is_word c ≡ false

span-word : (w rest : Text) → AllWord w → StopsWord rest → span is_word (w ++ rest) ≡ (w, rest)
unfolding span
span-word [] [] h e = refl
span-word [] (c ∷ s) h e = rw e
span-word (c ∷ w) rest h e = rw h.0 (rw (span-word w rest h.1 e))

word-not-dash : (c : ℕ) → is_word c ≡ true → is_dash c ≡ false
unfolding is_word
word-not-dash c h = ground arith

span-dashes :
    (n c : ℕ) (s : Text)
    → is_dash c ≡ false
    → span is_dash (dashes n (c ∷ s)) ≡ (dashes n [], c ∷ s)
unfolding span
span-dashes zero c s h = rw h
span-dashes (suc n) c s h = rw (span-dashes n c s h)

dashes-append : (n : ℕ) (s : Text) → dashes n [] ++ s ≡ dashes n s
dashes-append zero s = refl
dashes-append (suc n) s = ap (λ r. b'-' ∷ r) (dashes-append n s)

dashes-append_text : (n : ℕ) (x s : Text) → dashes n x ++ s ≡ dashes n (x ++ s)
dashes-append_text zero x s = refl
dashes-append_text (suc n) x s = ap (λ r. b'-' ∷ r) (dashes-append_text n x s)

pub group_text-append : (g : Group) (t s : Text) → group_text g t ++ s ≡ group_text g (t ++ s)
group_text-append g t s =
    dashes-append_text g.lead (g.first ∷ (g.word ++ t)) s
    ∙ ap (λ r. dashes g.lead (g.first ∷ r)) (append_assoc g.word t s)

pub groups_text-append : (gs : List Group) (s : Text) → groups_text gs [] ++ s ≡ groups_text gs s
groups_text-append [] s = refl
groups_text-append (g ∷ gs) s =
    group_text-append g (groups_text gs []) s ∙ ap (group_text g) (groups_text-append gs s)

pub group-text :
    (g : Group) (rest : Text)
    → IsGroup g
    → StopsWord rest
    → group (group_text g rest) ≡ some (group_text g [], rest)
unfolding group
group-text g rest h e =
    rw (span-dashes g.lead g.first (g.word ++ rest) (word-not-dash g.first h.0))
      (rw (span-word (g.first ∷ g.word) rest h e) (rw dashes-append (rw append-nil)))

lead_stops : (n : ℕ) (s : Text) → 1 ≤ n → StopsWord (dashes n s)
unfolding is_word
lead_stops zero s h = absurd (omega arith)
lead_stops (suc n) s h = refl

-- What ends an identifier.
abbrev pub StopsIdentifier : Text → Type 0
StopsIdentifier rest = StopsWord rest × (group rest ≡ none)

pub groups_text-StopsWord :
    (gs : List Group) (rest : Text)
    → AllGroups gs
    → StopsWord rest
    → StopsWord (groups_text gs rest)
groups_text-StopsWord [] rest h e = e
groups_text-StopsWord (g ∷ gs) rest h e = lead_stops g.lead _ (h.1)

groups_step :
    (fuel : ℕ) (taken s g rest : Text)
    → group s ≡ some (g, rest)
    → groups (suc fuel) taken s ≡ groups fuel (taken ++ g) rest
unfolding groups
groups_step fuel taken s g rest h = rw (h, groups)

groups_stop : (fuel : ℕ) (taken s : Text) → group s ≡ none → groups fuel taken s ≡ (taken, s)
unfolding groups
groups_stop zero taken s h = refl
groups_stop (suc fuel) taken s h = rw (h, groups)

pub groups-text :
    (fuel : ℕ) (gs : List Group) (taken rest : Text)
    → length gs ≤ fuel
    → AllGroups gs
    → StopsIdentifier rest
    → groups fuel taken (groups_text gs rest) ≡ (taken ++ groups_text gs [], rest)
groups-text fuel [] taken rest l h e =
    groups_stop fuel taken rest e.1 ∙ ap (λ r. (r, rest)) (sym (append-nil taken))
groups-text zero (g ∷ gs) taken rest l h e = absurd (omega arith)
groups-text (suc fuel) (g ∷ gs) taken rest l h e =
    groups_step fuel taken (group_text g (groups_text gs rest)) (group_text g [])
      (groups_text gs rest)
      (group-text g (groups_text gs rest) h.0 (groups_text-StopsWord gs rest h.2 e.0))
    ∙ groups-text fuel gs (taken ++ group_text g []) rest (omega arith) h.2 e
    ∙ ap (λ r. (r, rest))
        (append_assoc taken (group_text g []) (groups_text gs [])
          ∙ ap (λ r. taken ++ r) (group_text-append g [] (groups_text gs [])))
