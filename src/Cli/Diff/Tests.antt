-- ===== src/Cli/Diff/Tests.antt =====
-- The order, the merge and the removal of child deletions on concrete modifications.
use deska.Base.{ℕ, true, false, none, some, List, [], ◌∷◌, ◌≡◌, refl, ◌==◌, ◌↔◌, arith}
use deska.Base.Text.{Text, codes, text_compare, text_eq, is_lt}
use deska.Db.Modification.{ValueOps, ObjectModificationResult, delete_object, set_attribute}
use deska.Cli.Modification.{modification_type}
use deska.Cli.Path.{
  path_to_vector, vector_to_path, more_identifiers, identifier, groups, group, skip, arrow, span,
  is_word,
}
use deska.Cli.Diff.Compare.{
  result_less, comparator_less, sort_key, key_order, NotBefore, result_less-key, result_less_trans,
  incomparable_iff,
}
use deska.Cli.Diff.Children.{modification_delete_nested, clear_child_deletions}
use deska.Cli.Diff.Cleared.{clear_child_deletions-first}
use deska.Cli.Diff.Merge.{Turn, write_merged, merged_file}
use deska.Cli.Diff.Ours.{IsStrict, new_settings}
use deska.Cli.Diff.Sides.{
  IsSorted, IsMerge, written, text_of, write_merged-IsMerge, write_merged-IsSorted,
}
use deska.Cli.Diff.Attributes.{attribute_lines}
use deska.Cli.Diff.Finish.{merged_file_total, merged_file_settings}

abbrev Modification : Type 0
Modification = ObjectModificationResult ℕ

same_number : (v w : ℕ) → (v == w ≡ true) ↔ (v ≡ w)
same_number v w = (λ h. ground arith, λ e. ground arith)

abbrev numbers : ValueOps ℕ
numbers = record { beq = λ v w. v == w; beq_iff = same_number; pretty = λ v. b'0' ∷ v ∷ [] }

abbrev host : Text
host = codes "host"

abbrev set_ram : ℕ → Modification
set_ram v = set_attribute host (codes "a") (codes "ram") (some v) none

abbrev set_name : Modification
set_name = set_attribute host (codes "b") (codes "name") none (some 3)

abbrev delete_host : Text → Modification
delete_host n = delete_object host n

-- a host is deleted twice and its attributes set to different values
abbrev theirs : List Modification
theirs = delete_host (codes "x") ∷ set_ram 4 ∷ []

abbrev our_list : List Modification
our_list = delete_host (codes "x") ∷ set_ram 5 ∷ set_name ∷ []

result_less-key_example :
    result_less (set_ram 4) set_name
    ≡ some (is_lt (key_order.cmp (sort_key (set_ram 4)) (sort_key set_name)))
result_less-key_example = result_less-key (set_ram 4) set_name

result_less_trans_example : result_less (delete_host (codes "x")) set_name ≡ some true
result_less_trans_example =
    result_less_trans (delete_host (codes "x")) (set_ram 4) set_name (unfold result_less in refl)
      (unfold result_less text_compare in refl)

incomparable_iff_example :
    (NotBefore (set_ram 4) (set_ram 5) × NotBefore (set_ram 5) (set_ram 4))
    ↔ (sort_key (set_ram 4) ≡ sort_key (set_ram 5))
incomparable_iff_example = incomparable_iff (set_ram 4) (set_ram 5)

write_merged-IsMerge_example :
    (vs : List (Turn × Modification)) × IsMerge numbers [] theirs our_list vs
    × ((write_merged numbers [] theirs our_list none).0 ≡ text_of numbers [] none vs)
write_merged-IsMerge_example = write_merged-IsMerge numbers [] theirs our_list none

IsSorted-theirs : IsSorted theirs
unfolding result_less
IsSorted-theirs = (refl, tt)

IsSorted-ours : IsSorted our_list
unfolding result_less comparator_less text_compare modification_type
IsSorted-ours = (refl, (refl, tt))

write_merged-IsSorted_example :
    (vs : List (Turn × Modification)) × IsMerge numbers [] theirs our_list vs
    × IsSorted (written vs)
    × ((write_merged numbers [] theirs our_list none).0 ≡ text_of numbers [] none vs)
write_merged-IsSorted_example =
    write_merged-IsSorted numbers [] theirs our_list none IsSorted-theirs IsSorted-ours

merged_file_total_example :
    (file : List Text) × (merged_file numbers [] theirs our_list ≡ some file)
merged_file_total_example = merged_file_total numbers [] theirs our_list

IsStrict-theirs : IsStrict theirs
unfolding result_less comparator_less text_compare modification_type
IsStrict-theirs = ((refl, tt), (tt, tt))

IsStrict-ours : IsStrict our_list
unfolding result_less comparator_less text_compare modification_type
IsStrict-ours = ((refl, (refl, tt)), ((refl, tt), (tt, tt)))

merged_file_settings_example :
    (file : List Text) × (merged_file numbers [] theirs our_list ≡ some file)
    × (attribute_lines file ≡ new_settings numbers theirs our_list)
merged_file_settings_example =
    merged_file_settings numbers [] theirs our_list (refl, (refl, tt)) (refl, (refl, (refl, tt)))
      IsStrict-theirs IsStrict-ours

abbrev interface : Text
interface = codes "interface"

abbrev embedded : Text → Text
embedded k = elim (text_eq k interface) [ true ↦ host | false ↦ [] ]

abbrev delete_interface : Text → Modification
delete_interface n = delete_object interface n

-- two hosts are deleted, with an interface each
abbrev deletions : List Modification
deletions =
    delete_interface (codes "a->e") ∷ delete_host (codes "b") ∷ delete_interface (codes "b->e") ∷ []

clear_child_deletions-first_example :
    clear_child_deletions embedded (delete_host (codes "a") ∷ deletions)
    ≡ some
        (delete_host (codes "a") ∷ delete_host (codes "b") ∷ delete_interface (codes "b->e") ∷ [])
unfolding modification_delete_nested path_to_vector vector_to_path more_identifiers identifier
    groups group skip arrow span is_word text_compare
clear_child_deletions-first_example =
    clear_child_deletions-first embedded (delete_host (codes "a")) deletions refl
      ((true, refl), ((false, refl), ((false, refl), tt)))
