-- ===== src/Cli/Session/Tests.antt =====
-- A server that keeps its changesets in a record, and a rebase in it.
use deska.Base.{
  ℕ, suc, Bool, true, false, Option, none, some, List, [], ◌∷◌, ◌≡◌, refl, ◌==◌, ◌↔◌, arith,
  if◌then◌else◌,
}
use deska.Base.Text.{Text, codes}
use deska.Db.Exec.{ok}
use deska.Db.Modification.{ValueOps, ObjectModificationResult, delete_object, set_attribute}
use deska.Cli.Modification.{modification_type, readable_attr_printer, backup_checker}
use deska.Cli.Diff.Compare.{result_less}
use deska.Cli.Diff.Children.{
  modification_delete_nested, erase_nested, clear_rounds, clear_child_deletions, our_deletions,
}
use deska.Cli.Diff.Merge.{merged_file, turn, write_one, write_merged, write_end}
use deska.Cli.Diff.Converters.{
  our_converter, our_converter2, our_attribute, extern_converter, is_deleted,
}
use deska.Cli.Session.Interface.{DbInteraction, Environment, Parser, not_locked_out}
use deska.Cli.Session.Commands.{Ui}
use deska.Cli.Session.Rebase.{
  rebase, rebase_current, rebase_unless_head, rebase_onto, in_new, resolve, merge, prepared,
  write_file, edit, apply_file, parse_lines, parse_one, lines_from, file_text, conclude,
  finish_rebase, erase_readonly,
}
use deska.Cli.Session.Laws.{Changesets, ChangesetLaws}
use deska.Cli.Session.Rebased.{Outcome, rebase_outcome}
use deska.Cli.Session.Agrees.{Agrees, run_rebase, run-Agrees}

-- the changesets, and the number of the next one
record Host : Type 0 where
  changesets : Changesets
  next : ℕ

same_number : (v w : ℕ) → (v == w ≡ true) ↔ (v ≡ w)
same_number v w = (λ h. ground arith, λ e. ground arith)

abbrev numbers : ValueOps ℕ
numbers = record { beq = λ v w. v == w; beq_iff = same_number; pretty = λ v. b'0' ∷ v ∷ [] }

abbrev attach : Option ℕ → Host → Host
attach c s = record s { changesets = record { attached = c; aborted = s.changesets.aborted } }

abbrev drop_from : Option ℕ → Host → Host
drop_from none s = s
drop_from (some c) s = record s {
  changesets = record { attached = none; aborted = c ∷ s.changesets.aborted };
}

abbrev host_db : DbInteraction ℕ
host_db = record {
  Server = Host;
  create_new_changeset = λ s. (ok s.next, record (attach (some s.next) s) { next = suc s.next });
  resume_changeset = λ c s. (ok tt, attach (some c) s);
  commit_changeset = λ message s. (ok 3, attach none s);
  detach_from_changeset = λ message s. (ok tt, attach none s);
  abort_changeset = λ s. (ok tt, drop_from s.changesets.attached s);
  lock_current_changeset = λ s. (ok tt, s);
  unlock_current_changeset = λ s. (ok tt, s);
  all_pending_changesets = λ s. (ok [], s);
  changeset_parent = λ c s. (ok (if c == 7 then 1 else 2), s);
  all_revisions = λ s. (ok (1 ∷ 2 ∷ []), s);
  revisions_difference = λ a b s. (ok (delete_object (codes "host") (codes "x") ∷ []), s);
  revisions_difference_changeset =
      λ c s. (ok (set_attribute (codes "host") (codes "y") (codes "ram") (some 4) none ∷ []), s);
  embedded_into_kind = λ k. [];
  readonly_attribute = λ k a. false;
}

abbrev insert :
    (ObjectModificationResult ℕ → ObjectModificationResult ℕ → Bool)
    → ObjectModificationResult ℕ
    → List (ObjectModificationResult ℕ)
    → List (ObjectModificationResult ℕ)
insert less m [] = m ∷ []
insert less m (n ∷ ns) = let rest = insert less m ns in if less n m then n ∷ rest else m ∷ n ∷ ns

abbrev insertion_sort :
    (ObjectModificationResult ℕ → ObjectModificationResult ℕ → Bool)
    → List (ObjectModificationResult ℕ)
    → List (ObjectModificationResult ℕ)
insertion_sort less [] = []
insertion_sort less (m ∷ ms) = insert less m (insertion_sort less ms)

abbrev desk : Environment ℕ
desk = record {
  choose_changeset = λ ps. none;
  ask_for_commit_message = codes "done";
  ask_for_detach_message = codes "later";
  confirm_abort = true;
  can_create_temp_file = true;
  can_write_temp_file = true;
  can_read_temp_file = true;
  edit_file = λ s. s;
  tokenizer = λ s. s ∷ [];
  trim = λ s. s;
  lexical_cast = λ s. some 7;
  std_sort = insertion_sort;
}

abbrev host_parser : Parser Host
host_parser = record {
  Context = List Text;
  clear_context_stack = λ c. [];
  parse_line = λ line s. (ok tt, record s { parser = line ∷ s.parser });
}

abort_host :
    (c : ℕ) (s : Host) (u : Unit {0}) (t : Host)
    → s.changesets.attached ≡ some c
    → host_db.abort_changeset s ≡ (ok u, t)
    → t.changesets ≡ record { attached = none; aborted = c ∷ s.changesets.aborted }
abort_host c s u t h e = ground (arith, h, e)

abbrev host_laws : ChangesetLaws host_db host_parser
host_laws = record {
  view = λ s. s.changesets;
  create_law = λ s c t e. ground (arith, e);
  resume_law = λ c s u t e. ground (arith, e);
  resume_fault = λ c s e t h. cc;
  commit_law = λ m s r t e. ground (arith, e);
  commit_fault = λ m s e t h. cc;
  detach_law = λ m s u t e. ground (arith, e);
  abort_law = abort_host;
  lock_law = λ s. refl;
  unlock_law = λ s. refl;
  pending_law = λ s. refl;
  parent_law = λ c s. refl;
  revisions_law = λ s. refl;
  difference_law = λ a b s. refl;
  changes_law = λ c s. refl;
  parse_law = λ line s. (refl, refl);
}

-- in changeset 7, with changeset 8 to come
abbrev before : Ui host_db host_parser desk
before = record {
  server = record { changesets = record { attached = some 7; aborted = [] }; next = 8 };
  parser = [];
  current_changeset = some 7;
  parsing_failed = false;
  non_interactive_mode = false;
  force_non_interactive = false;
}

abbrev rebased : Ui host_db host_parser desk
rebased = record {
  server = record { changesets = record { attached = some 8; aborted = 7 ∷ [] }; next = 9 };
  parser = [];
  current_changeset = some 8;
  parsing_failed = false;
  non_interactive_mode = false;
  force_non_interactive = false;
}

rebase_of_host : rebase numbers host_db host_parser desk [] before ≡ (ok true, rebased)
unfolding rebase rebase_current rebase_unless_head rebase_onto in_new resolve merge prepared
    clear_child_deletions clear_rounds erase_nested modification_delete_nested erase_readonly
    backup_checker result_less modification_type write_file our_deletions merged_file write_merged
    turn write_one write_end our_converter extern_converter our_attribute readable_attr_printer
    is_deleted our_converter2 edit apply_file parse_lines parse_one lines_from file_text conclude
    finish_rebase not_locked_out
rebase_of_host = refl

rebase_outcome_example : Outcome numbers host_db host_parser desk host_laws 7 [] true rebased
rebase_outcome_example =
    rebase_outcome numbers host_db host_parser desk host_laws 7 [] [] before true rebased refl
      rebase_of_host

run-Agrees_example : Agrees numbers host_db host_parser desk host_laws rebased
run-Agrees_example =
    run-Agrees numbers host_db host_parser desk host_laws run_rebase [] before true rebased refl
      rebase_of_host
