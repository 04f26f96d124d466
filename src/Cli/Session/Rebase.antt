-- ===== src/Cli/Session/Rebase.antt =====
-- `Rebase::operator()`.
use deska.Base.{
  ℕ, Bool, true, false, not, ◌&&◌, Option, none, some, List, [], ◌∷◌, ◌++◌, if◌then◌else◌, ◌==◌,
  back,
}
use deska.Base.Text.{Text, codes, is_empty}
use deska.Db.Exec.{Exec, Result, ok, fail, ◌>>=◌, ◌>>◌, pure}
use deska.Db.Modification.{ValueOps, ObjectModificationResult}
use deska.Cli.Modification.{backup_checker}
use deska.Cli.Diff.Compare.{result_less}
use deska.Cli.Diff.Children.{clear_child_deletions, our_deletions}
use deska.Cli.Diff.Merge.{merged_file, or_false}
use deska.Cli.Session.Interface.{
  Fault, mass_creating_embedded_error, other_error, DbInteraction, Environment, Parser, on_server,
  not_locked_out,
}
use deska.Cli.Session.Commands.{Ui, Command, set_changeset, clear_context_stack, is_non_interactive}

-- The lines that `while (!getline(ifs, line).eof())` reads: a last line with no line end is not
-- one of them.
unfoldable pub lines_from : Text → Text → List Text
lines_from line [] = []
lines_from line (c ∷ s) = if c == 10 then line ∷ lines_from [] s else lines_from (line ++ c ∷ []) s

-- The file as it is written.
unfoldable pub file_text : List Text → Text
file_text [] = []
file_text (l ∷ ls) = l ++ (10 ∷ file_text ls)

-- `line.empty() || line[0] == '#'`
abbrev pub is_skipped : Text → Bool
is_skipped [] = true
is_skipped (c ∷ s) = c == b'#'

-- What the loop catches: every class of RemoteDbError, and JsonParseError, from which
-- JsonConnectionError is derived.
abbrev pub is_caught : Fault → Bool
is_caught mass_creating_embedded_error = false
is_caught other_error = false
is_caught e = true

-- A fault for what does not come from the model's functions.
abbrev pub or_throw : {S A : Type 0} → Option A → Exec S Fault A
or_throw none s = (fail other_error, s)
or_throw (some a) s = (ok a, s)

module _ {V : Type 0} (keep : ObjectModificationResult V → Bool) where
  -- the loop that erases what should not be stored
  unfoldable pub erase_readonly :
      List (ObjectModificationResult V) → List (ObjectModificationResult V)
  erase_readonly [] = []
  erase_readonly (m ∷ ms) = if keep m then m ∷ erase_readonly ms else erase_readonly ms

module _ {V : Type 0} (ops : ValueOps V) (db : DbInteraction V) (parser : Parser db.Server)
    (env : Environment V) where
  -- One list made ready for the merge.
  unfoldable pub prepared :
      List (ObjectModificationResult V) → Option (List (ObjectModificationResult V))
  unfolding clear_child_deletions erase_readonly backup_checker result_less
  prepared ms = elim (clear_child_deletions db.embedded_into_kind ms) [
    | none ↦ none
    | some cleared ↦ some (
        env.std_sort (λ a b. or_false (result_less a b))
          (erase_readonly (backup_checker db.readonly_attribute) cleared))
  ]

  -- One line; an exception that is caught sets the flag.
  abbrev pub caught_line :
      Result Fault (Unit {0}) × Ui db parser env → Result Fault (Unit {0}) × Ui db parser env
  caught_line (ok u, s) = (ok u, s)
  caught_line (fail e, s) =
      if is_caught e then (ok tt, record s { parsing_failed = true }) else (fail e, s)

  unfoldable pub parse_one : Text → Exec (Ui db parser env) Fault (Unit {0})
  parse_one line s = caught_line (parser.parse_line line s)

  unfoldable pub parse_lines : List Text → Exec (Ui db parser env) Fault (Unit {0})
  unfolding parse_one
  parse_lines [] = pure tt
  parse_lines (l ∷ ls) =
      let rest = parse_lines ls in
      if is_skipped l
      then rest
      else (parse_one l >> λ s. (if s.parsing_failed then (ok tt, s) else rest s))

  abbrev pub set_non_interactive : Bool → Exec (Ui db parser env) Fault (Unit {0})
  set_non_interactive b s = (ok tt, record s { non_interactive_mode = b })

  -- The user's edit of the file is applied to the new changeset.
  unfoldable pub apply_file : List Text → Exec (Ui db parser env) Fault (Unit {0})
  unfolding parse_lines lines_from file_text
  apply_file file =
      set_non_interactive true
      >> clear_context_stack db parser env
      >> parse_lines (lines_from [] (env.edit_file (file_text file)))
      >> clear_context_stack db parser env
      >> set_non_interactive false

  -- The failures behind the creation of the new changeset end in the old one.
  unfoldable pub back_to : ℕ → Command db parser env
  unfolding not_locked_out
  back_to old_changeset =
      on_server db.abort_changeset
      >> on_server (db.resume_changeset old_changeset)
      >> not_locked_out (on_server db.unlock_current_changeset)
      >> pure false

  -- The old changeset is aborted, and the new one becomes the current one.
  unfoldable pub finish_rebase : ℕ → ℕ → Command db parser env
  unfolding not_locked_out
  finish_rebase old_changeset new_changeset =
      on_server (db.detach_from_changeset (codes "Rebase in progress"))
      >> on_server (db.resume_changeset old_changeset)
      >> on_server db.abort_changeset
      >> on_server (db.resume_changeset new_changeset)
      >> set_changeset db parser env (some new_changeset)
      >> not_locked_out (on_server db.unlock_current_changeset)

  -- behind the loop over the lines
  unfoldable pub conclude : ℕ → ℕ → Command db parser env
  unfolding back_to finish_rebase
  conclude old_changeset new_changeset s =
      if s.parsing_failed
      then back_to old_changeset s
      else finish_rebase old_changeset new_changeset s

  -- the file is in the hands of the user, and then read
  unfoldable pub edit : ℕ → ℕ → List Text → Command db parser env
  unfolding apply_file conclude
  edit old_changeset new_changeset file =
      if env.can_read_temp_file
      then (apply_file file >>= λ _. conclude old_changeset new_changeset)
      else back_to old_changeset

  -- the temporary file is written
  unfoldable pub write_file :
      ℕ
      → ℕ
      → List (ObjectModificationResult V)
      → List (ObjectModificationResult V)
      → List (ObjectModificationResult V)
      → Command db parser env
  unfolding merged_file our_deletions edit
  write_file old_changeset new_changeset mine es os =
      if env.can_create_temp_file && env.can_write_temp_file
      then (or_throw (merged_file ops (our_deletions mine) es os)
          >>= edit old_changeset new_changeset)
      else back_to old_changeset

  -- the lists are made ready
  unfoldable pub merge :
      ℕ
      → ℕ
      → List (ObjectModificationResult V)
      → List (ObjectModificationResult V)
      → Command db parser env
  unfolding prepared write_file
  merge old_changeset new_changeset theirs mine = do
    es ← or_throw (prepared theirs)
    os ← or_throw (prepared mine)
    write_file old_changeset new_changeset mine es os

  -- From the comparison of the two changesets to the end, in the new changeset.
  unfoldable pub resolve : ℕ → ℕ → ℕ → Command db parser env
  unfolding merge
  resolve old_changeset new_changeset old_parent = do
    new_parent ← on_server (db.changeset_parent new_changeset)
    theirs ← on_server (db.revisions_difference old_parent new_parent)
    mine ← on_server (db.revisions_difference_changeset old_changeset)
    merge old_changeset new_changeset theirs mine

  -- in the new changeset
  unfoldable pub in_new : ℕ → ℕ → ℕ → Command db parser env
  unfolding not_locked_out resolve back_to
  in_new old_changeset old_parent new_changeset = do
    locked ← not_locked_out (on_server db.lock_current_changeset)
    if locked then resolve old_changeset new_changeset old_parent else back_to old_changeset

  -- From the lock of the old changeset on.
  unfoldable pub rebase_onto : ℕ → ℕ → Command db parser env
  unfolding not_locked_out in_new
  rebase_onto old_changeset old_parent = do
    locked ← not_locked_out (on_server db.lock_current_changeset)
    if locked
        then (do
          on_server (db.detach_from_changeset (codes "Rebase in progress"))
          new_changeset ← on_server db.create_new_changeset
          in_new old_changeset old_parent new_changeset)
        else pure false

  -- with both revisions
  unfoldable pub rebase_unless_head : ℕ → ℕ → ℕ → Command db parser env
  unfolding rebase_onto
  rebase_unless_head c old_parent head = if head == old_parent then pure true else (λ s.
      (if is_non_interactive db parser env s then (ok false, s) else rebase_onto c old_parent s))

  -- The tests on the current changeset, with it.
  unfoldable pub rebase_current : ℕ → Command db parser env
  unfolding rebase_unless_head
  rebase_current c = do
    old_parent ← on_server (db.changeset_parent c)
    revisions ← on_server db.all_revisions
    head ← or_throw (back revisions)
    rebase_unless_head c old_parent head

  unfoldable pub rebase : Text → Command db parser env
  unfolding rebase_current
  rebase params s =
      if not (is_empty params)
      then (ok false, s)
      else elim s.current_changeset [ none ↦ (ok false, s) | some c ↦ rebase_current c s ]
