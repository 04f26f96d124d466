-- ===== src/Cli/Session/Commands.antt =====
-- `Start`, `Resume`, `Commit`, `Detach` and `Abort`. What they print is left out. A command returns
-- whether it succeeded, or throws.
use deska.Base.{
  ℕ, zero, suc, Bool, true, false, not, ◌&&◌, ◌||◌, Option, none, some, List, [], ◌∷◌,
  if◌then◌else◌, map,
}
use deska.Base.Text.{Text, is_empty}
use deska.Db.Exec.{Exec, Result, ok, fail, ◌>>=◌, ◌>>◌, pure}
use deska.Db.Revisions.{changeset_from_string}
use deska.Cli.Session.Interface.{
  Fault, changeset_range_error, changeset_locking_error, server_error, constraint_error,
  obsolete_parent_error, other_error, PendingChangeset, UserInterface, DbInteraction, Environment,
  Parser, on_server,
}

abbrev pub has_value : {A : Type 0} → Option A → Bool
has_value none = false
has_value (some a) = true

abbrev pub element_at : {A : Type 0} → List A → ℕ → Option A
element_at [] n = none
element_at (x ∷ xs) zero = some x
element_at (x ∷ xs) (suc n) = element_at xs n

-- Which exceptions `Resume` catches: the other classes of RemoteDbError are no ServerError.
abbrev pub resume_result : Result Fault (Unit {0}) → Result Fault Bool
resume_result (ok u) = ok true
resume_result (fail changeset_range_error) = ok false
resume_result (fail changeset_locking_error) = ok false
resume_result (fail server_error) = ok false
resume_result (fail e) = fail e

abbrev pub commit_result : Result Fault ℕ → Result Fault Bool
commit_result (ok r) = ok true
commit_result (fail constraint_error) = ok false
commit_result (fail obsolete_parent_error) = ok false
commit_result (fail e) = fail e

unfoldable pub extract_params : {V : Type 0} → Environment V → Text → List Text
extract_params env params = map env.trim (env.tokenizer params)

module _ {V : Type 0} (db : DbInteraction V) (parser : Parser db.Server) (env : Environment V) where
  abbrev pub Ui : Type 0
  Ui = UserInterface db.Server parser.Context

  abbrev pub Command : Type 0
  Command = Exec Ui Fault Bool

  abbrev pub set_changeset : Option ℕ → Exec Ui Fault (Unit {0})
  set_changeset c s = (ok tt, record s { current_changeset = c })

  abbrev pub clear_context_stack : Exec Ui Fault (Unit {0})
  clear_context_stack s = (ok tt, record s { parser = parser.clear_context_stack s.parser })

  abbrev pub is_non_interactive : Ui → Bool
  is_non_interactive s = s.non_interactive_mode || s.force_non_interactive

  abbrev pub leave_changeset : Command
  leave_changeset = set_changeset none >> (clear_context_stack >> pure true)

  unfoldable pub start : Text → Command
  start params s =
      if not (is_empty params)
      then (ok false, s)
      else if has_value s.current_changeset
      then (ok false, s)
      else (on_server db.create_new_changeset >>= λ c. set_changeset (some c) >> pure true) s

  -- `resumeChangeset` in the try block
  unfoldable pub resume_given : ℕ → Command
  resume_given c s =
      let called = on_server (db.resume_changeset c) s in
      elim called.0 [
        | ok u ↦ (set_changeset (some c) >> pure true) called.1
        | fail e ↦ (resume_result (fail e), called.1)
      ]

  -- `pendingChangesets[choice]` of an index out of range is undefined, a fault here.
  abbrev pub resume_element : Option PendingChangeset → Command
  resume_element none = λ s. (fail other_error, s)
  resume_element (some p) =
      on_server (db.resume_changeset p.revision) >> (set_changeset (some p.revision) >> pure true)

  abbrev pub resume_index : List PendingChangeset → Option ℕ → Command
  resume_index pending none = pure true
  resume_index pending (some choice) = resume_element (element_at pending choice)

  unfoldable pub resume_chosen : List PendingChangeset → Command
  resume_chosen pending = resume_index pending (env.choose_changeset pending)

  unfoldable pub resume_params : List Text → Command
  unfolding resume_given changeset_from_string
  resume_params (p ∷ []) = elim (changeset_from_string env.lexical_cast p) [
    | none ↦ pure false
    | some c ↦ resume_given c
  ]
  resume_params _ = pure false

  unfoldable pub resume : Text → Command
  unfolding resume_params resume_chosen extract_params
  resume params s =
      if has_value s.current_changeset
      then (ok false, s)
      else if not (is_empty params)
      then resume_params (extract_params env params) s
      else if is_non_interactive s
      then (ok false, s)
      else (on_server db.all_pending_changesets >>= resume_chosen) s

  -- `commitChangeset` in the try block
  unfoldable pub commit_with : Text → Command
  commit_with message s =
      let called = on_server (db.commit_changeset message) s in
      elim called.0 [
        | ok r ↦ leave_changeset called.1
        | fail e ↦ (commit_result (fail e), called.1)
      ]

  unfoldable pub commit : Text → Command
  unfolding commit_with
  commit params s =
      if not (has_value s.current_changeset)
      then (ok false, s)
      else if not (is_empty params)
      then commit_with params s
      else if is_non_interactive s
      then (ok false, s)
      else commit_with env.ask_for_commit_message s

  abbrev pub detach_with : Text → Command
  detach_with message = on_server (db.detach_from_changeset message) >> leave_changeset

  unfoldable pub detach : Text → Command
  detach params s =
      if not (has_value s.current_changeset)
      then (ok false, s)
      else if not (is_empty params)
      then detach_with params s
      else if is_non_interactive s
      then (ok false, s)
      else detach_with env.ask_for_detach_message s

  unfoldable pub abort : Text → Command
  abort params s =
      if not (is_empty params)
      then (ok false, s)
      else if not (has_value s.current_changeset)
      then (ok false, s)
      else if not s.non_interactive_mode && not s.force_non_interactive && not env.confirm_abort
      then (ok false, s)
      else (on_server db.abort_changeset >> leave_changeset) s
