-- ===== src/Cli/Session/Laws.antt =====
-- What the commands rely on of the changesets of a server, and what the methods do to them.
use deska.Base.{
  ℕ, Bool, true, false, Option, none, some, List, [], ◌∷◌, if◌then◌else◌, ◌≡◌, refl, ap, ◌∙◌,
}
use deska.Base.Text.{Text}
use deska.Db.Modification.{ValueOps}
use deska.Db.Exec.{Exec, Result, ok, fail, ◌>>◌}
use deska.Cli.Session.Interface.{
  Fault, UserInterface, DbInteraction, Environment, Parser, on_server, not_locked_out,
}
use deska.Cli.Session.Commands.{Ui, clear_context_stack}
use deska.Cli.Session.Rebase.{
  parse_one, parse_lines, apply_file, is_skipped, is_caught, caught_line, set_non_interactive,
  lines_from, file_text,
}
use deska.Cli.Session.Triples.{Keeps, Keeps-bind, Keeps-if}

-- The changeset that the session is attached to, and those that it has aborted, the last one first.
pub record Changesets : Type 0 where
  pub attached : Option ℕ
  pub aborted : List ℕ

-- Creating and resuming attach the session, the three ways to leave a changeset detach it, aborting
-- also drops the changeset, and the other calls, which may throw, leave this as it is.
pub record ChangesetLaws {V : Type 0} (db : DbInteraction V) (parser : Parser db.Server)
    : Type 0 where
  pub view : db.Server → Changesets
  pub create_law :
      (s : db.Server) (c : ℕ) (t : db.Server)
      → db.create_new_changeset s ≡ (ok c, t)
      → view t ≡ record { attached = some c; aborted = (view s).aborted }
  pub resume_law :
      (c : ℕ) (s : db.Server) (u : Unit {0}) (t : db.Server)
      → db.resume_changeset c s ≡ (ok u, t)
      → view t ≡ record { attached = some c; aborted = (view s).aborted }
  pub resume_fault :
      (c : ℕ) (s : db.Server) (e : Fault) (t : db.Server)
      → db.resume_changeset c s ≡ (fail e, t)
      → view t ≡ view s
  pub commit_law :
      (message : Text) (s : db.Server) (r : ℕ) (t : db.Server)
      → db.commit_changeset message s ≡ (ok r, t)
      → view t ≡ record { attached = none; aborted = (view s).aborted }
  pub commit_fault :
      (message : Text) (s : db.Server) (e : Fault) (t : db.Server)
      → db.commit_changeset message s ≡ (fail e, t)
      → view t ≡ view s
  pub detach_law :
      (message : Text) (s : db.Server) (u : Unit {0}) (t : db.Server)
      → db.detach_from_changeset message s ≡ (ok u, t)
      → view t ≡ record { attached = none; aborted = (view s).aborted }
  pub abort_law :
      (c : ℕ) (s : db.Server) (u : Unit {0}) (t : db.Server)
      → (view s).attached ≡ some c
      → db.abort_changeset s ≡ (ok u, t)
      → view t ≡ record { attached = none; aborted = c ∷ (view s).aborted }
  pub lock_law : (s : db.Server) → view (db.lock_current_changeset s).1 ≡ view s
  pub unlock_law : (s : db.Server) → view (db.unlock_current_changeset s).1 ≡ view s
  pub pending_law : (s : db.Server) → view (db.all_pending_changesets s).1 ≡ view s
  pub parent_law : (c : ℕ) (s : db.Server) → view (db.changeset_parent c s).1 ≡ view s
  pub revisions_law : (s : db.Server) → view (db.all_revisions s).1 ≡ view s
  pub difference_law : (a b : ℕ) (s : db.Server) → view (db.revisions_difference a b s).1 ≡ view s
  pub changes_law :
      (c : ℕ) (s : db.Server) → view (db.revisions_difference_changeset c s).1 ≡ view s
  pub parse_law :
      (line : Text) (s : UserInterface db.Server parser.Context)
      → (view (parser.parse_line line s).1.server ≡ view s.server)
        × ((parser.parse_line line s).1.current_changeset ≡ s.current_changeset)

module _ {V : Type 0} (ops : ValueOps V) (db : DbInteraction V) (parser : Parser db.Server)
    (env : Environment V) (laws : ChangesetLaws db parser) where
  -- The changesets of the server, and the one that the user interface holds for the current one.
  abbrev pub session : Ui db parser env → Changesets × Option ℕ
  session s = (laws.view s.server, s.current_changeset)

  -- attached to `a`, with `l` aborted, and `c` as the current changeset
  abbrev pub At : Option ℕ → List ℕ → Option ℕ → Ui db parser env → Type 0
  At a l c s = session s ≡ (record { attached = a; aborted = l }, c)

  pub Keeps-server :
      {A : Type 0} (m : Exec db.Server Fault A)
      → ((s : db.Server) → laws.view (m s).1 ≡ laws.view s)
      → Keeps session (on_server m)
  Keeps-server m h s = ap (λ v. (v, s.current_changeset)) (h s.server)

  pub Keeps-locking :
      {A : Type 0} (m : Exec (Ui db parser env) Fault A)
      → Keeps session m
      → Keeps session (not_locked_out m)
  unfolding not_locked_out
  Keeps-locking m h s = h s

  caught_branch :
      (b : Bool) (e : Fault) (t : Ui db parser env)
      → is_caught e ≡ b
      → session (caught_line ops db parser env (fail e, t)).1 ≡ session t
  caught_branch true e t h = rw (h, caught_line) refl
  caught_branch false e t h = rw (h, caught_line) refl

  abbrev go_on : List Text → Exec (Ui db parser env) Fault (Unit {0})
  go_on ls s = if s.parsing_failed then (ok tt, s) else parse_lines ops db parser env ls s

  abbrev read_line : Text → List Text → Exec (Ui db parser env) Fault (Unit {0})
  read_line l ls = parse_one ops db parser env l >> go_on ls

  go_on_branch :
      (b : Bool) (ls : List Text) (s : Ui db parser env)
      → Keeps session (parse_lines ops db parser env ls)
      → s.parsing_failed ≡ b
      → session (go_on ls s).1 ≡ session s
  go_on_branch true ls s h e = rw (e, go_on) refl
  go_on_branch false ls s h e = rw (e, go_on) (h (record s { parsing_failed = false }))

  Keeps-go_on :
      (ls : List Text) → Keeps session (parse_lines ops db parser env ls) → Keeps session (go_on ls)
  Keeps-go_on ls h s = go_on_branch s.parsing_failed ls s h refl

  caught_kept :
      (r : Result Fault (Unit {0})) (t : Ui db parser env)
      → session (caught_line ops db parser env (r, t)).1 ≡ session t
  caught_kept (ok u) t = refl
  caught_kept (fail e) t = caught_branch (is_caught e) e t refl

  Keeps-one : (line : Text) → Keeps session (parse_one ops db parser env line)
  unfolding parse_one
  Keeps-one line s = caught_kept (parser.parse_line line s).0 (parser.parse_line line s).1 ∙ λ i.
      ((laws.parse_law line s).0 i, (laws.parse_law line s).1 i)

  lines_step :
      (l : Text) (ls : List Text)
      → Keeps session (parse_lines ops db parser env ls)
      → Keeps session (parse_lines ops db parser env (l ∷ ls))
  unfolding parse_lines
  lines_step l ls rest =
      Keeps-if session (is_skipped l) (parse_lines ops db parser env ls) (read_line l ls) rest (
        Keeps-bind session (parse_one ops db parser env l) (λ u. go_on ls) (Keeps-one l)
          (λ _. Keeps-go_on ls rest))

  Keeps-lines : (ls : List Text) → Keeps session (parse_lines ops db parser env ls)
  Keeps-lines [] = unfold parse_lines in λ s. refl
  Keeps-lines (l ∷ ls) = lines_step l ls (Keeps-lines ls)

  tail_kept :
      (r : Result Fault (Unit {0})) (t s : Ui db parser env)
      → session
          (((λ x. (r, t))
              >> clear_context_stack db parser env
              >> set_non_interactive ops db parser env false)
            s).1
        ≡ session t
  tail_kept (ok u) t s = refl
  tail_kept (fail e) t s = refl

  pub Keeps-apply : (file : List Text) → Keeps session (apply_file ops db parser env file)
  unfolding apply_file
  Keeps-apply file s =
      let lines = lines_from [] (env.edit_file (file_text file)) in
      let s1 =
        ((set_non_interactive ops db parser env true >> clear_context_stack db parser env) s).1 in
      let done = parse_lines ops db parser env lines s1 in
      tail_kept done.0 done.1 s ∙ Keeps-lines lines s1
