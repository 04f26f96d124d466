-- ===== src/Cli/Session/Agrees.antt =====
-- The changeset that the user interface holds, and the one to which the session is attached.
use deska.Base.{
  ℕ, Bool, false, not, ◌&&◌, Option, none, some, List, ◌∷◌, ◌≡◌, ap, sym, ◌∙◌, subst, inl, inr,
  arith,
}
use deska.Base.Text.{Text, is_empty}
use deska.Db.Modification.{ValueOps}
use deska.Db.Exec.{ok, pure}
use deska.Cli.Session.Interface.{DbInteraction, Environment, Parser, on_server}
use deska.Cli.Session.Commands.{
  Ui, Command, leave_changeset, has_value, start, resume, commit, detach, abort,
}
use deska.Cli.Session.Rebase.{rebase}
use deska.Cli.Session.Triples.{Triple, triple_bind, triple_test}
use deska.Cli.Session.Laws.{ChangesetLaws, At}
use deska.Cli.Session.Calls.{abort_triple}
use deska.Cli.Session.Rebased.{rebase_outcome, Outcome}
use deska.Cli.Session.Single.{
  IsInStep, agrees_at, leave_triple, stopped, start_agrees, detach_agrees, commit_agrees,
  resume_agrees,
}

-- The commands of the command map that change the changeset.
pub data ChangesetCommand : Type 0 where
  run_start run_resume run_commit run_detach run_abort run_rebase : ChangesetCommand

module _ {V : Type 0} (ops : ValueOps V) (db : DbInteraction V) (parser : Parser db.Server)
    (env : Environment V) where
  abbrev pub run : ChangesetCommand → Text → Command db parser env
  run run_start = start db parser env
  run run_resume = resume db parser env
  run run_commit = commit db parser env
  run run_detach = detach db parser env
  run run_abort = abort db parser env
  run run_rebase = rebase ops db parser env

module _ {V : Type 0} (ops : ValueOps V) (db : DbInteraction V) (parser : Parser db.Server)
    (env : Environment V) (laws : ChangesetLaws db parser) where
  abbrev In : Option ℕ → List ℕ → Option ℕ → Ui db parser env → Type 0
  In = At ops db parser env laws

  abbrev pub Agrees : Ui db parser env → Type 0
  Agrees = IsInStep ops db parser env laws

  module _ (l : List ℕ) where
    abort-Agrees :
        (n : ℕ) (params : Text)
        → Triple (In (some n) l (some n)) (abort db parser env params) (λ b. Agrees)
    unfolding abort
    abort-Agrees n params =
        triple_test (In (some n) l (some n)) (λ b. Agrees) (λ _. not (is_empty params)) (pure false)
          _ (stopped ops db parser env laws l (some n) false)
          (triple_test (In (some n) l (some n)) (λ b. Agrees)
            (λ s. not (has_value s.current_changeset)) (pure false) _
            (stopped ops db parser env laws l (some n) false)
            (triple_test (In (some n) l (some n)) (λ b. Agrees)
              (λ s.
                not s.non_interactive_mode && not s.force_non_interactive && not env.confirm_abort)
              (pure false) _ (stopped ops db parser env laws l (some n) false)
              (triple_bind (In (some n) l (some n)) (λ _. In none (n ∷ l) (some n)) (λ b. Agrees)
                (on_server db.abort_changeset) (λ _. leave_changeset db parser env)
                (abort_triple ops db parser env laws n l (some n))
                (λ _. leave_triple ops db parser env laws (n ∷ l) (some n)))))

    -- With no changeset, abort and rebase give up.
    nothing_to_abort :
        (params : Text) (s : Ui db parser env)
        → s.current_changeset ≡ none
        → abort db parser env params s ≡ (ok false, s)
    unfolding abort
    nothing_to_abort params s h = ground (arith, h)

    nothing_to_rebase :
        (params : Text) (s : Ui db parser env)
        → s.current_changeset ≡ none
        → rebase ops db parser env params s ≡ (ok false, s)
    unfolding rebase
    nothing_to_rebase params s h = ground (arith, h)

    outcome-Agrees :
        (old : ℕ) (b : Bool) (t : Ui db parser env)
        → Outcome ops db parser env laws old l b t
        → Agrees t
    outcome-Agrees old b t (inl p) = agrees_at ops db parser env laws (some old) l t p
    outcome-Agrees old b t (inr (inl (new, p, h))) =
        agrees_at ops db parser env laws (some old) (new ∷ l) t p
    outcome-Agrees old b t (inr (inr (new, p))) =
        agrees_at ops db parser env laws (some new) (old ∷ l) t p

    command-Agrees :
        (c : Option ℕ) (command : ChangesetCommand) (params : Text)
        → Triple (In c l c) (run ops db parser env command params) (λ b. Agrees)
    command-Agrees c run_start params = start_agrees ops db parser env laws l c params
    command-Agrees c run_resume params = resume_agrees ops db parser env laws l c params
    command-Agrees c run_commit params = commit_agrees ops db parser env laws l c params
    command-Agrees c run_detach params = detach_agrees ops db parser env laws l c params
    command-Agrees none run_abort params = λ s b t p e.
        subst Agrees (ap (λ x. x.1) (sym (nothing_to_abort params s (ap (λ x. x.1) p)) ∙ e))
          (agrees_at ops db parser env laws none l s p)
    command-Agrees (some n) run_abort params = abort-Agrees n params
    command-Agrees none run_rebase params = λ s b t p e.
        subst Agrees (ap (λ x. x.1) (sym (nothing_to_rebase params s (ap (λ x. x.1) p)) ∙ e))
          (agrees_at ops db parser env laws none l s p)
    command-Agrees (some n) run_rebase params = λ s b t p e.
        outcome-Agrees n b t (rebase_outcome ops db parser env laws n l params s b t p e)

  -- If the user interface holds the changeset to which the session is attached, or none when it is
  -- detached, it does so after any command start, resume, commit, detach, abort or rebase that
  -- returns, whether the command succeeds or not. The server keeps to the laws of its changesets.
  pub run-Agrees :
      (command : ChangesetCommand) (params : Text) (s : Ui db parser env) (b : Bool)
      (t : Ui db parser env)
      → Agrees s
      → run ops db parser env command params s ≡ (ok b, t)
      → Agrees t
  run-Agrees command params s b t h e =
      command-Agrees (laws.view s.server).aborted s.current_changeset command params s b t
        (λ i.
          (record { attached = h i; aborted = (laws.view s.server).aborted }, s.current_changeset))
        e
