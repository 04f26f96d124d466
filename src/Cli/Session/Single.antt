-- ===== src/Cli/Session/Single.antt =====
-- The current changeset and the attached one in each command but rebase.
use deska.Base.{
  ℕ, Bool, true, false, not, ◌&&◌, Option, none, some, List, [], ◌∷◌, ◌≡◌, refl, ap, sym, ◌∙◌,
  subst,
}
use deska.Base.Text.{Text, is_empty}
use deska.Db.Modification.{ValueOps}
use deska.Db.Revisions.{changeset_from_string}
use deska.Db.Exec.{Exec, Result, ok, fail, ◌>>◌, pure}
use deska.Cli.Session.Interface.{
  Fault, PendingChangeset, DbInteraction, Environment, Parser, on_server,
}
use deska.Cli.Session.Commands.{
  Ui, set_changeset, clear_context_stack, leave_changeset, has_value, is_non_interactive,
  resume_result, commit_result, start, resume, resume_given, resume_params, resume_chosen,
  resume_element, resume_index, element_at, extract_params, commit, commit_with, detach,
  detach_with, abort,
}
use deska.Cli.Session.Triples.{Triple, triple_bind, triple_pure, triple_test}
use deska.Cli.Session.Laws.{ChangesetLaws, At, Keeps-server}
use deska.Cli.Session.Calls.{
  kept_triple, create_triple, resume_triple, detach_triple, abort_triple, set_triple, commit_triple,
}

module _ {V : Type 0} (ops : ValueOps V) (db : DbInteraction V) (parser : Parser db.Server)
    (env : Environment V) (laws : ChangesetLaws db parser) where
  abbrev pub IsInStep : Ui db parser env → Type 0
  IsInStep s = (laws.view s.server).attached ≡ s.current_changeset

  abbrev In : Option ℕ → List ℕ → Option ℕ → Ui db parser env → Type 0
  In = At ops db parser env laws

  pub agrees_at : (c : Option ℕ) (l : List ℕ) (s : Ui db parser env) → In c l c s → IsInStep s
  agrees_at c l s p = ap (λ x. x.0.attached) p ∙ sym (ap (λ x. x.1) p)

  module _ (l : List ℕ) where
    -- the current changeset is set to the one that the session is attached to
    enter_triple :
        (n : ℕ) (c : Option ℕ)
        → Triple
            (In (some n) l c)
            (set_changeset db parser env (some n) >> pure true)
            (λ b. IsInStep)
    enter_triple n c =
        triple_bind (In (some n) l c) (λ _. In (some n) l (some n)) (λ b. IsInStep) _ _
          (set_triple ops db parser env laws (some n) l c (some n))
          (λ _. triple_pure (In (some n) l (some n)) (λ b. IsInStep) true (agrees_at (some n) l))

    pub leave_triple :
        (c : Option ℕ) → Triple (In none l c) (leave_changeset db parser env) (λ b. IsInStep)
    leave_triple c =
        triple_bind (In none l c) (λ _. In none l none) (λ b. IsInStep) _ _
          (set_triple ops db parser env laws none l c none)
          (λ _.
            triple_bind (In none l none) (λ _. In none l none) (λ b. IsInStep)
              (clear_context_stack db parser env) _
              (kept_triple ops db parser env laws none l none (clear_context_stack db parser env)
                (λ s. refl))
              (λ _. triple_pure (In none l none) (λ b. IsInStep) true (agrees_at none l)))

    module _ (c : Option ℕ) where
      -- a command that gives up
      pub stopped : (b : Bool) → Triple (In c l c) (pure b) (λ b. IsInStep)
      stopped b = triple_pure (In c l c) (λ b. IsInStep) b (agrees_at c l)

      pub start_agrees :
          (params : Text) → Triple (In c l c) (start db parser env params) (λ b. IsInStep)
      unfolding start
      start_agrees params =
          triple_test (In c l c) (λ b. IsInStep) (λ _. not (is_empty params)) (pure false) _
            (stopped false)
            (triple_test (In c l c) (λ b. IsInStep) (λ s. has_value s.current_changeset)
              (pure false) _ (stopped false)
              (triple_bind (In c l c) (λ n. In (some n) l c) (λ b. IsInStep)
                (on_server db.create_new_changeset)
                (λ n. set_changeset db parser env (some n) >> pure true)
                (create_triple ops db parser env laws c l c) (λ n. enter_triple n c)))

      detach_with_agrees :
          (message : Text) → Triple (In c l c) (detach_with db parser env message) (λ b. IsInStep)
      detach_with_agrees message =
          triple_bind (In c l c) (λ _. In none l c) (λ b. IsInStep)
            (on_server (db.detach_from_changeset message)) (λ _. leave_changeset db parser env)
            (detach_triple ops db parser env laws c l c message) (λ _. leave_triple c)

      pub detach_agrees :
          (params : Text) → Triple (In c l c) (detach db parser env params) (λ b. IsInStep)
      unfolding detach
      detach_agrees params =
          triple_test (In c l c) (λ b. IsInStep) (λ s. not (has_value s.current_changeset))
            (pure false) _ (stopped false)
            (triple_test (In c l c) (λ b. IsInStep) (λ _. not (is_empty params))
              (detach_with db parser env params) _ (detach_with_agrees params)
              (triple_test (In c l c) (λ b. IsInStep) (is_non_interactive db parser env)
                (pure false) (detach_with db parser env env.ask_for_detach_message) (stopped false)
                (detach_with_agrees env.ask_for_detach_message)))

      -- a call that may throw an exception which the command catches, with the changesets as they were
      caught :
          {A : Type 0} (m : Exec db.Server Fault A) (s : Ui db parser env) (e : Fault)
          → ((t : db.Server) → m s.server ≡ (fail e, t) → laws.view t ≡ laws.view s.server)
          → In c l c s
          → (m s.server).0 ≡ fail e
          → IsInStep (on_server m s).1
      caught m s e law p h =
          ap (λ v. v.attached) (law (m s.server).1 (λ i. (h i, (m s.server).1))) ∙ agrees_at c l s p

      given_result :
          (n : ℕ) (s : Ui db parser env) (r : Result Fault (Unit {0})) (b : Bool)
          (t : Ui db parser env)
          → In c l c s
          → (db.resume_changeset n s.server).0 ≡ r
          → elim r as (λ x. Result Fault Bool × Ui db parser env) [
            | ok u ↦
                (set_changeset db parser env (some n) >> pure true)
                  (on_server (db.resume_changeset n) s).1
            | fail e ↦ (resume_result (fail e), (on_server (db.resume_changeset n) s).1)
          ]
            ≡ (ok b, t)
          → IsInStep t
      given_result n s (ok u) b t p h e =
          enter_triple n c (on_server (db.resume_changeset n) s).1 b t
            (resume_triple ops db parser env laws c l c n s u
              (on_server (db.resume_changeset n) s).1 p
              (λ i. (h i, (on_server (db.resume_changeset n) s).1)))
            e
      given_result n s (fail f) b t p h e =
          subst IsInStep (ap (λ x. x.1) e)
            (caught (db.resume_changeset n) s f (laws.resume_fault n s.server f) p h)

      commit_result_lem :
          (message : Text) (s : Ui db parser env) (r : Result Fault ℕ) (b : Bool)
          (t : Ui db parser env)
          → In c l c s
          → (db.commit_changeset message s.server).0 ≡ r
          → elim r as (λ x. Result Fault Bool × Ui db parser env) [
            | ok u ↦ leave_changeset db parser env (on_server (db.commit_changeset message) s).1
            | fail e ↦ (commit_result (fail e), (on_server (db.commit_changeset message) s).1)
          ]
            ≡ (ok b, t)
          → IsInStep t
      commit_result_lem message s (ok r) b t p h e =
          leave_triple c (on_server (db.commit_changeset message) s).1 b t
            (commit_triple ops db parser env laws c l c message s r
              (on_server (db.commit_changeset message) s).1 p
              (λ i. (h i, (on_server (db.commit_changeset message) s).1)))
            e
      commit_result_lem message s (fail f) b t p h e =
          subst IsInStep (ap (λ x. x.1) e)
            (caught (db.commit_changeset message) s f (laws.commit_fault message s.server f) p h)

      given_agrees : (n : ℕ) → Triple (In c l c) (resume_given db parser env n) (λ b. IsInStep)
      unfolding resume_given
      given_agrees n s b t p e = given_result n s (db.resume_changeset n s.server).0 b t p refl e

      commit_with_agrees :
          (message : Text) → Triple (In c l c) (commit_with db parser env message) (λ b. IsInStep)
      unfolding commit_with
      commit_with_agrees message s b t p e =
          commit_result_lem message s (db.commit_changeset message s.server).0 b t p refl e

      pub commit_agrees :
          (params : Text) → Triple (In c l c) (commit db parser env params) (λ b. IsInStep)
      unfolding commit
      commit_agrees params =
          triple_test (In c l c) (λ b. IsInStep) (λ s. not (has_value s.current_changeset))
            (pure false) _ (stopped false)
            (triple_test (In c l c) (λ b. IsInStep) (λ _. not (is_empty params))
              (commit_with db parser env params) _ (commit_with_agrees params)
              (triple_test (In c l c) (λ b. IsInStep) (is_non_interactive db parser env)
                (pure false) (commit_with db parser env env.ask_for_commit_message) (stopped false)
                (commit_with_agrees env.ask_for_commit_message)))

      parsed_agrees :
          (p : Text) (o : Option ℕ)
          → changeset_from_string env.lexical_cast p ≡ o
          → Triple (In c l c) (resume_params db parser env (p ∷ [])) (λ b. IsInStep)
      unfolding resume_params
      parsed_agrees p none h = rw (h, resume_params) (stopped false)
      parsed_agrees p (some n) h = rw (h, resume_params) (given_agrees n)

      params_agrees :
          (ps : List Text) → Triple (In c l c) (resume_params db parser env ps) (λ b. IsInStep)
      params_agrees [] = unfold resume_params in stopped false
      params_agrees (p ∷ []) = parsed_agrees p (changeset_from_string env.lexical_cast p) refl
      params_agrees (p ∷ q ∷ r) = unfold resume_params in stopped false

      thrown_no_result :
          {f : Fault} {s t : Ui db parser env} {b : Bool} {A : Type 0}
          → ◌≡◌ {A = Result Fault Bool × Ui db parser env} (fail f, s) (ok b, t)
          → A
      thrown_no_result h = cc

      element_agrees :
          (o : Option PendingChangeset)
          → Triple (In c l c) (resume_element db parser env o) (λ b. IsInStep)
      element_agrees none = λ s b t p e. thrown_no_result e
      element_agrees (some q) =
          triple_bind (In c l c) (λ _. In (some q.revision) l c) (λ b. IsInStep)
            (on_server (db.resume_changeset q.revision)) _
            (resume_triple ops db parser env laws c l c q.revision) (λ _. enter_triple q.revision c)

      index_agrees :
          (pending : List PendingChangeset) (o : Option ℕ)
          → Triple (In c l c) (resume_index db parser env pending o) (λ b. IsInStep)
      index_agrees pending none = stopped true
      index_agrees pending (some i) = element_agrees (element_at pending i)

      chosen_agrees :
          (pending : List PendingChangeset)
          → Triple (In c l c) (resume_chosen db parser env pending) (λ b. IsInStep)
      unfolding resume_chosen
      chosen_agrees pending = index_agrees pending (env.choose_changeset pending)

      pub resume_agrees :
          (params : Text) → Triple (In c l c) (resume db parser env params) (λ b. IsInStep)
      unfolding resume
      resume_agrees params =
          triple_test (In c l c) (λ b. IsInStep) (λ s. has_value s.current_changeset) (pure false) _
            (stopped false)
            (triple_test (In c l c) (λ b. IsInStep) (λ _. not (is_empty params))
              (resume_params db parser env (extract_params env params)) _
              (params_agrees (extract_params env params))
              (triple_test (In c l c) (λ b. IsInStep) (is_non_interactive db parser env)
                (pure false) _ (stopped false)
                (triple_bind (In c l c) (λ _. In c l c) (λ b. IsInStep)
                  (on_server db.all_pending_changesets) (resume_chosen db parser env)
                  (kept_triple ops db parser env laws c l c (on_server db.all_pending_changesets) (
                    Keeps-server ops db parser env laws db.all_pending_changesets laws.pending_law))
                  chosen_agrees)))

  module _ (l : List ℕ) where
    abort-Agrees :
        (n : ℕ) (params : Text)
        → Triple (In (some n) l (some n)) (abort db parser env params) (λ b. IsInStep)
    unfolding abort
    abort-Agrees n params =
        triple_test (In (some n) l (some n)) (λ b. IsInStep) (λ _. not (is_empty params))
          (pure false) _ (stopped l (some n) false)
          (triple_test (In (some n) l (some n)) (λ b. IsInStep)
            (λ s. not (has_value s.current_changeset)) (pure false) _ (stopped l (some n) false)
            (triple_test (In (some n) l (some n)) (λ b. IsInStep)
              (λ s.
                not s.non_interactive_mode && not s.force_non_interactive && not env.confirm_abort)
              (pure false) _ (stopped l (some n) false)
              (triple_bind (In (some n) l (some n)) (λ _. In none (n ∷ l) (some n)) (λ b. IsInStep)
                (on_server db.abort_changeset) (λ _. leave_changeset db parser env)
                (abort_triple ops db parser env laws n l (some n))
                (λ _. leave_triple (n ∷ l) (some n)))))
