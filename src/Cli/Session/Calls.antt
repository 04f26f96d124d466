-- ===== src/Cli/Session/Calls.antt =====
-- What the calls of the server do to the changesets, and the two ends of a rebase.
use deska.Base.{ℕ, false, Option, none, some, List, ◌∷◌, ◌≡◌, refl, ap, sym, ◌∙◌}
use deska.Base.Text.{Text, codes}
use deska.Db.Modification.{ValueOps}
use deska.Db.Exec.{Exec, ok}
use deska.Cli.Session.Interface.{
  Fault, DbInteraction, Environment, Parser, on_server, not_locked_out,
}
use deska.Cli.Session.Commands.{Ui, set_changeset}
use deska.Cli.Session.Rebase.{back_to, finish_rebase}
use deska.Cli.Session.Triples.{Triple, Keeps, triple_bind, triple_pure, Keeps-triple}
use deska.Cli.Session.Laws.{Changesets, ChangesetLaws, session, At, Keeps-server, Keeps-locking}

module _ {V : Type 0} (ops : ValueOps V) (db : DbInteraction V) (parser : Parser db.Server)
    (env : Environment V) (laws : ChangesetLaws db parser) where
  abbrev pub In : Option ℕ → List ℕ → Option ℕ → Ui db parser env → Type 0
  In = At ops db parser env laws

  abbrev pub Quiet : {A : Type 0} → Exec (Ui db parser env) Fault A → Type 0
  Quiet m = Keeps (session ops db parser env laws) m

  server_triple :
      {A : Type 0} (v : Changesets) (c : Option ℕ) (w : A → Changesets) (m : Exec db.Server Fault A)
      → ((s : db.Server) (r : A) (t : db.Server)
          → laws.view s ≡ v
          → m s ≡ (ok r, t)
          → laws.view t ≡ w r)
      → Triple
          (λ s. session ops db parser env laws s ≡ (v, c))
          (on_server m)
          (λ r s. session ops db parser env laws s ≡ (w r, c))
  server_triple v c w m law s r t p e =
      let called =
        law s.server r (m s.server).1 (ap (λ x. x.0) p) (λ i. ((e i).0, (m s.server).1)) in
      ap (λ x. session ops db parser env laws x.1) (sym e) ∙ λ i. (called i, (p i).1)

  -- What the calls of the server do.
  module _ (a : Option ℕ) (l : List ℕ) (c : Option ℕ) where
    abbrev before : Changesets
    before = record { attached = a; aborted = l }

    pub kept_triple :
        {A : Type 0} (m : Exec (Ui db parser env) Fault A)
        → Quiet m
        → Triple (In a l c) m (λ _. In a l c)
    kept_triple m h = Keeps-triple (session ops db parser env laws) m (before, c) h

    pub detach_triple :
        (message : Text)
        → Triple (In a l c) (on_server (db.detach_from_changeset message)) (λ _. In none l c)
    detach_triple message =
        server_triple before c (λ _. record { attached = none; aborted = l })
          (db.detach_from_changeset message)
          (λ s u t h e.
            laws.detach_law message s u t e
            ∙ ap (λ v. record { attached = none; aborted = v.aborted }) h)

    pub commit_triple :
        (message : Text)
        → Triple (In a l c) (on_server (db.commit_changeset message)) (λ _. In none l c)
    commit_triple message =
        server_triple before c (λ _. record { attached = none; aborted = l })
          (db.commit_changeset message)
          (λ s u t h e.
            laws.commit_law message s u t e
            ∙ ap (λ v. record { attached = none; aborted = v.aborted }) h)

    pub create_triple : Triple (In a l c) (on_server db.create_new_changeset) (λ n. In (some n) l c)
    create_triple =
        server_triple before c (λ n. record { attached = some n; aborted = l })
          db.create_new_changeset
          (λ s n t h e.
            laws.create_law s n t e ∙ ap (λ v. record { attached = some n; aborted = v.aborted }) h)

    pub resume_triple :
        (n : ℕ) → Triple (In a l c) (on_server (db.resume_changeset n)) (λ _. In (some n) l c)
    resume_triple n =
        server_triple before c (λ _. record { attached = some n; aborted = l })
          (db.resume_changeset n)
          (λ s u t h e.
            laws.resume_law n s u t e
            ∙ ap (λ v. record { attached = some n; aborted = v.aborted }) h)

    pub set_triple :
        (d : Option ℕ) → Triple (In a l c) (set_changeset db parser env d) (λ _. In a l d)
    set_triple d s u t p e =
        ap (λ x. session ops db parser env laws x.1) (sym e) ∙ λ i. ((p i).0, d)

  pub abort_triple :
      (n : ℕ) (l : List ℕ) (c : Option ℕ)
      → Triple (In (some n) l c) (on_server db.abort_changeset) (λ _. In none (n ∷ l) c)
  abort_triple n l c =
      server_triple (record { attached = some n; aborted = l }) c
        (λ _. record { attached = none; aborted = n ∷ l }) db.abort_changeset
        (λ s u t h e.
          laws.abort_law n s u t (ap (λ v. v.attached) h) e
          ∙ ap (λ v. record { attached = none; aborted = n ∷ v.aborted }) h)

  pub unlock-Quiet : Quiet (not_locked_out (on_server db.unlock_current_changeset))
  unlock-Quiet =
      Keeps-locking ops db parser env laws (on_server db.unlock_current_changeset)
        (Keeps-server ops db parser env laws db.unlock_current_changeset laws.unlock_law)

  module _ (old new : ℕ) (l : List ℕ) where
    pub back_triple :
        Triple
          (In (some new) l (some old))
          (back_to ops db parser env old)
          (λ b s. In (some old) (new ∷ l) (some old) s × (b ≡ false))
    unfolding back_to
    back_triple =
        triple_bind _ (λ _. In (some old) (new ∷ l) (some old)) _ _ _
          (triple_bind _ (λ _. In (some old) (new ∷ l) (some old)) _ _ _
            (triple_bind _ (λ _. In none (new ∷ l) (some old)) _ _ _ (abort_triple new l (some old))
              (λ _. resume_triple none (new ∷ l) (some old) old))
            (λ _. kept_triple (some old) (new ∷ l) (some old) _ unlock-Quiet))
          (λ _. triple_pure _ _ false (λ s p. (p, refl)))

    pub finish_triple :
        Triple
          (In (some new) l (some old))
          (finish_rebase ops db parser env old new)
          (λ b. In (some new) (old ∷ l) (some new))
    unfolding finish_rebase
    finish_triple =
        triple_bind _ (λ _. In (some new) (old ∷ l) (some new)) _ _ _
          (triple_bind _ (λ _. In (some new) (old ∷ l) (some old)) _ _ _
            (triple_bind _ (λ _. In none (old ∷ l) (some old)) _ _ _
              (triple_bind _ (λ _. In (some old) l (some old)) _ _ _
                (triple_bind _ (λ _. In none l (some old)) _ _ _
                  (detach_triple (some new) l (some old) (codes "Rebase in progress"))
                  (λ _. resume_triple none l (some old) old))
                (λ _. abort_triple old l (some old)))
              (λ _. resume_triple none (old ∷ l) (some old) new))
            (λ _. set_triple (some new) (old ∷ l) (some old) (some new)))
          (λ _. kept_triple (some new) (old ∷ l) (some new) _ unlock-Quiet)
