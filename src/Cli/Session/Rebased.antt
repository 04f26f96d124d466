-- ===== src/Cli/Session/Rebased.antt =====
-- Where a rebase leaves the session.
use deska.Base.{
  ℕ, Bool, true, false, Option, none, some, List, ◌∷◌, not, if◌then◌else◌, ◌≡◌, ap, sym, ◌⊎◌, inl,
  inr, ◌&&◌, ◌==◌, back,
}
use deska.Base.Text.{Text, codes, is_empty}
use deska.Db.Modification.{ValueOps, ObjectModificationResult}
use deska.Db.Exec.{Exec, ok, ◌>>=◌, pure}
use deska.Cli.Diff.Children.{our_deletions}
use deska.Cli.Diff.Merge.{merged_file}
use deska.Cli.Session.Interface.{
  Fault, DbInteraction, Environment, Parser, on_server, not_locked_out,
}
use deska.Cli.Session.Commands.{Ui, Command, is_non_interactive}
use deska.Cli.Session.Rebase.{
  or_throw, prepared, apply_file, back_to, finish_rebase, resolve, rebase_onto, rebase_current,
  rebase, rebase_unless_head, in_new, merge, write_file, edit, conclude,
}
use deska.Cli.Session.Triples.{
  Triple, Keeps, triple_bind, triple_pure, triple_if, triple_test, triple_weaken, Keeps-or_throw,
}
use deska.Cli.Session.Laws.{ChangesetLaws, session, At, Keeps-server, Keeps-locking, Keeps-apply}
use deska.Cli.Session.Calls.{kept_triple, back_triple, finish_triple, detach_triple, create_triple}

module _ {V : Type 0} (ops : ValueOps V) (db : DbInteraction V) (parser : Parser db.Server)
    (env : Environment V) (laws : ChangesetLaws db parser) where
  abbrev In : Option ℕ → List ℕ → Option ℕ → Ui db parser env → Type 0
  In = At ops db parser env laws

  abbrev Quiet : {A : Type 0} → Exec (Ui db parser env) Fault A → Type 0
  Quiet m = Keeps (session ops db parser env laws) m

  -- After a rebase: nothing is aborted; or the rebase failed and its new changeset is aborted; or the
  -- old changeset is aborted and the new one is the current one.
  abbrev pub Outcome : ℕ → List ℕ → Bool → Ui db parser env → Type 0
  Outcome old l b s =
      In (some old) l (some old) s
      ⊎ (((new : ℕ) × In (some old) (new ∷ l) (some old) s × (b ≡ false))
          ⊎ ((new : ℕ) × In (some new) (old ∷ l) (some new) s))

  lock-Quiet : Quiet (not_locked_out (on_server db.lock_current_changeset))
  lock-Quiet =
      Keeps-locking ops db parser env laws (on_server db.lock_current_changeset)
        (Keeps-server ops db parser env laws db.lock_current_changeset laws.lock_law)

  some-inj : {m n : ℕ} → some m ≡ some n → m ≡ n
  some-inj h = cc

  module _ (old : ℕ) (l : List ℕ) where
    abbrev Inside : ℕ → Ui db parser env → Type 0
    Inside new = In (some new) l (some old)

    back_outcome : (new : ℕ) → Triple (Inside new) (back_to ops db parser env old) (Outcome old l)
    back_outcome new =
        triple_weaken _ (λ b s. In (some old) (new ∷ l) (some old) s × (b ≡ false)) _ _
          (back_triple ops db parser env laws old new l) (λ b s h. inr (inl (new, h.0, h.1)))

    finish_outcome :
        (new : ℕ) → Triple (Inside new) (finish_rebase ops db parser env old new) (Outcome old l)
    finish_outcome new =
        triple_weaken _ (λ b. In (some new) (old ∷ l) (some new)) _ _
          (finish_triple ops db parser env laws old new l) (λ b s h. inr (inr (new, h)))

    -- a call that keeps the changesets, before the rest
    module _ (new : ℕ) where
      then_inside :
          {A : Type 0} (m : Exec (Ui db parser env) Fault A) (k : A → Command db parser env)
          → Quiet m
          → ((a : A) → Triple (Inside new) (k a) (Outcome old l))
          → Triple (Inside new) (m >>= k) (Outcome old l)
      then_inside m k hm hk =
          triple_bind _ (λ _. Inside new) _ m k
            (kept_triple ops db parser env laws (some new) l (some old) m hm) hk

      asked :
          {A : Type 0} (m : Exec db.Server Fault A) (k : A → Command db parser env)
          → ((s : db.Server) → laws.view (m s).1 ≡ laws.view s)
          → ((a : A) → Triple (Inside new) (k a) (Outcome old l))
          → Triple (Inside new) (on_server m >>= k) (Outcome old l)
      asked m k hm hk = then_inside (on_server m) k (Keeps-server ops db parser env laws m hm) hk

      thrown :
          {A : Type 0} (o : Option A) (k : A → Command db parser env)
          → ((a : A) → Triple (Inside new) (k a) (Outcome old l))
          → Triple (Inside new) (or_throw o >>= k) (Outcome old l)
      thrown o k hk =
          then_inside (or_throw o) k (Keeps-or_throw (session ops db parser env laws) o) hk

    conclude_outcome :
        (new : ℕ) → Triple (Inside new) (conclude ops db parser env old new) (Outcome old l)
    unfolding conclude
    conclude_outcome new =
        triple_test (Inside new) (Outcome old l) (λ s. s.parsing_failed)
          (back_to ops db parser env old) (finish_rebase ops db parser env old new)
          (back_outcome new) (finish_outcome new)

    edit_outcome :
        (new : ℕ) (file : List Text)
        → Triple (Inside new) (edit ops db parser env old new file) (Outcome old l)
    unfolding edit
    edit_outcome new file =
        triple_if (Inside new) (Outcome old l) env.can_read_temp_file _
          (back_to ops db parser env old)
          (then_inside new (apply_file ops db parser env file)
            (λ _. conclude ops db parser env old new) (Keeps-apply ops db parser env laws file)
            (λ _. conclude_outcome new))
          (back_outcome new)

    write_outcome :
        (new : ℕ) (mine es os : List (ObjectModificationResult V))
        → Triple (Inside new) (write_file ops db parser env old new mine es os) (Outcome old l)
    unfolding write_file
    write_outcome new mine es os =
        triple_if (Inside new) (Outcome old l) (env.can_create_temp_file && env.can_write_temp_file)
          _ (back_to ops db parser env old)
          (thrown new (merged_file ops (our_deletions mine) es os) (edit ops db parser env old new)
            (edit_outcome new))
          (back_outcome new)

    merge_outcome :
        (new : ℕ) (theirs mine : List (ObjectModificationResult V))
        → Triple (Inside new) (merge ops db parser env old new theirs mine) (Outcome old l)
    unfolding merge
    merge_outcome new theirs mine = thrown new (prepared ops db parser env theirs) _ (λ es.
        thrown new (prepared ops db parser env mine) (write_file ops db parser env old new mine es)
          (write_outcome new mine es))

    resolve_outcome :
        (new old_parent : ℕ)
        → Triple (Inside new) (resolve ops db parser env old new old_parent) (Outcome old l)
    unfolding resolve
    resolve_outcome new old_parent =
        asked new (db.changeset_parent new) _ (laws.parent_law new) (λ new_parent.
          asked new (db.revisions_difference old_parent new_parent) _
            (laws.difference_law old_parent new_parent)
            (λ theirs.
              asked new (db.revisions_difference_changeset old)
                (merge ops db parser env old new theirs) (laws.changes_law old)
                (merge_outcome new theirs)))

    unchanged : (b : Bool) → Triple (Inside old) (pure b) (Outcome old l)
    unchanged b = triple_pure (Inside old) (Outcome old l) b (λ s p. inl p)

    abbrev lock : Command db parser env
    lock = not_locked_out (on_server db.lock_current_changeset)

    new_outcome :
        (old_parent new : ℕ)
        → Triple (Inside new) (in_new ops db parser env old old_parent new) (Outcome old l)
    unfolding in_new
    new_outcome old_parent new =
        then_inside new lock
          (λ locked.
            if locked
            then resolve ops db parser env old new old_parent
            else back_to ops db parser env old)
          lock-Quiet
          (λ locked.
            triple_if (Inside new) (Outcome old l) locked
              (resolve ops db parser env old new old_parent) (back_to ops db parser env old)
              (resolve_outcome new old_parent) (back_outcome new))

    fresh_outcome :
        (old_parent : ℕ)
        → Triple
            (Inside old)
            (on_server (db.detach_from_changeset (codes "Rebase in progress")) >>= λ _.
              (on_server db.create_new_changeset >>= in_new ops db parser env old old_parent))
            (Outcome old l)
    fresh_outcome old_parent =
        triple_bind (Inside old) (λ _. In none l (some old)) (Outcome old l)
          (on_server (db.detach_from_changeset (codes "Rebase in progress")))
          (λ _. on_server db.create_new_changeset >>= in_new ops db parser env old old_parent)
          (detach_triple ops db parser env laws (some old) l (some old)
            (codes "Rebase in progress"))
          (λ _.
            triple_bind (In none l (some old)) Inside (Outcome old l)
              (on_server db.create_new_changeset) (in_new ops db parser env old old_parent)
              (create_triple ops db parser env laws none l (some old)) (new_outcome old_parent))

    onto_outcome :
        (old_parent : ℕ)
        → Triple (Inside old) (rebase_onto ops db parser env old old_parent) (Outcome old l)
    unfolding rebase_onto
    onto_outcome old_parent = then_inside old lock _ lock-Quiet (λ locked.
        triple_if (Inside old) (Outcome old l) locked _ (pure false) (fresh_outcome old_parent)
          (unchanged false))

    unless_head_outcome :
        (old_parent head : ℕ)
        → Triple
            (Inside old)
            (rebase_unless_head ops db parser env old old_parent head)
            (Outcome old l)
    unfolding rebase_unless_head
    unless_head_outcome old_parent head =
        triple_if (Inside old) (Outcome old l) (head == old_parent) (pure true) _ (unchanged true) (
          triple_test (Inside old) (Outcome old l) (is_non_interactive db parser env) (pure false)
            (rebase_onto ops db parser env old old_parent) (unchanged false)
            (onto_outcome old_parent))

    current_outcome : Triple (Inside old) (rebase_current ops db parser env old) (Outcome old l)
    unfolding rebase_current
    current_outcome = asked old (db.changeset_parent old) _ (laws.parent_law old) (λ old_parent.
        asked old db.all_revisions _ laws.revisions_law (λ revisions.
          thrown old (back revisions) (rebase_unless_head ops db parser env old old_parent)
            (unless_head_outcome old_parent)))

    abbrev select : Option ℕ → Command db parser env
    select o s = elim o [ none ↦ (ok false, s) | some c ↦ rebase_current ops db parser env c s ]

    dispatch :
        (o : Option ℕ) (s : Ui db parser env) (b : Bool) (t : Ui db parser env)
        → o ≡ some old
        → select o s ≡ (ok b, t)
        → rebase_current ops db parser env old s ≡ (ok b, t)
    dispatch none s b t h e = cc
    dispatch (some c) s b t h e = rw (sym (some-inj h)) e

    -- If the session is attached to the current changeset and rebase returns, then the session is still
    -- attached to the changeset that the user interface holds for the current one, and either nothing
    -- was aborted and the changeset is the old one, or rebase returned false, aborted the changeset
    -- that it had made and went back to the old one, or it aborted the old one and is in the new one.
    -- The server keeps to the laws of its changesets.
    pub rebase_outcome :
        (params : Text) (s : Ui db parser env) (b : Bool) (t : Ui db parser env)
        → In (some old) l (some old) s
        → rebase ops db parser env params s ≡ (ok b, t)
        → Outcome old l b t
    unfolding rebase
    rebase_outcome params s b t p e =
        triple_test (Inside old) (Outcome old l) (λ _. not (is_empty params)) (pure false)
          (λ x. select x.current_changeset x) (unchanged false)
          (λ x c u q f.
            current_outcome x c u q (dispatch x.current_changeset x c u (ap (λ r. r.1) q) f))
          s b t p e
