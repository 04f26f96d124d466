-- ===== src/Cli/Ui/Loop.antt =====
-- The loop of `run` after an exception.
use deska.Base.{ℕ, Option, none, some, [], ◌∷◌, ◌++◌, false, ◌≡◌, refl, ◌⊎◌, inl, inr, ap, sym}
use deska.Base.Text.{Text}
use deska.Db.Exec.{Result, ok, fail}
use deska.Cli.Session.Interface.{
  Fault, changeset_range_error, changeset_locking_error, server_error, constraint_error,
  obsolete_parent_error, remote_db_error, not_found_error, json_parse_error, re_create_object_error,
  already_exists_error, mass_creating_embedded_error, json_connection_error, other_error,
}
use deska.Cli.Objects.State.{ObjectsApi}
use deska.Cli.Signals.Interface.{ContextStack}
use deska.Cli.Ui.Run.{Client, Loop, process, message, recover, handled, run_line}

module _ {V : Type 0} (api : ObjectsApi V) (client : Client V api) where
  -- the state in which a line is read
  abbrev pub begun : Loop api client → Loop api client
  begun s = record s { ui = record (s.ui) { parsing_failed = false } }

  -- The state after the handler of `e`, thrown in the state `v`.
  pub record IsRecovered (e : Fault) (previous : ContextStack V) (v t : Loop api client)
      : Type 0 where
    pub context : t.parser ≡ previous
    pub cache : t.ui.interaction.object_exists_cache ≡ []
    pub server : t.ui.interaction.server ≡ v.ui.interaction.server
    pub view : t.ui.interaction.stable_view ≡ v.ui.interaction.stable_view
    pub changeset : t.ui.current_changeset ≡ v.ui.current_changeset
    pub reported : t.ui.errors ≡ v.ui.errors ++ message api client e ∷ []

  -- How the processing of a line that threw nothing, or something that is caught, has ended.
  abbrev pub Outcome :
      ContextStack V
      → Result Fault (Unit {0}) × Loop api client
      → Option ℕ
      → Loop api client
      → Type 0
  Outcome previous out code t =
      ((out ≡ (ok tt, t)) × (code ≡ none))
      ⊎ (((out.0 ≡ fail json_connection_error) × (code ≡ some 9))
          ⊎ ((e : Fault) × (out.0 ≡ fail e) × (code ≡ none) × IsRecovered e previous out.1 t))

  recovered :
      (e : Fault) (previous : ContextStack V) (v : Loop api client) (code : Option ℕ)
      (t : Loop api client)
      → ◌≡◌ {A = Result Fault (Option ℕ) × Loop api client}
          (ok none, recover api client e previous v)
          (ok code, t)
      → Outcome previous (fail e, v) code t
  unfolding recover
  recovered e previous v code t h =
      let q : recover api client e previous v ≡ t = ap (λ z. z.1) h in
      inr (
        inr (
          e,
          refl,
          ap (λ z. elim z.0 [ ok c ↦ c | fail f ↦ code ]) (sym h),
          rw (← q) (record {
            context = refl;
            cache = refl;
            server = refl;
            view = refl;
            changeset = refl;
            reported = refl;
          }),
        ))

  handled_lem :
      (previous : ContextStack V) (r : Result Fault (Unit {0})) (v : Loop api client)
      (code : Option ℕ) (t : Loop api client)
      → handled api client previous (r, v) ≡ (ok code, t)
      → Outcome previous (r, v) code t
  unfolding handled
  handled_lem previous (ok tt) v code t e =
      inl (λ i. (ok tt, ap (λ z. z.1) e i), ap (λ z. elim z.0 [ ok c ↦ c | fail f ↦ code ]) (sym e))
  handled_lem previous (fail json_connection_error) v code t e =
      inr (inl (refl, ap (λ z. elim z.0 [ ok c ↦ c | fail f ↦ code ]) (sym e)))
  handled_lem previous (fail other_error) v code t e = cc
  handled_lem previous (fail mass_creating_embedded_error) v code t e = cc
  handled_lem previous (fail re_create_object_error) v code t e =
      recovered re_create_object_error previous v code t e
  handled_lem previous (fail already_exists_error) v code t e =
      recovered already_exists_error previous v code t e
  handled_lem previous (fail changeset_range_error) v code t e =
      recovered changeset_range_error previous v code t e
  handled_lem previous (fail changeset_locking_error) v code t e =
      recovered changeset_locking_error previous v code t e
  handled_lem previous (fail server_error) v code t e = recovered server_error previous v code t e
  handled_lem previous (fail constraint_error) v code t e =
      recovered constraint_error previous v code t e
  handled_lem previous (fail obsolete_parent_error) v code t e =
      recovered obsolete_parent_error previous v code t e
  handled_lem previous (fail remote_db_error) v code t e =
      recovered remote_db_error previous v code t e
  handled_lem previous (fail not_found_error) v code t e =
      recovered not_found_error previous v code t e
  handled_lem previous (fail json_parse_error) v code t e =
      recovered json_parse_error previous v code t e

  -- A line, not the end of the input, after which run returns or goes on: either nothing was thrown,
  -- and run goes on in the state that the command or the parser has left; or the connection was lost,
  -- and run returns 9; or something else was thrown, and run goes on with the parser in the context
  -- stack from before the line, whatever the line has done to it, the cache empty, the one error
  -- reported, and the server, its view and the changeset as they were at the throw.
  pub run_line-Outcome :
      (line : Text) (s : Loop api client) (code : Option ℕ) (t : Loop api client)
      → run_line api client (line, false) s ≡ (ok code, t)
      → Outcome s.parser (process api client line (begun s)) code t
  unfolding run_line
  run_line-Outcome line s code t h =
      handled_lem s.parser (process api client line (begun s)).0
        (process api client line (begun s)).1 code t h
