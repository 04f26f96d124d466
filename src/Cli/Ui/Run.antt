-- ===== src/Cli/Ui/Run.antt =====
-- `run`: one line of the user after the other.
use deska.Base.{ℕ, Bool, false, Option, none, some, List, [], ◌∷◌, ◌==◌, ◌++◌, if◌then◌else◌}
use deska.Base.Text.{Text, codes}
use deska.Db.Exec.{Exec, Result, ok, fail, ◌>>=◌, ◌>>◌, pure}
use deska.Cli.Session.Interface.{
  Fault, constraint_error, not_found_error, json_parse_error, json_connection_error,
  mass_creating_embedded_error, other_error,
}
use deska.Cli.Objects.State.{ObjectsApi, Method, clear_cache, freeze_view, unfreeze_view}
use deska.Cli.Signals.Interface.{ContextStack}
use deska.Cli.Ui.State.{Ui, attached, report_error}

-- `UserInterface` with its parser.
pub record Session (V U : Type 0) : Type 0 where
  pub ui : U
  pub parser : ContextStack V
  pub exit_loop : Bool

-- `m_parser->parseLine`, the commands of `commandsMap`, and the messages of the exceptions.
pub record Client (V : Type 0) (api : ObjectsApi V) : Type 0 where
  pub parse_line : Text → Exec (Session V (Ui api)) Fault (Unit {0})
  pub commands_map : Text → Option (Text → Exec (Session V (Ui api)) Fault (Unit {0}))
  pub quit : Exec (Session V (Ui api)) Fault (Unit {0})
  pub what : Fault → Text

-- the command and its arguments, at the first space
unfoldable pub split_command : Text → Text × Text
split_command [] = ([], [])
split_command (c ∷ s) =
    let rest = split_command s in if c == b' ' then ([], s) else (c ∷ rest.0, rest.1)

module _ {V : Type 0} (api : ObjectsApi V) (client : Client V api) where
  abbrev pub Loop : Type 0
  Loop = Session V (Ui api)

  abbrev pub Step : Type 0 → Type 0
  Step A = Exec Loop Fault A

  abbrev pub on_view : {A : Type 0} → Method api A → Step A
  on_view m s = (
    (m s.ui.interaction).0,
    record s { ui = record (s.ui) { interaction = (m s.ui.interaction).1 } },
  )

  -- `if (!currentChangeset) …`
  abbrev pub detached_only : Step (Unit {0}) → Step (Unit {0})
  detached_only m s = if attached api s.ui then (ok tt, s) else m s

  unfoldable pub parse : Text → Step (Unit {0})
  unfolding freeze_view unfreeze_view
  parse line =
      detached_only (on_view (freeze_view api))
      >> client.parse_line line
      >> detached_only (on_view (unfreeze_view api))

  -- the body of the try block
  unfoldable pub process : Text → Step (Unit {0})
  unfolding split_command parse
  process line = elim (client.commands_map (split_command line).0) [
    | none ↦ parse line
    | some command ↦ command (split_command line).1
  ]

  -- what a handler reports
  abbrev pub message : Fault → Text
  message constraint_error =
      codes "DB constraint violation:\n " ++ (client.what constraint_error ++ 10 ∷ [])
  message not_found_error =
      codes "DB reference constraint violation:\n " ++ (client.what not_found_error ++ 10 ∷ [])
  message json_connection_error = codes "Deska server not responding, or dead.\nExitting Deska CLI."
  message json_parse_error =
      codes "Unexpected JSON error:\n " ++ (client.what json_parse_error ++ 10 ∷ [])
  message e = codes "Unexpected server error:\n " ++ (client.what e ++ 10 ∷ [])

  abbrev pub report : Fault → Loop → Loop
  report e s = record s { ui = report_error api (message e) s.ui }

  -- `m_dbInteraction->clearCache(); m_parser->setContextStack(previosContextStack);`
  unfoldable pub recover : Fault → ContextStack V → Loop → Loop
  unfolding clear_cache
  recover e previous s = record (on_view (clear_cache api) (report e s)).1 { parser = previous }

  -- The handlers: `none` goes on with the next line, a number is what `run` returns.
  unfoldable pub handled :
      ContextStack V → Result Fault (Unit {0}) × Loop → Result Fault (Option ℕ) × Loop
  unfolding recover
  handled previous (ok u, s) = (ok none, s)
  handled previous (fail json_connection_error, s) = (ok (some 9), report json_connection_error s)
  handled previous (fail mass_creating_embedded_error, s) = (fail mass_creating_embedded_error, s)
  handled previous (fail other_error, s) = (fail other_error, s)
  handled previous (fail e, s) = (ok none, recover e previous s)

  -- One line, and whether it is the end of the input.
  unfoldable pub run_line : Text × Bool → Step (Option ℕ)
  unfolding handled process
  run_line (line, ended) s =
      ((if ended then client.quit else pure tt) >>= λ u. λ v. handled s.parser (process line v))
        (record s { ui = record (s.ui) { parsing_failed = false } })

  -- The loop over the lines that are read, which ends when they are used up.
  unfoldable pub run_lines : List (Text × Bool) → Step (Option ℕ)
  unfolding run_line
  run_lines [] s = (ok none, s)
  run_lines (l ∷ ls) s =
      if s.exit_loop
      then (ok (some 0), s)
      else (run_line l >>= λ code. elim code [ none ↦ run_lines ls | some n ↦ pure (some n) ]) s

  unfoldable pub run : List (Text × Bool) → Step (Option ℕ)
  unfolding run_lines
  run lines s = run_lines lines (record s { exit_loop = false })
