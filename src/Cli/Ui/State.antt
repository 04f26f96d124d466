-- ===== src/Cli/Ui/State.antt =====
-- The fields of `UserInterface`, and what it asks of the user.
use deska.Base.{ℕ, Bool, true, false, Option, none, some, List, [], ◌∷◌, ◌++◌, if◌then◌else◌}
use deska.Base.Text.{Text}
use deska.Db.Exec.{Exec, ok}
use deska.Cli.Diff.Converters.{ObjectDefinition}
use deska.Cli.Session.Interface.{Fault}
use deska.Cli.Objects.State.{ObjectsApi, State}

-- The answers of the user.
pub record UserInterfaceIo : Type 0 where
  pub confirm_creation : ObjectDefinition → Bool
  -- without the connected objects, and with them
  pub confirm_creation_connected : ObjectDefinition → Bool
  pub confirm_creation_connection : ObjectDefinition → List ObjectDefinition → Bool
  pub confirm_deletion : ObjectDefinition → Bool

-- `errors` are the messages of `io->reportError`, `interaction` stands for `m_dbInteraction`.
pub record UserInterface (S : Type 0) : Type 0 where
  pub interaction : S
  pub current_changeset : Option ℕ
  pub parsing_failed : Bool
  pub non_interactive_mode : Bool
  pub force_non_interactive : Bool
  pub errors : List Text

module _ {V : Type 0} (api : ObjectsApi V) where
  abbrev pub Ui : Type 0
  Ui = UserInterface (State api)

  abbrev pub Call : Type 0 → Type 0
  Call A = Exec Ui Fault A

  -- a call of `m_dbInteraction`
  abbrev pub on_interaction : {A : Type 0} → Exec (State api) Fault A → Call A
  on_interaction m u = ((m u.interaction).0, record u { interaction = (m u.interaction).1 })

  abbrev pub report_error : Text → Ui → Ui
  report_error e u = record u { errors = u.errors ++ e ∷ [] }

  -- `io->reportError(e); parsingFailed = true; return false;`
  abbrev pub refuse : Text → Call Bool
  refuse e u = (ok false, record (report_error e u) { parsing_failed = true })

  abbrev pub has_changeset : Option ℕ → Bool
  has_changeset none = false
  has_changeset (some c) = true

  -- `currentChangeset`
  abbrev pub attached : Ui → Bool
  attached u = has_changeset u.current_changeset

  -- `nonInteractiveMode || forceNonInteractive`
  abbrev pub is_non_interactive : Ui → Bool
  is_non_interactive u = if u.non_interactive_mode then true else u.force_non_interactive
