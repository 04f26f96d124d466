-- ===== src/Cli/Session/Interface.antt =====
-- What the commands use of DbInteraction, of the parser, of the terminal and of the file system.
use deska.Base.{ℕ, Bool, true, false, Option, List}
use deska.Base.Text.{Text}
use deska.Db.Modification.{ObjectModificationResult}
use deska.Db.Exec.{Exec, Result, ok, fail}

-- The classes of exceptions that the commands tell apart; the others of RemoteDbError are
-- `remote_db_error`, and what is none of these is `other_error`.
pub data Fault : Type 0 where
  changeset_range_error changeset_locking_error server_error constraint_error : Fault
  obsolete_parent_error not_found_error re_create_object_error already_exists_error : Fault
  remote_db_error json_parse_error json_connection_error mass_creating_embedded_error : Fault
  other_error : Fault

-- What the commands read of a `PendingChangeset`: its own id.
pub record PendingChangeset : Type 0 where
  pub revision : ℕ

-- The fields of `UserInterface` that the commands use; `server` stands for DbInteraction with what
-- is behind it, `parser` for the parser with its context stack.
pub record UserInterface (S P : Type 0) : Type 0 where
  pub server : S
  pub parser : P
  pub current_changeset : Option ℕ
  pub parsing_failed : Bool
  pub non_interactive_mode : Bool
  pub force_non_interactive : Bool

-- `DbInteraction`
pub record DbInteraction (V : Type 0) : Type 1 where
  pub Server : Type 0
  pub create_new_changeset : Exec Server Fault ℕ
  pub resume_changeset : ℕ → Exec Server Fault (Unit {0})
  pub commit_changeset : Text → Exec Server Fault ℕ
  pub detach_from_changeset : Text → Exec Server Fault (Unit {0})
  pub abort_changeset : Exec Server Fault (Unit {0})
  pub lock_current_changeset : Exec Server Fault (Unit {0})
  pub unlock_current_changeset : Exec Server Fault (Unit {0})
  pub all_pending_changesets : Exec Server Fault (List PendingChangeset)
  pub changeset_parent : ℕ → Exec Server Fault ℕ
  pub all_revisions : Exec Server Fault (List ℕ)
  pub revisions_difference : ℕ → ℕ → Exec Server Fault (List (ObjectModificationResult V))
  pub revisions_difference_changeset : ℕ → Exec Server Fault (List (ObjectModificationResult V))
  pub embedded_into_kind : Text → Text
  pub readonly_attribute : Text → Text → Bool

-- The answers of the user and of the file system, and the libraries' functions.
pub record Environment (V : Type 0) : Type 0 where
  -- the index of the changeset that the user chooses, none for a negative one
  pub choose_changeset : List PendingChangeset → Option ℕ
  pub ask_for_commit_message : Text
  pub ask_for_detach_message : Text
  pub confirm_abort : Bool
  -- whether mkstemp, the std::ofstream and the std::ifstream succeed
  pub can_create_temp_file : Bool
  pub can_write_temp_file : Bool
  pub can_read_temp_file : Bool
  -- the content of the file after the editor
  pub edit_file : Text → Text
  -- `boost::tokenizer` at spaces and tabs, `boost::trim`, `boost::lexical_cast<unsigned int>`
  pub tokenizer : Text → List Text
  pub trim : Text → Text
  pub lexical_cast : Text → Option ℕ
  pub std_sort :
      (ObjectModificationResult V → ObjectModificationResult V → Bool)
      → List (ObjectModificationResult V)
      → List (ObjectModificationResult V)

-- The parser: the reset of its context stack, and `parseLine` with the signals that it raises.
pub record Parser (S : Type 0) : Type 1 where
  pub Context : Type 0
  pub clear_context_stack : Context → Context
  pub parse_line : Text → Exec (UserInterface S Context) Fault (Unit {0})

-- A call of DbInteraction by a command.
module _ {S P A : Type 0} where
  abbrev pub on_server : Exec S Fault A → Exec (UserInterface S P) Fault A
  on_server m s = ((m s.server).0, record s { server = (m s.server).1 })

-- `try { m; } catch (Db::ChangesetLockingError &e) { … }`: whether it was not thrown
abbrev pub locking_result : {A : Type 0} → Result Fault A → Result Fault Bool
locking_result (ok a) = ok true
locking_result (fail changeset_locking_error) = ok false
locking_result (fail e) = fail e

unfoldable pub not_locked_out : {S A : Type 0} → Exec S Fault A → Exec S Fault Bool
not_locked_out m s = (locking_result (m s).0, (m s).1)
