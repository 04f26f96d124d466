-- ===== src/Cli/Ui/Tests.antt =====
-- A client whose parser fails on every line but the empty one, and whose command `exit` ends the loop.
use deska.Base.{Bool, true, false, Option, none, some, List, [], ◌∷◌, if◌then◌else◌, ◌≡◌, refl}
use deska.Base.Text.{Text, codes, text_eq, text_compare, is_empty}
use deska.Db.Exec.{Exec, ok, fail}
use deska.Cli.Diff.Converters.{ObjectDefinition}
use deska.Cli.Path.Context.{object_item}
use deska.Cli.Relations.{db_interaction}
use deska.Cli.Session.Interface.{Fault, server_error}
use deska.Cli.Objects.State.{Method}
use deska.Cli.Objects.Example.{api}
use deska.Cli.Signals.Interface.{ContextStack, Item}
use deska.Cli.Signals.Interface as Signals
use deska.Cli.Signals.Handler.{
  function_show, remove_attribute, confirm, all_signals, slot_parsing_finished,
}
use deska.Cli.Ui.State.{UserInterfaceIo, Ui}
use deska.Cli.Ui.Run.{Session, Client, Loop, process, run_line, run}
use deska.Cli.Ui.Confirm.{confirm_remove_attribute}
use deska.Cli.Ui.Loop.{begun, Outcome, run_line-Outcome}
use deska.Cli.Ui.Wired.{Appliers, appliers_of, user_interface}
use deska.Cli.Ui.Apply.{ApplyIo}
use deska.Cli.Ui.Detached.{H, slot_parsing_finished-Detached}

abbrev text : Text → Text
text t = t

abbrev parse_line : Text → Exec (Session Text (Ui api)) Fault (Unit {0})
parse_line l s = if is_empty l then (ok tt, s) else (fail server_error, s)

abbrev leave : Exec (Session Text (Ui api)) Fault (Unit {0})
leave s = (ok tt, record s { exit_loop = true })

abbrev client : Client Text api
client = record {
  parse_line = parse_line;
  commands_map = λ n. if text_eq n (codes "exit") then some (λ a. leave) else none;
  quit = leave;
  what = λ e. codes "fault";
}

abbrev ui_state : Ui api
ui_state = record {
  interaction = record {
    server = λ o. false;
    relations = db_interaction [];
    stable_view = false;
    object_exists_cache = [];
  };
  current_changeset = none;
  parsing_failed = false;
  non_interactive_mode = false;
  force_non_interactive = false;
  errors = [];
}

abbrev context : ContextStack Text
context = object_item (codes "host") (codes "a") ∷ []

abbrev session : Loop api client
session = record { ui = ui_state; parser = context; exit_loop = false }

abbrev lines : List (Text × Bool)
lines =
    (codes "no such command", false)
    ∷ (codes "", false)
    ∷ (codes "exit", false)
    ∷ (codes "", false)
    ∷ []

abbrev finish : Loop api client
finish = (run api client lines session).1

run_value : run api client lines session ≡ (ok (some 0), finish)
unfolding run text_compare
run_value = refl

-- a line that fails after it has changed the context of the parser
abbrev stepping : Client Text api
stepping = record client { parse_line = λ l s. (fail server_error, record s { parser = [] }) }

abbrev after_line : Loop api stepping
after_line = (run_line api stepping (codes "bad", false) session).1

line_value : run_line api stepping (codes "bad", false) session ≡ (ok none, after_line)
unfolding text_compare run_line
line_value = refl

run_line-Outcome_example :
    Outcome api stepping context
      (process api stepping (codes "bad") (begun api stepping session))
      none
      after_line
run_line-Outcome_example =
    run_line-Outcome api stepping (codes "bad") session none after_line line_value

abbrev io : UserInterfaceIo
io = record {
  confirm_creation = λ o. true;
  confirm_creation_connected = λ o. true;
  confirm_creation_connection = λ o os. true;
  confirm_deletion = λ o. true;
}

abbrev connected : ContextStack Text → Method api (Option (List ObjectDefinition))
connected c s = (ok (some []), s)

abbrev applied : Exec (Ui api) Fault Bool
applied u = (ok true, u)

abbrev apply_io : ApplyIo
apply_io = record {
  confirm_restoration = λ o. true;
  confirm_deletion_nested = λ os. true;
  confirm_rename_connected = λ os. true;
}

abbrev connected_of : ContextStack Text → Method api (List ObjectDefinition)
connected_of c s = (ok [], s)

abbrev report_error_of : Text → Exec (Ui api) Fault (Unit {0})
report_error_of e u = (ok tt, u)

abbrev appliers : Appliers Text (Ui api)
appliers =
    appliers_of api text apply_io server_error 1 connected_of Text (λ c. applied) report_error_of

abbrev handler : H api text io connected appliers
handler = record {
  parser = [];
  user_interface = ui_state;
  context_stack = context;
  context_stack_backup = context;
  auto_create = false;
  function_word = false;
  signals_stack =
      function_show context ∷ remove_attribute context (codes "host") (codes "rack") ∷ [];
}

abbrev wired : Signals.UserInterface Text
wired = user_interface api text io connected appliers

abbrev confirmed : H api text io connected appliers
confirmed = (all_signals wired (confirm wired) handler.signals_stack handler).1

confirmed_value :
    all_signals wired (confirm wired) handler.signals_stack handler ≡ (ok false, confirmed)
unfolding all_signals confirm confirm_remove_attribute
confirmed_value = refl

slot_parsing_finished-Detached_example :
    slot_parsing_finished wired handler ≡ (ok tt, record confirmed { parser = context })
slot_parsing_finished-Detached_example =
    slot_parsing_finished-Detached api text io connected appliers handler confirmed false refl refl
      confirmed_value
