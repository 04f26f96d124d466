-- ===== src/Cli/Ui/Wired.antt =====
-- The functions of the user interface that the signals call: the confirmations, and those that apply.
use deska.Base.{ℕ, Bool, true, Option, List}
use deska.Base.Text.{Text}
use deska.Db.Exec.{Exec, pure}
use deska.Db.Filter.{Filter}
use deska.Cli.Diff.Converters.{ObjectDefinition}
use deska.Cli.Session.Interface.{Fault}
use deska.Cli.Objects.State.{ObjectsApi, Method}
use deska.Cli.Objects.Transitive.{all_nested_transitively_in}
use deska.Cli.Signals.Interface.{Item, ContextStack}
use deska.Cli.Signals.Interface as Signals
use deska.Cli.Ui.Apply.{
  ApplyIo, apply_create_object, apply_category_entered, apply_set_attribute,
  apply_set_attribute_insert, apply_set_attribute_remove, apply_remove_attribute,
  apply_objects_filter, apply_function_delete, apply_function_rename,
}
use deska.Cli.Ui.State.{UserInterfaceIo, Ui}
use deska.Cli.Ui.Confirm.{
  confirm_create_object, confirm_category_entered, confirm_set_attribute,
  confirm_set_attribute_insert, confirm_set_attribute_remove, confirm_remove_attribute,
  confirm_function_delete, confirm_function_rename,
}

-- The functions that apply a signal.
pub record Appliers (V : Type 0) (U : Type 0) : Type 1 where
  pub Error : Type 0
  pub apply_create_object : ContextStack V → Text → Text → Exec U Fault (Bool × Item V)
  pub apply_category_entered : ContextStack V → Text → Text → Exec U Fault (Bool × Item V)
  pub apply_set_attribute : ContextStack V → Text → Text → Option V → Exec U Fault Bool
  pub apply_set_attribute_insert : ContextStack V → Text → Text → Text → Exec U Fault Bool
  pub apply_set_attribute_remove : ContextStack V → Text → Text → Text → Exec U Fault Bool
  pub apply_remove_attribute : ContextStack V → Text → Text → Exec U Fault Bool
  pub apply_objects_filter : ContextStack V → Text → Option (Filter V) → Exec U Fault Bool
  pub apply_function_show : ContextStack V → Exec U Fault Bool
  pub apply_function_delete : ContextStack V → Exec U Fault Bool
  pub apply_function_rename : ContextStack V → Text → Exec U Fault Bool
  pub report_parse_error : Error → Exec U Fault (Unit {0})

module _ {V : Type 0} (api : ObjectsApi V) (text : Text → V) (io : UserInterfaceIo)
    (connected : ContextStack V → Method api (Option (List ObjectDefinition)))
    (appliers : Appliers V (Ui api)) where
  -- The confirmations of filters and of show are always given.
  abbrev pub user_interface : Signals.UserInterface V
  user_interface = record {
    Ui = Ui api;
    Error = appliers.Error;
    apply_create_object = appliers.apply_create_object;
    apply_category_entered = appliers.apply_category_entered;
    apply_set_attribute = appliers.apply_set_attribute;
    apply_set_attribute_insert = appliers.apply_set_attribute_insert;
    apply_set_attribute_remove = appliers.apply_set_attribute_remove;
    apply_remove_attribute = appliers.apply_remove_attribute;
    apply_objects_filter = appliers.apply_objects_filter;
    apply_function_show = appliers.apply_function_show;
    apply_function_delete = appliers.apply_function_delete;
    apply_function_rename = appliers.apply_function_rename;
    confirm_create_object = confirm_create_object api text io connected;
    confirm_category_entered = confirm_category_entered api text io connected;
    confirm_set_attribute = confirm_set_attribute api text io connected;
    confirm_set_attribute_insert = confirm_set_attribute_insert api text io connected;
    confirm_set_attribute_remove = confirm_set_attribute_remove api text io connected;
    confirm_remove_attribute = confirm_remove_attribute api text io connected;
    confirm_objects_filter = λ c k f. pure true;
    confirm_function_show = λ c. pure true;
    confirm_function_delete = confirm_function_delete api text io connected;
    confirm_function_rename = confirm_function_rename api text io connected;
    report_parse_error = appliers.report_parse_error;
  }

-- The functions of Apply; that of show, which only prints, and the report of a parse error are given.
module _ {V : Type 0} (api : ObjectsApi V) (text : Text → V) (io : ApplyIo) (e : Fault) (fuel : ℕ)
    (connected : ContextStack V → Method api (List ObjectDefinition)) (Error : Type 0)
    (apply_function_show : ContextStack V → Exec (Ui api) Fault Bool)
    (report_parse_error : Error → Exec (Ui api) Fault (Unit {0})) where
  -- the search of nested objects, with the fuel
  abbrev nested : ContextStack V → Method api (List ObjectDefinition)
  nested = all_nested_transitively_in api text e fuel

  abbrev pub appliers_of : Appliers V (Ui api)
  appliers_of = record {
    Error = Error;
    apply_create_object = apply_create_object api text io nested connected;
    apply_category_entered = apply_category_entered api text io nested connected;
    apply_set_attribute = apply_set_attribute api text io nested connected;
    apply_set_attribute_insert = apply_set_attribute_insert api text io nested connected;
    apply_set_attribute_remove = apply_set_attribute_remove api text io nested connected;
    apply_remove_attribute = apply_remove_attribute api text io nested connected;
    apply_objects_filter = apply_objects_filter api text io nested connected;
    apply_function_show = apply_function_show;
    apply_function_delete = apply_function_delete api text io nested connected;
    apply_function_rename = apply_function_rename api text io nested connected;
    report_parse_error = report_parse_error;
  }
