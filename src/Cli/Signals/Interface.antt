-- ===== src/Cli/Signals/Interface.antt =====
-- The functions of `UserInterface` that the signals call.
use deska.Base.{Bool, Option, List}
use deska.Base.Text.{Text}
use deska.Db.Exec.{Exec}
use deska.Db.Filter.{Filter}
use deska.Cli.Path.Context.{ContextStackItem}
use deska.Cli.Session.Interface.{Fault}

module _ (V : Type 0) where
  abbrev pub Item : Type 0
  Item = ContextStackItem (Filter V)

  abbrev pub ContextStack : Type 0
  ContextStack = List Item

-- A reference argument is an argument and a result. `Ui` is the state of the user interface with what
-- is behind it, `Error` stands for `ParserException`.
pub record UserInterface (V : Type 0) : Type 1 where
  pub Ui : Type 0
  pub Error : Type 0
  pub apply_create_object : ContextStack V → Text → Text → Exec Ui Fault (Bool × Item V)
  pub apply_category_entered : ContextStack V → Text → Text → Exec Ui Fault (Bool × Item V)
  pub apply_set_attribute : ContextStack V → Text → Text → Option V → Exec Ui Fault Bool
  pub apply_set_attribute_insert : ContextStack V → Text → Text → Text → Exec Ui Fault Bool
  pub apply_set_attribute_remove : ContextStack V → Text → Text → Text → Exec Ui Fault Bool
  pub apply_remove_attribute : ContextStack V → Text → Text → Exec Ui Fault Bool
  pub apply_objects_filter : ContextStack V → Text → Option (Filter V) → Exec Ui Fault Bool
  pub apply_function_show : ContextStack V → Exec Ui Fault Bool
  pub apply_function_delete : ContextStack V → Exec Ui Fault Bool
  pub apply_function_rename : ContextStack V → Text → Exec Ui Fault Bool
  pub confirm_create_object : ContextStack V → Text → Text → Exec Ui Fault Bool
  -- with `autoCreate`
  pub confirm_category_entered : ContextStack V → Text → Text → Bool → Exec Ui Fault (Bool × Bool)
  pub confirm_set_attribute : ContextStack V → Text → Text → Option V → Exec Ui Fault Bool
  pub confirm_set_attribute_insert : ContextStack V → Text → Text → Text → Exec Ui Fault Bool
  pub confirm_set_attribute_remove : ContextStack V → Text → Text → Text → Exec Ui Fault Bool
  pub confirm_remove_attribute : ContextStack V → Text → Text → Exec Ui Fault Bool
  pub confirm_objects_filter : ContextStack V → Text → Option (Filter V) → Exec Ui Fault Bool
  pub confirm_function_show : ContextStack V → Exec Ui Fault Bool
  pub confirm_function_delete : ContextStack V → Exec Ui Fault Bool
  pub confirm_function_rename : ContextStack V → Text → Exec Ui Fault Bool
  pub report_parse_error : Error → Exec Ui Fault (Unit {0})
