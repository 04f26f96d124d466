-- ===== src/Cli/Signals/Handler.antt =====
-- `ParserSignal`, its `apply` and `confirm`, and `SignalsHandler`.
use deska.Base.{but_last, Bool, true, false, not, ◌&&◌, Option, List, [], ◌∷◌, ◌++◌, if◌then◌else◌}
use deska.Base.Text.{Text}
use deska.Db.Exec.{Exec, ok, ◌>>=◌, pure}
use deska.Db.Filter.{Filter}
use deska.Cli.Path.Context.{object_item, filter_item}
use deska.Cli.Session.Interface.{Fault}
use deska.Cli.Signals.Interface.{Item, ContextStack, UserInterface}

-- each with the context stack of the parser at the signal
pub data ParserSignal (V : Type 0) : Type 0 where
  create_object category_entered : ContextStack V → Text → Text → ParserSignal V
  category_left : ParserSignal V
  set_attribute : ContextStack V → Text → Text → Option V → ParserSignal V
  set_attribute_insert set_attribute_remove : ContextStack V → Text → Text → Text → ParserSignal V
  remove_attribute : ContextStack V → Text → Text → ParserSignal V
  objects_filter : ContextStack V → Text → Option (Filter V) → ParserSignal V
  function_show function_delete : ContextStack V → ParserSignal V
  function_rename : ContextStack V → Text → ParserSignal V

-- `SignalsHandler`; of the parser it uses the context stack.
pub record SignalsHandler (V U : Type 0) : Type 0 where
  pub parser : ContextStack V
  pub user_interface : U
  pub context_stack : ContextStack V
  pub context_stack_backup : ContextStack V
  pub auto_create : Bool
  pub function_word : Bool
  pub signals_stack : List (ParserSignal V)

module _ {V : Type 0} (ui : UserInterface V) where
  abbrev pub Handler : Type 0
  Handler = SignalsHandler V ui.Ui

  abbrev pub Slot : Type 0 → Type 0
  Slot A = Exec Handler Fault A

  -- a call of the user interface
  abbrev pub ask : {A : Type 0} → Exec ui.Ui Fault A → Slot A
  ask m h = ((m h.user_interface).0, record h { user_interface = (m h.user_interface).1 })

  abbrev pub push : Item V → Handler → Handler
  push i h = record h { context_stack = h.context_stack ++ i ∷ [] }

  -- `contextStack.push_back(…); return true;` or `return false;`
  abbrev pub enter : Bool × Item V → Slot Bool
  enter (true, i) h = (ok true, push i h)
  enter (false, i) h = (ok false, h)

  abbrev pub in_context : (ContextStack V → Slot Bool) → Slot Bool
  in_context m h = m h.context_stack h

  abbrev pub word : (ContextStack V → Slot Bool) → Slot Bool
  word m h = m h.context_stack (record h { function_word = true })

  unfoldable pub apply : ParserSignal V → Slot Bool
  apply (create_object c k n) =
      in_context
        (λ stack. ask (ui.apply_create_object (stack ++ object_item k n ∷ []) k n) >>= enter)
  apply (category_entered c k n) =
      in_context
        (λ stack. ask (ui.apply_category_entered (stack ++ object_item k n ∷ []) k n) >>= enter)
  apply category_left = λ h. (ok true, record h { context_stack = but_last h.context_stack })
  apply (set_attribute c k a v) = in_context (λ stack. ask (ui.apply_set_attribute stack k a v))
  apply (set_attribute_insert c k a v) =
      in_context (λ stack. ask (ui.apply_set_attribute_insert stack k a v))
  apply (set_attribute_remove c k a v) =
      in_context (λ stack. ask (ui.apply_set_attribute_remove stack k a v))
  apply (remove_attribute c k a) = in_context (λ stack. ask (ui.apply_remove_attribute stack k a))
  apply (objects_filter c k f) = in_context (λ stack.
      ask (ui.apply_objects_filter (stack ++ filter_item k f ∷ []) k f) >>= λ b.
      enter (b, filter_item k f))
  apply (function_show c) = word (λ stack. ask (ui.apply_function_show stack))
  apply (function_delete c) = word (λ stack. ask (ui.apply_function_delete stack))
  apply (function_rename c n) = word (λ stack. ask (ui.apply_function_rename stack n))

  abbrev pub set_auto_create : Bool × Bool → Slot Bool
  set_auto_create (b, a) h = (ok b, record h { auto_create = a })

  -- with `autoCreate` set before
  abbrev pub confirm_entered : ContextStack V → Text → Text → Slot Bool
  confirm_entered c k n h =
      if h.auto_create
      then (ok true, h)
      else (ask (ui.confirm_category_entered c k n h.auto_create) >>= set_auto_create) h

  unfoldable pub confirm : ParserSignal V → Slot Bool
  confirm (create_object c k n) = ask (ui.confirm_create_object c k n)
  confirm (category_entered c k n) = confirm_entered c k n
  confirm category_left = λ h. (ok true, record h { auto_create = false })
  confirm (set_attribute c k a v) = ask (ui.confirm_set_attribute c k a v)
  confirm (set_attribute_insert c k a v) = ask (ui.confirm_set_attribute_insert c k a v)
  confirm (set_attribute_remove c k a v) = ask (ui.confirm_set_attribute_remove c k a v)
  confirm (remove_attribute c k a) = ask (ui.confirm_remove_attribute c k a)
  confirm (objects_filter c k f) = ask (ui.confirm_objects_filter c k f)
  confirm (function_show c) = ask (ui.confirm_function_show c)
  confirm (function_delete c) = ask (ui.confirm_function_delete c)
  confirm (function_rename c n) = ask (ui.confirm_function_rename c n)

  -- A loop over the signals, up to the first that is refused.
  unfoldable pub all_signals : (ParserSignal V → Slot Bool) → List (ParserSignal V) → Slot Bool
  all_signals m [] = pure true
  all_signals m (s ∷ ss) =
      let rest = all_signals m ss in m s >>= λ done. (if done then rest else pure false)

  -- `m_parser->setContextStack(…)`
  unfoldable pub set_parser : Bool → Slot (Unit {0})
  set_parser all_performed h = (
    ok tt,
    record h {
      parser =
          if not all_performed && h.function_word then h.context_stack_backup else h.context_stack;
    },
  )

  unfoldable pub slot_parsing_finished : Slot (Unit {0})
  unfolding all_signals confirm apply set_parser
  slot_parsing_finished h =
      (all_signals confirm h.signals_stack >>= λ all_confirmed.
      ((if all_confirmed then all_signals apply h.signals_stack else pure true) >>= set_parser))
        h

  unfoldable pub slot_parsing_started : Slot (Unit {0})
  slot_parsing_started h = (
    ok tt,
    record h {
      auto_create = false;
      function_word = false;
      signals_stack = [];
      context_stack = h.parser;
      context_stack_backup = h.parser;
    },
  )

  -- The other slots push a signal with the parser's context stack.
  abbrev pub record_signal : (ContextStack V → ParserSignal V) → Slot (Unit {0})
  record_signal make h = (ok tt, record h { signals_stack = h.signals_stack ++ make h.parser ∷ [] })

  unfoldable pub slot_parser_error : ui.Error → Slot (Unit {0})
  slot_parser_error e = ask (ui.report_parse_error e)
