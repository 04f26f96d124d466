-- ===== src/Cli/Signals/Tests.antt =====
-- A user interface that counts what it applies, and refuses what concerns the kind `locked`.
use deska.Base.{ℕ, suc, Bool, true, false, not, some, List, [], ◌∷◌, ◌≡◌, refl}
use deska.Base.Text.{Text, codes, text_eq, text_compare}
use deska.Db.Exec.{Exec, ok}
use deska.Cli.Path.Context.{object_item}
use deska.Cli.Session.Interface.{Fault}
use deska.Cli.Signals.Interface.{ContextStack, UserInterface}
use deska.Cli.Signals.Handler.{
  ParserSignal, category_entered, category_left, set_attribute, function_delete, Handler, confirm,
  apply, all_signals, slot_parsing_finished,
}
use deska.Cli.Signals.Reached.{slot_parsing_finished-refused, slot_parsing_finished-word}
use deska.Cli.Signals.Balanced.{nothing, plain, nested, slot_parsing_finished-balanced}

abbrev counted : Bool → Exec ℕ Fault Bool
counted b n = (ok b, suc n)

abbrev agreed : Bool → Exec ℕ Fault Bool
agreed b n = (ok b, n)

abbrev open_to : Text → Bool
open_to k = not (text_eq k (codes "locked"))

abbrev ui : UserInterface Text
ui = record {
  Ui = ℕ;
  Error = Text;
  apply_create_object = λ c k n s. (ok (true, object_item k n), suc s);
  apply_category_entered = λ c k n s. (ok (true, object_item k n), suc s);
  apply_set_attribute = λ c k a v. counted true;
  apply_set_attribute_insert = λ c k a v. counted true;
  apply_set_attribute_remove = λ c k a v. counted true;
  apply_remove_attribute = λ c k a. counted true;
  apply_objects_filter = λ c k f. counted true;
  apply_function_show = λ c. counted true;
  apply_function_delete = λ c. counted false;
  apply_function_rename = λ c n. counted true;
  confirm_create_object = λ c k n. agreed (open_to k);
  confirm_category_entered = λ c k n a s. (ok (open_to k, a), s);
  confirm_set_attribute = λ c k a v. agreed (open_to k);
  confirm_set_attribute_insert = λ c k a v. agreed true;
  confirm_set_attribute_remove = λ c k a v. agreed true;
  confirm_remove_attribute = λ c k a. agreed true;
  confirm_objects_filter = λ c k f. agreed true;
  confirm_function_show = λ c. agreed true;
  confirm_function_delete = λ c. agreed true;
  confirm_function_rename = λ c n. agreed true;
  report_parse_error = λ e s. (ok tt, s);
}

abbrev context : ContextStack Text
context = object_item (codes "site") (codes "cern") ∷ []

abbrev handler : List (ParserSignal Text) → Handler ui
handler ss = record {
  parser = object_item (codes "host") (codes "a") ∷ [];
  user_interface = 0;
  context_stack = context;
  context_stack_backup = context;
  auto_create = false;
  function_word = false;
  signals_stack = ss;
}

abbrev enter_host : ParserSignal Text
enter_host = category_entered context (codes "host") (codes "a")

abbrev set_rack : Text → ParserSignal Text
set_rack k = set_attribute context k (codes "rack") (some (codes "r1"))

abbrev refused_line : List (ParserSignal Text)
refused_line = enter_host ∷ set_rack (codes "locked") ∷ category_left ∷ []

abbrev whole_line : List (ParserSignal Text)
whole_line = enter_host ∷ set_rack (codes "host") ∷ category_left ∷ []

abbrev word_line : List (ParserSignal Text)
word_line = enter_host ∷ function_delete context ∷ []

abbrev confirmed : List (ParserSignal Text) → Handler ui
confirmed ss = (all_signals ui (confirm ui) ss (handler ss)).1

refused_value :
    all_signals ui (confirm ui) refused_line (handler refused_line)
    ≡ (ok false, confirmed refused_line)
unfolding all_signals confirm text_compare
refused_value = refl

slot_parsing_finished-refused_example :
    slot_parsing_finished ui (handler refused_line)
    ≡ (ok tt, record (confirmed refused_line) { parser = context })
slot_parsing_finished-refused_example =
    slot_parsing_finished-refused ui (handler refused_line) (confirmed refused_line) refused_value

whole_value :
    all_signals ui (confirm ui) whole_line (handler whole_line) ≡ (ok true, confirmed whole_line)
unfolding all_signals confirm text_compare
whole_value = refl

abbrev applied : Handler ui
applied = (all_signals ui (apply ui) whole_line (confirmed whole_line)).1

applied_value : all_signals ui (apply ui) whole_line (confirmed whole_line) ≡ (ok true, applied)
unfolding all_signals confirm apply text_compare
applied_value = refl

slot_parsing_finished-balanced_example :
    slot_parsing_finished ui (handler whole_line) ≡ (ok tt, record applied { parser = context })
slot_parsing_finished-balanced_example =
    slot_parsing_finished-balanced ui (handler whole_line) (confirmed whole_line) applied
      (nested enter_host refl (plain (set_rack (codes "host")) refl refl nothing) nothing)
      whole_value applied_value

word_value :
    all_signals ui (confirm ui) word_line (handler word_line) ≡ (ok true, confirmed word_line)
unfolding all_signals confirm text_compare
word_value = refl

abbrev inside : Handler ui
inside = (all_signals ui (apply ui) (enter_host ∷ []) (confirmed word_line)).1

inside_value : all_signals ui (apply ui) (enter_host ∷ []) (confirmed word_line) ≡ (ok true, inside)
unfolding all_signals confirm apply text_compare
inside_value = refl

abbrev denied : Handler ui
denied = (apply ui (function_delete context) inside).1

denied_value : apply ui (function_delete context) inside ≡ (ok false, denied)
unfolding all_signals confirm apply text_compare
denied_value = refl

slot_parsing_finished-word_example :
    slot_parsing_finished ui (handler word_line) ≡ (ok tt, record denied { parser = context })
slot_parsing_finished-word_example =
    slot_parsing_finished-word ui (enter_host ∷ []) [] (function_delete context) (handler word_line)
      (confirmed word_line) inside denied refl refl word_value inside_value denied_value
