-- ===== src/Cli/Ui/Detached.antt =====
-- A session that is attached to no changeset.
use deska.Base.{
  ℕ, Bool, true, false, ◌||◌, Option, List, [], ◌∷◌, if◌then◌else◌, ◌≡◌, refl, sym, ap, ◌∙◌, subst,
}
use deska.Base.Text.{Text}
use deska.Db.Exec.{Result, ok, ◌>>=◌, pure, >>=-eq-ok}
use deska.Cli.Diff.Converters.{ObjectDefinition}
use deska.Cli.Session.Interface.{Fault}
use deska.Cli.Session.Triples.{Keeps, Keeps-bind, Keeps-if}
use deska.Cli.Objects.State.{ObjectsApi, Method}
use deska.Cli.Objects.Context.{object_exists_in}
use deska.Cli.Signals.Interface.{Item, ContextStack}
use deska.Cli.Signals.Interface as Signals
use deska.Cli.Signals.Handler.{
  ParserSignal, create_object, category_entered, category_left, set_attribute, set_attribute_insert,
  set_attribute_remove, remove_attribute, objects_filter, function_show, function_delete,
  function_rename, Handler, ask, set_auto_create, confirm, all_signals, slot_parsing_finished,
}
use deska.Cli.Signals.Reached.{slot_parsing_finished-refused}
use deska.Cli.Ui.State.{
  UserInterfaceIo, Ui, Call, on_interaction, has_changeset, attached, is_non_interactive,
}
use deska.Cli.Ui.Confirm.{
  with_changeset, confirm_create_object, ask_creation, confirm_category_entered,
  confirm_set_attribute, confirm_set_attribute_insert, confirm_set_attribute_remove,
  confirm_remove_attribute, confirm_function_delete, confirm_function_rename,
}
use deska.Cli.Ui.Wired.{Appliers, user_interface}

module _ {V : Type 0} (api : ObjectsApi V) (text : Text → V) (io : UserInterfaceIo)
    (connected : ContextStack V → Method api (Option (List ObjectDefinition)))
    (appliers : Appliers V (Ui api)) where
  abbrev pub wired : Signals.UserInterface V
  wired = user_interface api text io connected appliers

  abbrev pub H : Type 0
  H = Handler wired

  abbrev fst : Result Fault Bool × Ui api → Result Fault Bool
  fst r = r.0

  abbrev snd : Result Fault Bool × H → H
  snd r = r.1

  -- attached to no changeset
  abbrev pub Detached : H → Type 0
  Detached h = attached api h.user_interface ≡ false

  -- What changes objects; entering a context is not among it.
  abbrev pub modifies : ParserSignal V → Bool
  modifies (create_object c k n) = true
  modifies (category_entered c k n) = false
  modifies category_left = false
  modifies (set_attribute c k a v) = true
  modifies (set_attribute_insert c k a v) = true
  modifies (set_attribute_remove c k a v) = true
  modifies (remove_attribute c k a) = true
  modifies (objects_filter c k f) = false
  modifies (function_show c) = false
  modifies (function_delete c) = true
  modifies (function_rename c n) = true

  abbrev pub any_modifies : List (ParserSignal V) → Bool
  any_modifies [] = false
  any_modifies (s ∷ ss) = modifies s || any_modifies ss

  -- the second of two outcomes, which is a refusal
  second_lem :
      (c : Bool) (x y : Result Fault Bool × Ui api) (b : Bool)
      → c ≡ false
      → y.0 ≡ ok false
      → fst (if c then x else y) ≡ ok b
      → b ≡ false
  second_lem true x y b h r q = cc
  second_lem false x y b h r q = cc

  refused_signal :
      (s : ParserSignal V) (h : H) (b : Bool) (t : H)
      → modifies s ≡ true
      → Detached h
      → confirm wired s h ≡ (ok b, t)
      → b ≡ false
  unfolding confirm with_changeset confirm_create_object confirm_set_attribute
      confirm_set_attribute_insert confirm_set_attribute_remove confirm_remove_attribute
      confirm_function_delete confirm_function_rename
  refused_signal (create_object c k n) h b t m d e =
      second_lem (attached api h.user_interface) _ _ b d refl (ap (λ z. z.0) e)
  refused_signal (set_attribute c k a v) h b t m d e =
      second_lem (attached api h.user_interface) _ _ b d refl (ap (λ z. z.0) e)
  refused_signal (set_attribute_insert c k a v) h b t m d e =
      second_lem (attached api h.user_interface) _ _ b d refl (ap (λ z. z.0) e)
  refused_signal (set_attribute_remove c k a v) h b t m d e =
      second_lem (attached api h.user_interface) _ _ b d refl (ap (λ z. z.0) e)
  refused_signal (remove_attribute c k a) h b t m d e =
      second_lem (attached api h.user_interface) _ _ b d refl (ap (λ z. z.0) e)
  refused_signal (function_delete c) h b t m d e =
      second_lem (attached api h.user_interface) _ _ b d refl (ap (λ z. z.0) e)
  refused_signal (function_rename c n) h b t m d e =
      second_lem (attached api h.user_interface) _ _ b d refl (ap (λ z. z.0) e)
  refused_signal (category_entered c k n) h b t m d e = cc
  refused_signal category_left h b t m d e = cc
  refused_signal (objects_filter c k f) h b t m d e = cc
  refused_signal (function_show c) h b t m d e = cc

  abbrev changeset : Ui api → Option ℕ
  changeset u = u.current_changeset

  abbrev asked : ContextStack V → Call api Bool
  asked c = on_interaction api (object_exists_in api text c [])

  -- an outcome that leaves the changeset
  Same-changeset : Ui api → Result Fault (Bool × Bool) × Ui api → Type 0
  Same-changeset u r = changeset r.1 ≡ changeset u

  either_lem :
      (b : Bool) (x y : Result Fault (Bool × Bool) × Ui api) (u : Ui api)
      → Same-changeset u x
      → Same-changeset u y
      → Same-changeset u (if b then x else y)
  either_lem true x y u p q = p
  either_lem false x y u p q = q

  Keeps-creation :
      (c : ContextStack V) (k n : Text) (auto : Bool)
      → Keeps changeset (ask_creation api text io connected c k n auto)
  unfolding ask_creation Same-changeset
  Keeps-creation c k n auto u = either_lem (is_non_interactive api u) _ _ u refl (
      Keeps-bind changeset (asked c) _ (λ v. refl)
        (λ b.
          Keeps-if changeset b (pure (true, auto)) _ (λ v. refl)
            (Keeps-bind changeset (on_interaction api (connected c)) _ (λ v. refl) (λ os v. refl)))
        u)

  Keeps-entered :
      (c : ContextStack V) (k n : Text) (auto : Bool)
      → Keeps changeset (confirm_category_entered api text io connected c k n auto)
  unfolding confirm_category_entered Same-changeset
  Keeps-entered c k n auto u = either_lem (attached api u) _ _ u (Keeps-creation c k n auto u) (
      Keeps-bind changeset (asked c) _ (λ v. refl)
        (λ b.
          Keeps-if changeset b (ask_creation api text io connected c k n auto) _
            (Keeps-creation c k n auto) (λ v. refl))
        u)

  abbrev current : H → Option ℕ
  current h = h.user_interface.current_changeset

  -- A signal that changes nothing keeps the changeset.
  Keeps-signal : (s : ParserSignal V) → modifies s ≡ false → Keeps current (confirm wired s)
  unfolding confirm
  Keeps-signal (category_entered c k n) m h = by_auto h.auto_create
    where
      by_auto :
          (a : Bool)
          → current (
              snd (
                if a
                then (ok true, h)
                else (ask wired (confirm_category_entered api text io connected c k n h.auto_create)
                      >>= set_auto_create wired)
                    h))
            ≡ current h
      by_auto true = refl
      by_auto false =
          Keeps-bind current
            (ask wired (confirm_category_entered api text io connected c k n h.auto_create))
            (set_auto_create wired) (λ v. Keeps-entered c k n h.auto_create v.user_interface)
            (λ (b, a) v. refl) h
  Keeps-signal category_left m h = refl
  Keeps-signal (objects_filter c k f) m h = refl
  Keeps-signal (function_show c) m h = refl
  Keeps-signal (create_object c k n) m h = cc
  Keeps-signal (set_attribute c k a v) m h = cc
  Keeps-signal (set_attribute_insert c k a v) m h = cc
  Keeps-signal (set_attribute_remove c k a v) m h = cc
  Keeps-signal (remove_attribute c k a) m h = cc
  Keeps-signal (function_delete c) m h = cc
  Keeps-signal (function_rename c n) m h = cc

  all_refused :
      (ss : List (ParserSignal V)) (h : H) (b : Bool) (t : H)
      → any_modifies ss ≡ true
      → Detached h
      → all_signals wired (confirm wired) ss h ≡ (ok b, t)
      → b ≡ false
  unfolding all_signals
  all_refused [] h b t m d e = cc
  all_refused (s ∷ ss) h b t m d e =
      let (a, v, p, q) =
        >>=-eq-ok (confirm wired s)
          (λ x. if x then all_signals wired (confirm wired) ss else pure false) h e in
      by_signal (modifies s) refl m a v p q (all_refused ss v b t)
    where
      rest_lem :
          (a : Bool) (v : H)
          → (if a then all_signals wired (confirm wired) ss else pure false) v ≡ (ok b, t)
          → (all_signals wired (confirm wired) ss v ≡ (ok b, t) → b ≡ false)
          → b ≡ false
      rest_lem true v q r = r q
      rest_lem false v q r = cc

      stopped :
          (a : Bool) (v : H)
          → a ≡ false
          → (if a then all_signals wired (confirm wired) ss else pure false) v ≡ (ok b, t)
          → b ≡ false
      stopped true v z q = cc
      stopped false v z q = cc

      by_signal :
          (x : Bool)
          → modifies s ≡ x
          → (x || any_modifies ss) ≡ true
          → (a : Bool) (v : H) → confirm wired s h ≡ (ok a, v)
          → (if a then all_signals wired (confirm wired) ss else pure false) v ≡ (ok b, t)
          → (any_modifies ss ≡ true
              → Detached v
              → all_signals wired (confirm wired) ss v ≡ (ok b, t)
              → b ≡ false)
          → b ≡ false
      by_signal true x n a v p q r = stopped a v (refused_signal s h a v x d p) q
      by_signal false x n a v p q r = rest_lem a v q (
          r n (
            subst (λ c. has_changeset api c ≡ false)
              (sym (Keeps-signal s x h) ∙ ap (λ z. current z.1) p) d))

  -- While there is no current changeset, of a line in which at least one signal creates, deletes or
  -- renames an object or changes an attribute, no signal is applied, whichever question the user is asked
  -- before: if the confirmation returns, then so does slotParsingFinished, with the handler and the user
  -- interface as the confirmation has left them and the parser back in the context of the start.
  pub slot_parsing_finished-Detached :
      (h c : H) (b : Bool)
      → Detached h
      → any_modifies h.signals_stack ≡ true
      → all_signals wired (confirm wired) h.signals_stack h ≡ (ok b, c)
      → slot_parsing_finished wired h ≡ (ok tt, record c { parser = h.context_stack })
  slot_parsing_finished-Detached h c b d m e =
      slot_parsing_finished-refused wired h c
        (e ∙ ap (λ x. (ok x, c)) (all_refused h.signals_stack h b c m d e))
