-- ===== src/Cli/Signals/Reached.antt =====
-- What the loops of `slotParsingFinished` leave as it is.
use deska.Base.{Bool, true, false, List, [], ◌∷◌, ◌++◌, if◌then◌else◌, ◌≡◌, refl, sym, ap, ◌∙◌}
use deska.Base.Text.{Text}
use deska.Db.Exec.{Result, ok, ◌>>=◌, pure, >>=-eq-ok}
use deska.Cli.Path.Context.{object_item, filter_item}
use deska.Cli.Session.Interface.{Fault}
use deska.Cli.Session.Triples.{Keeps, Keeps-if, Keeps-bind}
use deska.Cli.Signals.Interface.{Item, ContextStack, UserInterface}
use deska.Cli.Signals.Handler.{
  ParserSignal, create_object, category_entered, category_left, set_attribute, set_attribute_insert,
  set_attribute_remove, remove_attribute, objects_filter, function_show, function_delete,
  function_rename, Handler, ask, enter, confirm, confirm_entered, set_auto_create, apply,
  all_signals, set_parser, slot_parsing_finished,
}

module _ {V : Type 0} (ui : UserInterface V) where
  -- the context stacks of the handler
  abbrev stacks : Handler ui → ContextStack V × ContextStack V
  stacks h = (h.context_stack, h.context_stack_backup)

  abbrev snd : Result Fault Bool × Handler ui → Handler ui
  snd r = r.1

  Keeps-entered : (c : ContextStack V) (k n : Text) → Keeps stacks (confirm_entered ui c k n)
  Keeps-entered c k n h = by_test h.auto_create
    where
      by_test :
          (b : Bool)
          → stacks (
              snd (
                if b
                then (ok true, h)
                else (ask ui (ui.confirm_category_entered c k n h.auto_create)
                      >>= set_auto_create ui)
                    h))
            ≡ stacks h
      by_test true = refl
      by_test false =
          Keeps-bind stacks (ask ui (ui.confirm_category_entered c k n h.auto_create))
            (set_auto_create ui) (λ v. refl) (λ (b, a) v. refl) h

  Keeps-confirm : (s : ParserSignal V) → Keeps stacks (confirm ui s)
  unfolding confirm
  Keeps-confirm (create_object c k n) h = refl
  Keeps-confirm (category_entered c k n) h = Keeps-entered c k n h
  Keeps-confirm category_left h = refl
  Keeps-confirm (set_attribute c k a v) h = refl
  Keeps-confirm (set_attribute_insert c k a v) h = refl
  Keeps-confirm (set_attribute_remove c k a v) h = refl
  Keeps-confirm (remove_attribute c k a) h = refl
  Keeps-confirm (objects_filter c k f) h = refl
  Keeps-confirm (function_show c) h = refl
  Keeps-confirm (function_delete c) h = refl
  Keeps-confirm (function_rename c n) h = refl

  pub Keeps-confirm_all :
      (ss : List (ParserSignal V)) → Keeps stacks (all_signals ui (confirm ui) ss)
  unfolding all_signals
  Keeps-confirm_all [] = λ h. refl
  Keeps-confirm_all (s ∷ ss) =
      Keeps-bind stacks (confirm ui s)
        (λ b. if b then all_signals ui (confirm ui) ss else pure false) (Keeps-confirm s)
        (λ b.
          Keeps-if stacks b (all_signals ui (confirm ui) ss) (pure false) (Keeps-confirm_all ss)
            (λ h. refl))

  -- When the confirmation of the signals ends with one that is refused, none of them is applied: the
  -- handler and the user interface stay as the confirmation has left them, and the parser gets back the
  -- context stack that the handler began with.
  pub slot_parsing_finished-refused :
      (h c : Handler ui)
      → all_signals ui (confirm ui) h.signals_stack h ≡ (ok false, c)
      → slot_parsing_finished ui h ≡ (ok tt, record c { parser = h.context_stack })
  unfolding slot_parsing_finished set_parser
  slot_parsing_finished-refused h c e = rw (e) (
      ap (λ p. (ok tt, record c { parser = p }))
        (ap (λ r. r.1.context_stack) (sym e) ∙ ap (λ z. z.0) (Keeps-confirm_all h.signals_stack h)))

  pub finished_lem :
      (h c t : Handler ui) (b : Bool)
      → all_signals ui (confirm ui) h.signals_stack h ≡ (ok true, c)
      → all_signals ui (apply ui) h.signals_stack c ≡ (ok b, t)
      → slot_parsing_finished ui h ≡ set_parser ui b t
  unfolding slot_parsing_finished
  finished_lem h c t b e f = rw (e, f) refl

  -- show, delete and rename
  abbrev pub is_word : ParserSignal V → Bool
  is_word (function_show c) = true
  is_word (function_delete c) = true
  is_word (function_rename c n) = true
  is_word _ = false

  abbrev backup : Handler ui → ContextStack V
  backup h = h.context_stack_backup

  word_set :
      (w : ParserSignal V) (m t : Handler ui) (b : Bool)
      → is_word w ≡ true
      → apply ui w m ≡ (ok b, t)
      → t.function_word ≡ true
  unfolding apply
  word_set (function_show c) m t b w e = ap (λ r. r.1.function_word) (sym e)
  word_set (function_delete c) m t b w e = ap (λ r. r.1.function_word) (sym e)
  word_set (function_rename c n) m t b w e = ap (λ r. r.1.function_word) (sym e)
  word_set (create_object c k n) m t b w e = cc
  word_set (category_entered c k n) m t b w e = cc
  word_set category_left m t b w e = cc
  word_set (set_attribute c k a v) m t b w e = cc
  word_set (set_attribute_insert c k a v) m t b w e = cc
  word_set (set_attribute_remove c k a v) m t b w e = cc
  word_set (remove_attribute c k a) m t b w e = cc
  word_set (objects_filter c k f) m t b w e = cc

  enter-backup : (r : Bool × Item V) → Keeps backup (enter ui r)
  enter-backup (true, i) h = refl
  enter-backup (false, i) h = refl

  Keeps-apply : (s : ParserSignal V) → Keeps backup (apply ui s)
  unfolding apply
  Keeps-apply (create_object c k n) h =
      Keeps-bind backup
        (ask ui (ui.apply_create_object (h.context_stack ++ object_item k n ∷ []) k n)) (enter ui)
        (λ v. refl) enter-backup h
  Keeps-apply (category_entered c k n) h =
      Keeps-bind backup
        (ask ui (ui.apply_category_entered (h.context_stack ++ object_item k n ∷ []) k n))
        (enter ui) (λ v. refl) enter-backup h
  Keeps-apply category_left h = refl
  Keeps-apply (set_attribute c k a v) h = refl
  Keeps-apply (set_attribute_insert c k a v) h = refl
  Keeps-apply (set_attribute_remove c k a v) h = refl
  Keeps-apply (remove_attribute c k a) h = refl
  Keeps-apply (objects_filter c k f) h =
      Keeps-bind backup
        (ask ui (ui.apply_objects_filter (h.context_stack ++ filter_item k f ∷ []) k f))
        (λ b. enter ui (b, filter_item k f)) (λ v. refl) (λ b. enter-backup (b, filter_item k f)) h
  Keeps-apply (function_show c) h = refl
  Keeps-apply (function_delete c) h = refl
  Keeps-apply (function_rename c n) h = refl

  Keeps-apply_all : (ss : List (ParserSignal V)) → Keeps backup (all_signals ui (apply ui) ss)
  unfolding all_signals
  Keeps-apply_all [] = λ h. refl
  Keeps-apply_all (s ∷ ss) =
      Keeps-bind backup (apply ui s) (λ b. if b then all_signals ui (apply ui) ss else pure false)
        (Keeps-apply s)
        (λ b.
          Keeps-if backup b (all_signals ui (apply ui) ss) (pure false) (Keeps-apply_all ss)
            (λ h. refl))

  -- the loop as far as everything is done
  all_append :
      (xs ys : List (ParserSignal V)) (h m : Handler ui)
      → all_signals ui (apply ui) xs h ≡ (ok true, m)
      → all_signals ui (apply ui) (xs ++ ys) h ≡ all_signals ui (apply ui) ys m
  unfolding all_signals
  all_append [] ys h m e = ap (λ r. all_signals ui (apply ui) ys r.1) e
  all_append (x ∷ xs) ys h m e =
      let (b, v, p, q) =
        >>=-eq-ok (apply ui x) (λ b. if b then all_signals ui (apply ui) xs else pure false) h e in
      rw (p) (further b v (all_append xs ys v m) q)
    where
      further :
          (b : Bool) (v : Handler ui)
          → (all_signals ui (apply ui) xs v ≡ (ok true, m)
              → all_signals ui (apply ui) (xs ++ ys) v ≡ all_signals ui (apply ui) ys m)
          → (if b then all_signals ui (apply ui) xs else pure false) v ≡ (ok true, m)
          → (if b then all_signals ui (apply ui) (xs ++ ys) else pure false) v
            ≡ all_signals ui (apply ui) ys m
      further true v rest q = rest q
      further false v rest q = cc

  stopped :
      (w : ParserSignal V) (ys : List (ParserSignal V)) (m t : Handler ui)
      → apply ui w m ≡ (ok false, t)
      → all_signals ui (apply ui) (w ∷ ys) m ≡ (ok false, t)
  unfolding all_signals
  stopped w ys m t e = rw (e) refl

  -- When all signals are confirmed and those before a function word are applied, and the function word
  -- is refused, no later signal is applied, and the parser gets back the context stack that the handler
  -- kept at the start of the line, whatever contexts the line has entered.
  pub slot_parsing_finished-word :
      (xs ys : List (ParserSignal V)) (w : ParserSignal V) (h c m t : Handler ui)
      → is_word w ≡ true
      → h.signals_stack ≡ xs ++ w ∷ ys
      → all_signals ui (confirm ui) h.signals_stack h ≡ (ok true, c)
      → all_signals ui (apply ui) xs c ≡ (ok true, m)
      → apply ui w m ≡ (ok false, t)
      → slot_parsing_finished ui h ≡ (ok tt, record t { parser = h.context_stack_backup })
  unfolding set_parser
  slot_parsing_finished-word xs ys w h c m t word split confirmed before last =
      let applied : all_signals ui (apply ui) h.signals_stack c ≡ (ok false, t) =
        ap (λ l. all_signals ui (apply ui) l c) split
        ∙ all_append xs (w ∷ ys) c m before
        ∙ stopped w ys m t last in
      let kept : t.context_stack_backup ≡ h.context_stack_backup =
        ap (λ r. r.1.context_stack_backup) (sym applied)
        ∙ Keeps-apply_all h.signals_stack c
        ∙ ap (λ r. r.1.context_stack_backup) (sym confirmed)
        ∙ ap (λ z. z.1) (Keeps-confirm_all h.signals_stack h) in
      finished_lem h c t false confirmed applied
      ∙ ap
          (λ b.
            (ok tt, record t { parser = if b then t.context_stack_backup else t.context_stack }))
          (word_set w m t false word last)
      ∙ ap (λ p. (ok tt, record t { parser = p })) kept
