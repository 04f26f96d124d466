-- ===== src/Cli/Signals/Balanced.antt =====
-- Lines that leave every context that they enter.
use deska.Base.{
  but_last, but_last-append, Bool, true, false, List, [], ◌∷◌, ◌++◌, append_assoc, append-nil,
  if◌then◌else◌, ◌≡◌, refl, sym, ap, ◌∙◌, subst,
}
use deska.Db.Exec.{Exec, ok, ◌>>=◌, pure}
use deska.Cli.Path.Context.{object_item, filter_item}
use deska.Cli.Session.Interface.{Fault}
use deska.Cli.Session.Triples.{Triple, triple_bind}
use deska.Cli.Signals.Interface.{Item, ContextStack, UserInterface}
use deska.Cli.Signals.Handler.{
  ParserSignal, create_object, category_entered, category_left, set_attribute, set_attribute_insert,
  set_attribute_remove, remove_attribute, objects_filter, function_show, function_delete,
  function_rename, Handler, Slot, ask, enter, confirm, apply, all_signals, set_parser,
  slot_parsing_finished,
}
use deska.Cli.Signals.Reached.{finished_lem, Keeps-confirm_all}

module _ {V : Type 0} where
  abbrev pub enters : ParserSignal V → Bool
  enters (create_object c k n) = true
  enters (category_entered c k n) = true
  enters (objects_filter c k f) = true
  enters _ = false

  abbrev pub leaves : ParserSignal V → Bool
  leaves category_left = true
  leaves _ = false

-- Signals in which each one that enters a context has its categoryLeft.
pub data IsBalanced {V : Type 0} : List (ParserSignal V) → Type 0 where
  nothing : IsBalanced []
  plain :
      (s : ParserSignal V) {ss : List (ParserSignal V)}
      → enters s ≡ false
      → leaves s ≡ false
      → IsBalanced ss
      → IsBalanced (s ∷ ss)
  nested :
      (s : ParserSignal V) {xs ys : List (ParserSignal V)}
      → enters s ≡ true
      → IsBalanced xs
      → IsBalanced ys
      → IsBalanced (s ∷ (xs ++ category_left ∷ ys))

module _ {V : Type 0} (ui : UserInterface V) where
  abbrev At : ContextStack V → Handler ui → Type 0
  At c h = h.context_stack ≡ c

  -- at `c`, if all was applied
  abbrev Returns : ContextStack V → Bool → Handler ui → Type 0
  Returns c b h = b ≡ true → h.context_stack ≡ c

  -- in one more context, if it was entered
  abbrev Inside : ContextStack V → Bool → Handler ui → Type 0
  Inside c b h = b ≡ true → (i : Item V) × (h.context_stack ≡ c ++ i ∷ [])

  abbrev apply_all : List (ParserSignal V) → Slot ui Bool
  apply_all = all_signals ui (apply ui)

  plain_lem :
      (s : ParserSignal V) (c : ContextStack V)
      → enters s ≡ false
      → leaves s ≡ false
      → Triple (At c) (apply ui s) (Returns c)
  unfolding apply
  plain_lem (create_object d k n) c e l = cc
  plain_lem (category_entered d k n) c e l = cc
  plain_lem category_left c e l = cc
  plain_lem (set_attribute d k a v) c e l = λ h b t p q r. ap (λ z. z.1.context_stack) (sym q) ∙ p
  plain_lem (set_attribute_insert d k a v) c e l =
      λ h b t p q r. ap (λ z. z.1.context_stack) (sym q) ∙ p
  plain_lem (set_attribute_remove d k a v) c e l =
      λ h b t p q r. ap (λ z. z.1.context_stack) (sym q) ∙ p
  plain_lem (remove_attribute d k a) c e l = λ h b t p q r. ap (λ z. z.1.context_stack) (sym q) ∙ p
  plain_lem (objects_filter d k f) c e l = cc
  plain_lem (function_show d) c e l = λ h b t p q r. ap (λ z. z.1.context_stack) (sym q) ∙ p
  plain_lem (function_delete d) c e l = λ h b t p q r. ap (λ z. z.1.context_stack) (sym q) ∙ p
  plain_lem (function_rename d n) c e l = λ h b t p q r. ap (λ z. z.1.context_stack) (sym q) ∙ p

  entered_lem : (r : Bool × Item V) (c : ContextStack V) → Triple (At c) (enter ui r) (Inside c)
  entered_lem (true, i) c h b t p q r =
      (i, ap (λ z. z.1.context_stack) (sym q) ∙ ap (λ d. d ++ i ∷ []) p)
  entered_lem (false, i) c h b t p q r = cc

  enter-ask :
      {A : Type 0} (m : ContextStack V → Exec ui.Ui Fault A) (f : A → Bool × Item V)
      (c : ContextStack V)
      → Triple (At c) (λ h. (ask ui (m h.context_stack) >>= λ a. enter ui (f a)) h) (Inside c)
  enter-ask m f c h =
      triple_bind (At c) (λ a. At c) (Inside c) (ask ui (m h.context_stack)) (λ a. enter ui (f a))
        (λ h a t p q. ap (λ z. z.1.context_stack) (sym q) ∙ p) (λ a. entered_lem (f a) c) h

  enters_lem :
      (s : ParserSignal V) (c : ContextStack V)
      → enters s ≡ true
      → Triple (At c) (apply ui s) (Inside c)
  unfolding apply
  enters_lem (create_object d k n) c e =
      enter-ask (λ stack. ui.apply_create_object (stack ++ object_item k n ∷ []) k n) (λ a. a) c
  enters_lem (category_entered d k n) c e =
      enter-ask (λ stack. ui.apply_category_entered (stack ++ object_item k n ∷ []) k n) (λ a. a) c
  enters_lem (objects_filter d k f) c e =
      enter-ask (λ stack. ui.apply_objects_filter (stack ++ filter_item k f ∷ []) k f)
        (λ b. (b, filter_item k f)) c
  enters_lem category_left c e = cc
  enters_lem (set_attribute d k a v) c e = cc
  enters_lem (set_attribute_insert d k a v) c e = cc
  enters_lem (set_attribute_remove d k a v) c e = cc
  enters_lem (remove_attribute d k a) c e = cc
  enters_lem (function_show d) c e = cc
  enters_lem (function_delete d) c e = cc
  enters_lem (function_rename d n) c e = cc

  -- One signal, and what follows where it was applied.
  step_lem :
      (s : ParserSignal V) (ss : List (ParserSignal V)) (P : Handler ui → Type 0)
      (Q : Bool → Handler ui → Type 0) (c : ContextStack V)
      → Triple P (apply ui s) Q
      → Triple (Q true) (apply_all ss) (Returns c)
      → Triple P (apply_all (s ∷ ss)) (Returns c)
  unfolding all_signals
  step_lem s ss P Q c first rest =
      triple_bind P Q (Returns c) (apply ui s) (λ b. if b then apply_all ss else pure false) first
        branch
    where
      branch : (b : Bool) → Triple (Q b) (if b then apply_all ss else pure false) (Returns c)
      branch true = rest
      branch false = λ h b t p q r. cc

  left_lem :
      (c : ContextStack V) (i : Item V)
      → Triple (At (c ++ i ∷ [])) (apply ui category_left) (Returns c)
  unfolding apply
  left_lem c i h b t p q r =
      ap (λ z. z.1.context_stack) (sym q) ∙ ap but_last p ∙ but_last-append c i

  balanced_lem :
      {xs : List (ParserSignal V)}
      → IsBalanced xs
      → (rest : List (ParserSignal V)) (c d : ContextStack V)
      → Triple (At c) (apply_all rest) (Returns d)
      → Triple (At c) (apply_all (xs ++ rest)) (Returns d)
  balanced_lem nothing rest c d k = k
  balanced_lem (plain s {ss} e l b) rest c d k =
      step_lem s (ss ++ rest) (At c) (Returns c) d (plain_lem s c e l)
        (λ h a t p. balanced_lem b rest c d k h a t (p refl))
  balanced_lem (nested s {xs} {ys} e bx by) rest c d k =
      subst (λ l. Triple (At c) (apply_all (s ∷ l)) (Returns d))
        (sym (append_assoc xs (category_left ∷ ys) rest))
        (step_lem s (xs ++ category_left ∷ (ys ++ rest)) (At c) (Inside c) d (enters_lem s c e)
          (λ h a t p.
            let (i, q) = p refl in
            balanced_lem bx (category_left ∷ (ys ++ rest)) (c ++ i ∷ []) d
              (step_lem category_left (ys ++ rest) (At (c ++ i ∷ [])) (Returns c) d (left_lem c i)
                (λ v b w r. balanced_lem by rest c d k v b w (r refl)))
              h a t q))

  -- When all signals of a line that leaves every context it enters are confirmed and applied, the parser
  -- ends in the context stack that the handler began with.
  pub slot_parsing_finished-balanced :
      (h c t : Handler ui)
      → IsBalanced h.signals_stack
      → all_signals ui (confirm ui) h.signals_stack h ≡ (ok true, c)
      → all_signals ui (apply ui) h.signals_stack c ≡ (ok true, t)
      → slot_parsing_finished ui h ≡ (ok tt, record t { parser = h.context_stack })
  unfolding set_parser
  slot_parsing_finished-balanced h c t balanced confirmed applied =
      let start : c.context_stack ≡ h.context_stack =
        ap (λ r. r.1.context_stack) (sym confirmed)
        ∙ ap (λ z. z.0) (Keeps-confirm_all ui h.signals_stack h) in
      let done : Triple (At h.context_stack) (apply_all []) (Returns h.context_stack) =
        unfold all_signals in λ v b w p q r. ap (λ z. z.1.context_stack) (sym q) ∙ p in
      finished_lem ui h c t true confirmed applied
      ∙ ap (λ p. (ok tt, record t { parser = p }))
          (balanced_lem balanced [] h.context_stack h.context_stack done c true t start
            (ap (λ l. apply_all l c) (append-nil h.signals_stack) ∙ applied) refl)
