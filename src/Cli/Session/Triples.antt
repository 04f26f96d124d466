-- ===== src/Cli/Session/Triples.antt =====
-- What holds after a method that returns, from what holds before it.
use deska.Base.{Bool, true, false, Option, none, some, if◌then◌else◌, ◌≡◌, refl, ap, sym, ◌∙◌}
use deska.Db.Exec.{Exec, Result, ok, fail, ◌>>=◌, pure, after, >>=-eq-ok, pure-eq-ok}
use deska.Cli.Session.Interface.{Fault}
use deska.Cli.Session.Rebase.{or_throw}

module _ {S A : Type 0} where
  -- If `P` holds before `m` and `m` returns, `Q` holds of the result and the state.
  abbrev pub Triple : (S → Type 0) → Exec S Fault A → (A → S → Type 0) → Type 0
  Triple P m Q = (s : S) (a : A) (t : S) → P s → m s ≡ (ok a, t) → Q a t

  pub triple_pure :
      (P : S → Type 0) (Q : A → S → Type 0) (a : A) → ((s : S) → P s → Q a s) → Triple P (pure a) Q
  triple_pure P Q a h s b t p e =
      let (same, kept) = pure-eq-ok a s e in rw same (rw (sym kept) (h s p))

  pub triple_if :
      (P : S → Type 0) (Q : A → S → Type 0) (b : Bool) (m n : Exec S Fault A)
      → Triple P m Q
      → Triple P n Q
      → Triple P (if b then m else n) Q
  triple_if P Q true m n hm hn = hm
  triple_if P Q false m n hm hn = hn

  test_lem :
      (Q : A → S → Type 0) (c : Bool) (m n : Exec S Fault A) (s : S) (a : A) (t : S)
      → (m s ≡ (ok a, t) → Q a t)
      → (n s ≡ (ok a, t) → Q a t)
      → (if c then m s else n s) ≡ (ok a, t)
      → Q a t
  test_lem Q true m n s a t hm hn e = hm e
  test_lem Q false m n s a t hm hn e = hn e

  -- a test of the state
  pub triple_test :
      (P : S → Type 0) (Q : A → S → Type 0) (test : S → Bool) (m n : Exec S Fault A)
      → Triple P m Q
      → Triple P n Q
      → Triple P (λ s. if test s then m s else n s) Q
  triple_test P Q test m n hm hn s a t p e =
      test_lem Q (test s) m n s a t (hm s a t p) (hn s a t p) e

  pub triple_weaken :
      (P : S → Type 0) (Q R : A → S → Type 0) (m : Exec S Fault A)
      → Triple P m Q
      → ((a : A) (s : S) → Q a s → R a s)
      → Triple P m R
  triple_weaken P Q R m h k s a t p e = k a t (h s a t p e)

module _ {S A B : Type 0} where
  pub triple_bind :
      (P : S → Type 0) (Q : A → S → Type 0) (R : B → S → Type 0) (m : Exec S Fault A)
      (k : A → Exec S Fault B)
      → Triple P m Q
      → ((a : A) → Triple (Q a) (k a) R)
      → Triple P (m >>= k) R
  triple_bind P Q R m k hm hk s b t p e =
      let (a, v, em, ek) = >>=-eq-ok m k s e in hk a v b t (hm s a v p em) ek

-- What a method leaves as it is, also when it throws.
module _ {S X : Type 0} (look : S → X) where
  abbrev pub Keeps : {A : Type 0} → Exec S Fault A → Type 0
  Keeps m = (s : S) → look (m s).1 ≡ look s

  Keeps-after :
      {A B : Type 0} (r : Result Fault A) (k : A → Exec S Fault B) (t : S)
      → ((a : A) → Keeps (k a))
      → look (after r k t).1 ≡ look t
  Keeps-after (ok a) k t hk = hk a t
  Keeps-after (fail e) k t hk = refl

  pub Keeps-triple :
      {A : Type 0} (m : Exec S Fault A) (x : X)
      → Keeps m
      → Triple (λ s. look s ≡ x) m (λ a s. look s ≡ x)
  Keeps-triple m x h s a t p e = ap (λ r. look r.1) (sym e) ∙ h s ∙ p

  pub Keeps-if :
      {A : Type 0} (b : Bool) (m n : Exec S Fault A)
      → Keeps m
      → Keeps n
      → Keeps (if b then m else n)
  Keeps-if true m n hm hn = hm
  Keeps-if false m n hm hn = hn

  pub Keeps-or_throw : {A : Type 0} (a : Option A) → Keeps (or_throw a)
  Keeps-or_throw none s = refl
  Keeps-or_throw (some a) s = refl

  pub Keeps-bind :
      {A B : Type 0} (m : Exec S Fault A) (k : A → Exec S Fault B)
      → Keeps m
      → ((a : A) → Keeps (k a))
      → Keeps (m >>= k)
  Keeps-bind m k hm hk s = Keeps-after (m s).0 k (m s).1 hk ∙ hm s
