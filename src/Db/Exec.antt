-- ===== src/Db/Exec.antt =====
-- Methods that change an object and may throw: what was written before a throw stays written.
use deska.Base.{◌≡◌, refl, arith}

pub data Result (F A : Type 0) : Type 0 where
  ok : A → Result F A
  fail : F → Result F A

abbrev pub Exec : Type 0 → Type 0 → Type 0 → Type 0
Exec S F A = S → Result F A × S

module _ {S F A B : Type 0} where
  abbrev pub after : Result F A → (A → Exec S F B) → Exec S F B
  after (ok a) k s = k a s
  after (fail e) k s = (fail e, s)

  infixl 5 ◌>>=◌ ◌>>◌
  abbrev pub ◌>>=◌ : Exec S F A → (A → Exec S F B) → Exec S F B
  ◌>>=◌ m k s = after (m s).0 k (m s).1

  abbrev pub ◌>>◌ : Exec S F A → Exec S F B → Exec S F B
  m >> k = m >>= λ _. k

module _ {S F A : Type 0} where
  abbrev pub pure : A → Exec S F A
  pure a s = (ok a, s)

-- A successful sequence is two successful parts.
module _ {S F A B : Type 0} where
  after-eq-ok :
      (x : Result F A) (k : A → Exec S F B) (v : S) {b : B} {u : S}
      → after x k v ≡ (ok b, u)
      → (a : A) × (x ≡ ok a) × (k a v ≡ (ok b, u))
  after-eq-ok (ok a) k v h = (a, refl, h)
  after-eq-ok (fail e) k v h = cc

  pub >>=-eq-ok :
      (m : Exec S F A) (k : A → Exec S F B) (t : S) {b : B} {u : S}
      → (m >>= k) t ≡ (ok b, u)
      → (a : A) × (v : S) × (m t ≡ (ok a, v)) × (k a v ≡ (ok b, u))
  >>=-eq-ok m k t h =
      let (a, p, q) = after-eq-ok (m t).0 k (m t).1 h in (a, (m t).1, λ i. (p i, (m t).1), q)

pub pure-eq-ok :
    {S F A : Type 0} (a : A) (w : S) {b : A} {u : S}
    → pure {F = F} a w ≡ (ok b, u)
    → (b ≡ a) × (w ≡ u)
pure-eq-ok a w h = ground arith
