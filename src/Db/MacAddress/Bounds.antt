-- ===== src/Db/MacAddress/Bounds.antt =====
-- The size of an address.
use deska.Base.{
  ℕ, zero, suc, ◌+◌, ◌*◌, ◌^◌, ◌≤◌, ◌<◌, Bool, true, false, ◌&&◌, not, Option, none, some,
  if◌then◌else◌, ◌==◌, ◌≡◌, refl, ap, subst, arith,
}
use deska.Base.Text.{Text}
use deska.Db.MacAddress.{
  Stream, Unwritten, read_number, read_char, in_range, read_mac_address_byte, word, read_bytes,
  from_text, from_bytes,
}

in_range_lem : (r : Bool × ℕ) → in_range r ≡ true → r.1 < 255
unfolding in_range
in_range_lem (true, v) h = ground arith
in_range_lem (false, v) h = ground arith

some_lem : {A : Type 0} (x y : A) → some x ≡ some y → x ≡ y
some_lem x y h = cc

tested_lem :
    {A : Type 0} (c : Bool) (x y : A) → (if c then some x else none) ≡ some y → (c ≡ true) × (x ≡ y)
tested_lem true x y h = (refl, cc)
tested_lem false x y h = cc

byte_lem :
    (u : Unwritten) (s : Stream) (b : ℕ) (t : Stream)
    → read_mac_address_byte u s ≡ some (b, t)
    → b < 255
unfolding read_mac_address_byte
byte_lem u s b t h =
    let r : (Bool × ℕ) × Stream = read_number u s in
    let (p, q) = tested_lem (in_range r.0) (r.0.1, r.1) (b, t) h in
    subst (λ v. v < 255) (ap (λ z. z.0) q) (in_range_lem r.0 p)

-- the largest value of `n` more bytes
abbrev grow : ℕ → ℕ → ℕ
grow zero x = x
grow (suc n) x = grow n (256 * x + 255)

shift_lem :
    (m b x : ℕ) → m ≤ 256 * x → b < 255 → word (word (m + b) * 2 ^ 8) ≤ 256 * (256 * x + 255)
shift_lem m b x h k = omega (arith, h, k)

bytes_lem :
    (u : Unwritten) (n m x : ℕ) (s : Stream) (v : ℕ) (t : Stream)
    → m ≤ 256 * x
    → read_bytes u n m s ≡ some (v, t)
    → v ≤ 256 * grow n x
unfolding read_bytes
bytes_lem u zero m x s v t h e =
    let q : ◌≡◌ {A = ℕ × Stream} (m, s) (v, t) = some_lem (m, s) (v, t) e in
    subst (λ w. w ≤ 256 * x) (ap (λ z. z.0) q) h
bytes_lem u (suc n) m x s v t h e = by_byte (read_mac_address_byte u s) refl e (λ b c k.
    bytes_lem u n (word (word (m + b) * 2 ^ 8)) (256 * x + 255) c v t (shift_lem m b x h k))
  where
    next : ℕ → Stream → Option (ℕ × Stream)
    next b c = read_bytes u n (word (word (m + b) * 2 ^ 8)) c

    by_test :
        (y : Bool) (r : Option (ℕ × Stream))
        → (r ≡ some (v, t) → v ≤ 256 * grow n (256 * x + 255))
        → (if y then r else none) ≡ some (v, t)
        → v ≤ 256 * grow n (256 * x + 255)
    by_test true r k f = k f
    by_test false r k f = cc

    by_byte :
        (o : Option (ℕ × Stream))
        → read_mac_address_byte u s ≡ o
        → (elim o [
          | none ↦ none
          | some (b, c) ↦
              if (read_char u c).0 == b':' && not ((read_char u c).1.at_end)
              then read_bytes u n (word (word (m + b) * 2 ^ 8)) (read_char u c).1
              else none
        ])
          ≡ some (v, t)
        → ((b : ℕ) (c : Stream)
            → b < 255
            → read_bytes u n (word (word (m + b) * 2 ^ 8)) c ≡ some (v, t)
            → v ≤ 256 * grow n (256 * x + 255))
        → v ≤ 256 * grow n (256 * x + 255)
    by_byte none p f k = cc
    by_byte (some (b, c)) p f k =
        by_test ((read_char u c).0 == b':' && not ((read_char u c).1.at_end))
          (read_bytes u n (word (word (m + b) * 2 ^ 8)) (read_char u c).1)
          (k b (read_char u c).1 (byte_lem u s b c p)) f

last_lem : (m b : ℕ) → m ≤ 256 * grow 5 0 → b < 255 → word (m + b) < 2 ^ 48
last_lem m b h k = omega (arith, h, k)

from_text_lem : (u : Unwritten) (address : Text) (m : ℕ) → from_text u address ≡ some m → m < 2 ^ 48
unfolding from_text
from_text_lem u address m e = by_bytes (read_bytes u 5 0 start) refl e
  where
    start : Stream
    start = record { rest = address; at_end = false; failed = false }

    by_end : (y : Bool) (x w : ℕ) → x < 2 ^ 48 → (if y then some x else none) ≡ some w → w < 2 ^ 48
    by_end true x w h f = subst (λ z. z < 2 ^ 48) (some_lem x w f) h
    by_end false x w h f = cc

    by_byte :
        (v : ℕ) (s : Stream) (o : Option (ℕ × Stream))
        → v ≤ 256 * grow 5 0
        → read_mac_address_byte u s ≡ o
        → (elim o [ none ↦ none | some (b, t) ↦ if t.at_end then some (word (v + b)) else none ])
          ≡ some m
        → m < 2 ^ 48
    by_byte v s none h p f = cc
    by_byte v s (some (b, t)) h p f =
        by_end t.at_end (word (v + b)) m (last_lem v b h (byte_lem u s b t p)) f

    by_bytes :
        (o : Option (ℕ × Stream))
        → read_bytes u 5 0 start ≡ o
        → (elim o [
          | none ↦ none
          | some (v, s) ↦ elim (read_mac_address_byte u s) [
            | none ↦ none
            | some (b, t) ↦ if t.at_end then some (word (v + b)) else none
          ]
        ])
          ≡ some m
        → m < 2 ^ 48
    by_bytes none p f = cc
    by_bytes (some (v, s)) p f =
        by_byte v s (read_mac_address_byte u s) (bytes_lem u 5 0 0 start v s (omega arith) p) refl f

-- Both constructors stay within 48 bits: whatever the text, and whatever is in a variable that could not
-- be read, and for any six bytes.
pub mac_address-bound :
    (u : Unwritten) (address : Text) (m : ℕ) (b1 b2 b3 b4 b5 b6 : ℕ)
    → from_text u address ≡ some m
    → b1 < 256
    → b2 < 256
    → b3 < 256
    → b4 < 256
    → b5 < 256
    → b6 < 256
    → (m < 2 ^ 48) × (from_bytes b1 b2 b3 b4 b5 b6 < 2 ^ 48)
unfolding from_bytes
mac_address-bound u address m b1 b2 b3 b4 b5 b6 e h1 h2 h3 h4 h5 h6 =
    (from_text_lem u address m e, omega arith)
