-- ===== src/Db/MacAddress/RoundTrip.antt =====
-- The text of an address, read again.
use deska.Base.{
  ℕ, suc, ◌+◌, ◌*◌, ◌/◌, ◌%◌, ◌^◌, ◌<◌, Bool, true, false, ◌&&◌, ◌||◌, not, Option, none, some, [],
  ◌∷◌, ◌++◌, if◌then◌else◌, ◌==◌, ltb, ◌≡◌, refl, ap, ◌∙◌, arith,
}
use deska.Base.Text.{Text}
use deska.Db.MacAddress.{
  is_space, skip_space, hex_value, more_digits, digits, unprefixed, sign, is_empty, Stream,
  Unwritten, number_read, read_unsigned, read_signed, read_number, read_char, in_range,
  read_mac_address_byte, word, read_bytes, from_text, from_bytes, hex_digit, two_digits, byte_at,
  print,
}

-- What a hexadecimal digit is not, and its value.
digit_space : (d : ℕ) → d < 16 → is_space (hex_digit d) ≡ false
unfolding hex_digit
digit_space d h = ground arith

digit_sign : (d : ℕ) → d < 16 → ((hex_digit d == b'-') ≡ false) × ((hex_digit d == b'+') ≡ false)
unfolding hex_digit
digit_sign d h = (ground arith, ground arith)

digit_x : (d : ℕ) → d < 16 → (hex_digit d == b'x' || hex_digit d == b'X') ≡ false
unfolding hex_digit
digit_x d h = ground arith

digit_value : (d : ℕ) → d < 16 → hex_value (hex_digit d) ≡ some d
unfolding hex_value hex_digit
digit_value d h = ground arith

-- what may follow a byte
data Follows : Text → Type 0 where
  nothing : Follows []
  delimiter : (r : Text) → Follows (b':' ∷ r)

stops : (v : ℕ) (r : Text) → Follows r → more_digits v r ≡ (v, r)
unfolding more_digits
stops v [] nothing = refl
stops v (c ∷ r) (delimiter t) = unfold hex_value in refl

abbrev at : Text → Stream
at r = record { rest = r; at_end = false; failed = false }

abbrev past : Text → Stream
past r = record { rest = r; at_end = is_empty r; failed = false }

first_digit : (c d : ℕ) (s : Text) → hex_value c ≡ some d → digits (c ∷ s) ≡ some (more_digits d s)
unfolding digits
first_digit c d s h = ap (λ o. elim o [ none ↦ none | some e ↦ some (more_digits e s) ]) h

next_digit :
    (v c d : ℕ) (s : Text)
    → hex_value c ≡ some d
    → more_digits v (c ∷ s) ≡ more_digits (v * 16 + d) s
unfolding more_digits
next_digit v c d s h =
    ap (λ o. elim o [ none ↦ (v, c ∷ s) | some e ↦ more_digits (v * 16 + e) s ]) h

two_lem :
    (x y : ℕ) (r : Text)
    → x < 16
    → y < 16
    → Follows r
    → digits (hex_digit x ∷ hex_digit y ∷ r) ≡ some (x * 16 + y, r)
two_lem x y r h k f =
    first_digit (hex_digit x) x (hex_digit y ∷ r) (digit_value x h)
    ∙ ap (λ z. some z) (next_digit x (hex_digit y) y r (digit_value y k) ∙ stops (x * 16 + y) r f)

skipped : (x : ℕ) (r : Text) → x < 16 → skip_space (hex_digit x ∷ r) ≡ hex_digit x ∷ r
unfolding skip_space
skipped x r h = rw (digit_space x h) refl

unsigned : (x : ℕ) (r : Text) → x < 16 → sign (hex_digit x ∷ r) ≡ (false, hex_digit x ∷ r)
unfolding sign
unsigned x r h = let (m, p) = digit_sign x h in rw (m, p) refl

no_prefix :
    (x y : ℕ) (r : Text)
    → y < 16
    → unprefixed (hex_digit x ∷ hex_digit y ∷ r) ≡ hex_digit x ∷ hex_digit y ∷ r
unfolding unprefixed
no_prefix x y r k = by_zero (hex_digit x == b'0')
  where
    by_zero :
        (z : Bool)
        → (if z && (hex_digit y == b'x' || hex_digit y == b'X')
            then r
            else hex_digit x ∷ hex_digit y ∷ r)
          ≡ hex_digit x ∷ hex_digit y ∷ r
    by_zero true = rw (digit_x y k) refl
    by_zero false = refl

number_lem :
    (u : Unwritten) (x y : ℕ) (r : Text)
    → x < 16
    → y < 16
    → Follows r
    → read_number u (at (hex_digit x ∷ hex_digit y ∷ r)) ≡ ((false, x * 16 + y), past r)
unfolding read_number
number_lem u x y r h k f =
    ap (λ t. read_signed u (sign t)) (skipped x (hex_digit y ∷ r) h)
    ∙ ap (λ t. read_signed u t) (unsigned x (hex_digit y ∷ r) h)
    ∙ ap (λ t. read_unsigned u false t) (no_prefix x y r k)
    ∙ ap (λ o. number_read u false (hex_digit x ∷ hex_digit y ∷ r) o) (two_lem x y r h k f)

byte_value : (b : ℕ) → b / 16 * 16 + b % 16 ≡ b
byte_value b = omega arith

byte_read :
    (u : Unwritten) (b : ℕ) (r : Text)
    → b < 256
    → Follows r
    → read_mac_address_byte u (at (two_digits b ++ r))
      ≡ (if ltb b 255 then some (b, past r) else none)
unfolding read_mac_address_byte in_range two_digits
byte_read u b r h f =
    rw (number_lem u (b / 16) (b % 16) r (omega (arith, h)) (omega arith) f, byte_value b) refl

abbrev shifted : ℕ → ℕ → ℕ
shifted m b = word (word (m + b) * 2 ^ 8)

abbrev after_byte : Unwritten → ℕ → ℕ → Option (ℕ × Stream) → Option (ℕ × Stream)
after_byte u n m o = elim o [
  | none ↦ none
  | some (b, t) ↦
      if (read_char u t).0 == b':' && not ((read_char u t).1.at_end)
      then read_bytes u n (shifted m b) (read_char u t).1
      else none
]

abbrev after_last : ℕ → Option (ℕ × Stream) → Option ℕ
after_last m o = elim o [
  | none ↦ none
  | some (b, t) ↦ if t.at_end then some (word (m + b)) else none
]

-- A byte and its delimiter.
bytes_step :
    (u : Unwritten) (n m b : ℕ) (r : Text)
    → b < 256
    → read_bytes u (suc n) m (at (two_digits b ++ (b':' ∷ r)))
      ≡ (if ltb b 255 then read_bytes u n (shifted m b) (at r) else none)
unfolding read_bytes
bytes_step u n m b r h =
    ap (after_byte u n m) (byte_read u b (b':' ∷ r) h (delimiter r)) ∙ by_test (ltb b 255)
  where
    by_test :
        (c : Bool)
        → after_byte u n m (if c then some (b, past (b':' ∷ r)) else none)
          ≡ (if c then read_bytes u n (shifted m b) (at r) else none)
    by_test true = unfold read_char in unfold skip_space in refl
    by_test false = refl

last_step :
    (u : Unwritten) (m b : ℕ)
    → b < 256
    → after_last m (read_mac_address_byte u (at (two_digits b)))
      ≡ (if ltb b 255 then some (word (m + b)) else none)
unfolding two_digits
last_step u m b h = ap (after_last m) (byte_read u b [] h nothing) ∙ by_test (ltb b 255)
  where
    by_test :
        (c : Bool)
        → after_last m (if c then some (b, past []) else none)
          ≡ (if c then some (word (m + b)) else none)
    by_test true = refl
    by_test false = refl

abbrev text_of : ℕ → ℕ → ℕ → ℕ → ℕ → ℕ → Text
text_of b1 b2 b3 b4 b5 b6 =
    two_digits b1
    ++ (b':'
        ∷ (two_digits b2
            ++ (b':'
                ∷ (two_digits b3
                    ++ (b':'
                        ∷ (two_digits b4 ++ (b':' ∷ (two_digits b5 ++ (b':' ∷ two_digits b6)))))))))

abbrev finished : Unwritten → Option (ℕ × Stream) → Option ℕ
finished u o = elim o [ none ↦ none | some (m, s) ↦ after_last m (read_mac_address_byte u s) ]

-- no byte is ff
abbrev pub all_readable : ℕ → ℕ → ℕ → ℕ → ℕ → ℕ → Bool
all_readable b1 b2 b3 b4 b5 b6 =
    ltb b1 255 && (ltb b2 255 && (ltb b3 255 && (ltb b4 255 && (ltb b5 255 && ltb b6 255))))

choice :
    (c : Bool) (x y : Option (ℕ × Stream)) (d : Bool) (z : ℕ) (u : Unwritten)
    → x ≡ (if c then y else none)
    → finished u y ≡ (if d then some z else none)
    → finished u x ≡ (if c && d then some z else none)
choice true x y d z u h k = ap (finished u) h ∙ k
choice false x y d z u h k = ap (finished u) h

total : ℕ → ℕ → ℕ → ℕ → ℕ → ℕ → ℕ
total b1 b2 b3 b4 b5 b6 =
    word (shifted (shifted (shifted (shifted (shifted 0 b1) b2) b3) b4) b5 + b6)

last_read :
    (u : Unwritten) (m b : ℕ)
    → b < 256
    → finished u (read_bytes u 0 m (at (two_digits b)))
      ≡ (if ltb b 255 then some (word (m + b)) else none)
unfolding read_bytes
last_read u m b h = last_step u m b h

text_read :
    (u : Unwritten) (b1 b2 b3 b4 b5 b6 : ℕ)
    → b1 < 256
    → b2 < 256
    → b3 < 256
    → b4 < 256
    → b5 < 256
    → b6 < 256
    → finished u (read_bytes u 5 0 (at (text_of b1 b2 b3 b4 b5 b6)))
      ≡ (if all_readable b1 b2 b3 b4 b5 b6 then some (total b1 b2 b3 b4 b5 b6) else none)
unfolding total
text_read u b1 b2 b3 b4 b5 b6 h1 h2 h3 h4 h5 h6 =
    choice (ltb b1 255) _ _ _ _ u (bytes_step u 4 0 b1 _ h1) (
      choice (ltb b2 255) _ _ _ _ u (bytes_step u 3 _ b2 _ h2) (
        choice (ltb b3 255) _ _ _ _ u (bytes_step u 2 _ b3 _ h3) (
          choice (ltb b4 255) _ _ _ _ u (bytes_step u 1 _ b4 _ h4)
            (choice (ltb b5 255) _ _ _ _ u (bytes_step u 0 _ b5 _ h5) (last_read u _ b6 h6)))))

total_lem :
    (b1 b2 b3 b4 b5 b6 : ℕ)
    → b1 < 256
    → b2 < 256
    → b3 < 256
    → b4 < 256
    → b5 < 256
    → b6 < 256
    → total b1 b2 b3 b4 b5 b6 ≡ from_bytes b1 b2 b3 b4 b5 b6
unfolding total from_bytes
total_lem b1 b2 b3 b4 b5 b6 h1 h2 h3 h4 h5 h6 = omega arith

-- Six numbers that are bytes.
abbrev pub AreBytes : ℕ → ℕ → ℕ → ℕ → ℕ → ℕ → Type 0
AreBytes b1 b2 b3 b4 b5 b6 =
    (b1 < 256) × (b2 < 256) × (b3 < 256) × (b4 < 256) × (b5 < 256) × (b6 < 256)

bytes_at :
    (b1 b2 b3 b4 b5 b6 : ℕ)
    → AreBytes b1 b2 b3 b4 b5 b6
    → (byte_at 40 (from_bytes b1 b2 b3 b4 b5 b6) ≡ b1)
      × (byte_at 32 (from_bytes b1 b2 b3 b4 b5 b6) ≡ b2)
      × (byte_at 24 (from_bytes b1 b2 b3 b4 b5 b6) ≡ b3)
      × (byte_at 16 (from_bytes b1 b2 b3 b4 b5 b6) ≡ b4)
      × (byte_at 8 (from_bytes b1 b2 b3 b4 b5 b6) ≡ b5)
      × (byte_at 0 (from_bytes b1 b2 b3 b4 b5 b6) ≡ b6)
unfolding from_bytes
bytes_at b1 b2 b3 b4 b5 b6 (h1, h2, h3, h4, h5, h6) =
    (omega arith, omega arith, omega arith, omega arith, omega arith, omega arith)

print_lem :
    (b1 b2 b3 b4 b5 b6 : ℕ)
    → AreBytes b1 b2 b3 b4 b5 b6
    → print (from_bytes b1 b2 b3 b4 b5 b6) ≡ text_of b1 b2 b3 b4 b5 b6
unfolding print two_digits
print_lem b1 b2 b3 b4 b5 b6 h =
    let (e1, e2, e3, e4, e5, e6) = bytes_at b1 b2 b3 b4 b5 b6 h in
    λ i. text_of (e1 i) (e2 i) (e3 i) (e4 i) (e5 i) (e6 i)

-- The text that an address of six bytes is printed as is read as the same address if no byte is ff, and is
-- refused if one is, whatever is in a variable that could not be read.
pub from_text-print :
    (u : Unwritten) (b1 b2 b3 b4 b5 b6 : ℕ)
    → AreBytes b1 b2 b3 b4 b5 b6
    → from_text u (print (from_bytes b1 b2 b3 b4 b5 b6))
      ≡ (if all_readable b1 b2 b3 b4 b5 b6 then some (from_bytes b1 b2 b3 b4 b5 b6) else none)
unfolding from_text
from_text-print u b1 b2 b3 b4 b5 b6 h =
    ap (from_text u) (print_lem b1 b2 b3 b4 b5 b6 h)
    ∙ text_read u b1 b2 b3 b4 b5 b6 (h.0) (h.1) (h.2) (h.3) (h.4) (h.5)
    ∙ ap (λ m. if all_readable b1 b2 b3 b4 b5 b6 then some m else none)
        (total_lem b1 b2 b3 b4 b5 b6 (h.0) (h.1) (h.2) (h.3) (h.4) (h.5))
