-- ===== src/Db/MacAddress.antt =====
-- src/deska/db/MacAddress.cpp: an address as a number of 48 bits, and its text.
mod Bounds
mod RoundTrip
mod Tests
use deska.Base.{
  ℕ, zero, suc, ◌+◌, ◌*◌, ◌/◌, ◌%◌, ◌^◌, Bool, true, false, ◌&&◌, ◌||◌, Option, none, some, List,
  [], ◌∷◌, ◌++◌, not, ◌-◌, if◌then◌else◌, ◌==◌, leb, ltb,
}
use deska.Base.Text.{Text}

-- the characters that `operator>>` of a stream skips
abbrev pub is_space : ℕ → Bool
is_space c = c == b' ' || leb 9 c && leb c 13

unfoldable pub skip_space : Text → Text
skip_space [] = []
skip_space (c ∷ s) = if is_space c then skip_space s else c ∷ s

unfoldable pub hex_value : ℕ → Option ℕ
hex_value c =
    if leb 48 c && leb c 57
    then some (c - 48)
    else if leb 97 c && leb c 102
    then some (c - 87)
    else if leb 65 c && leb c 70
    then some (c - 55)
    else none

-- `std::istringstream`
pub record Stream : Type 0 where
  pub rest : Text
  pub at_end : Bool
  pub failed : Bool

-- The digits after the first, of the value so far.
unfoldable pub more_digits : ℕ → Text → ℕ × Text
more_digits v [] = (v, [])
more_digits v (c ∷ s) = elim (hex_value c) [
  | none ↦ (v, c ∷ s)
  | some d ↦ more_digits (v * 16 + d) s
]

unfoldable pub digits : Text → Option (ℕ × Text)
digits [] = none
digits (c ∷ s) = elim (hex_value c) [ none ↦ none | some d ↦ some (more_digits d s) ]

-- an optional 0x or 0X
unfoldable pub unprefixed : Text → Text
unprefixed (c ∷ d ∷ s) = if c == b'0' && (d == b'x' || d == b'X') then s else c ∷ d ∷ s
unprefixed s = s

-- an optional sign, and whether it is a minus
unfoldable pub sign : Text → Bool × Text
sign [] = (false, [])
sign (c ∷ s) = if c == b'-' then (true, s) else if c == b'+' then (false, s) else (false, c ∷ s)

abbrev pub is_empty : Text → Bool
is_empty [] = true
is_empty (c ∷ s) = false

-- What is read when nothing can be read: a variable that is not written keeps what is in it, a number
-- with its sign, or a character.
pub record Unwritten : Type 0 where
  pub number : Bool × ℕ
  pub char : ℕ

abbrev pub number_read : Unwritten → Bool → Text → Option (ℕ × Text) → (Bool × ℕ) × Stream
number_read u negative t none = (u.number, record { rest = t; at_end = is_empty t; failed = true })
number_read u negative t (some (v, r)) =
    ((negative, v), record { rest = r; at_end = is_empty r; failed = false })

abbrev pub read_unsigned : Unwritten → Bool → Text → (Bool × ℕ) × Stream
read_unsigned u negative t = number_read u negative t (digits t)

abbrev pub read_signed : Unwritten → Bool × Text → (Bool × ℕ) × Stream
read_signed u (negative, t) = read_unsigned u negative (unprefixed t)

-- `ss >> std::hex >> buf`, the sign and the value. A value beyond the range of int is left as it is.
unfoldable pub read_number : Unwritten → Stream → (Bool × ℕ) × Stream
read_number u s =
    if s.failed || s.at_end
    then (u.number, record s { failed = true })
    else read_signed u (sign (skip_space s.rest))

-- `ss >> x` of a character
unfoldable pub read_char : Unwritten → Stream → ℕ × Stream
read_char u s =
    if s.failed || s.at_end
    then (u.char, record s { failed = true })
    else elim (skip_space s.rest) [
      | [] ↦ (u.char, record { rest = []; at_end = true; failed = true })
      | c ∷ r ↦ (c, record { rest = r; at_end = false; failed = false })
    ]

-- `readMacAddressByte`; `none` is the std::domain_error.
unfoldable pub in_range : Bool × ℕ → Bool
in_range (negative, v) = if negative then v == 0 else ltb v 255

unfoldable pub read_mac_address_byte : Unwritten → Stream → Option (ℕ × Stream)
read_mac_address_byte u s =
    let r = read_number u s in if in_range r.0 then some (r.0.1, r.1) else none

-- `m_data` is an unsigned long long.
abbrev pub word : ℕ → ℕ
word m = m % 2 ^ 64

-- The loop: a byte, the delimiter and the shift, `n` times.
unfoldable pub read_bytes : Unwritten → ℕ → ℕ → Stream → Option (ℕ × Stream)
read_bytes u zero m s = some (m, s)
read_bytes u (suc n) m s = elim (read_mac_address_byte u s) [
  | none ↦ none
  | some (b, t) ↦
      let x = read_char u t in
      let rest = read_bytes u n (word (word (m + b) * 2 ^ 8)) x.1 in
      if x.0 == b':' && not (x.1.at_end) then rest else none
]

-- `MacAddress(const std::string &)`
unfoldable pub from_text : Unwritten → Text → Option ℕ
from_text u address =
    elim (read_bytes u 5 0 (record { rest = address; at_end = false; failed = false })) [
      | none ↦ none
      | some (m, s) ↦ elim (read_mac_address_byte u s) [
        | none ↦ none
        | some (b, t) ↦ if t.at_end then some (word (m + b)) else none
      ]
    ]

-- `MacAddress(b1, …, b6)` of unsigned chars
unfoldable pub from_bytes : ℕ → ℕ → ℕ → ℕ → ℕ → ℕ → ℕ
from_bytes b1 b2 b3 b4 b5 b6 =
    word (b1 * 2 ^ 40 + b2 * 2 ^ 32 + b3 * 2 ^ 24 + b4 * 2 ^ 16 + b5 * 2 ^ 8 + b6)

unfoldable pub hex_digit : ℕ → ℕ
hex_digit d = if ltb d 10 then 48 + d else 87 + d

-- `std::setw(2)` of a byte in hexadecimal, filled with 0
unfoldable pub two_digits : ℕ → Text
two_digits b = hex_digit (b / 16) ∷ hex_digit (b % 16) ∷ []

-- `(addr.m_data >> k) & 0xff`
abbrev pub byte_at : ℕ → ℕ → ℕ
byte_at k m = m / 2 ^ k % 256

-- `operator<<`
unfoldable pub print : ℕ → Text
print m =
    two_digits (byte_at 40 m)
    ++ b':' ∷ two_digits (byte_at 32 m)
    ++ b':' ∷ two_digits (byte_at 24 m)
    ++ b':' ∷ two_digits (byte_at 16 m)
    ++ b':' ∷ two_digits (byte_at 8 m)
    ++ b':' ∷ two_digits (byte_at 0 m)
