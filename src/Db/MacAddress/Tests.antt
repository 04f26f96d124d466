-- ===== src/Db/MacAddress/Tests.antt =====
-- Addresses with and without a byte ff.
use deska.Base.{ℕ, false, none, some, ◌<◌, ◌^◌, ◌≡◌, refl, arith}
use deska.Base.Text.{codes}
use deska.Db.MacAddress.{
  skip_space, hex_value, more_digits, digits, unprefixed, sign, read_number, in_range,
  read_mac_address_byte, read_char, read_bytes, Unwritten, from_text, from_bytes, print,
}
use deska.Db.MacAddress.Bounds.{mac_address-bound}
use deska.Db.MacAddress.RoundTrip.{from_text-print}

abbrev unwritten : Unwritten
unwritten = record { number = (false, 0); char = 0 }

-- read as 00:16:3e:0a:0b:fe
abbrev value : ℕ
value = 95530126334

read_value : from_text unwritten (codes "0:16:3E:+a:0x0b:fe") ≡ some value
unfolding from_text read_bytes read_mac_address_byte in_range read_number digits unprefixed sign
    skip_space hex_value more_digits read_char
read_value = refl

mac_address-bound_example : (value < 2 ^ 48) × (from_bytes 255 255 255 255 255 255 < 2 ^ 48)
mac_address-bound_example =
    mac_address-bound unwritten (codes "0:16:3E:+a:0x0b:fe") value 255 255 255 255 255 255
      read_value (omega arith) (omega arith) (omega arith) (omega arith) (omega arith) (omega arith)

from_text-print_example : from_text unwritten (print (from_bytes 0 22 62 10 11 255)) ≡ none
from_text-print_example =
    from_text-print unwritten 0 22 62 10 11 255
      (omega arith, omega arith, omega arith, omega arith, omega arith, omega arith)
