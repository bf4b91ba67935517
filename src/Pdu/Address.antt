-- ===== src/Pdu/Address.antt =====
-- internal/sms/pdu/address.go: phone numbers as semi-octet BCD.
pub mod RoundTrip
mod Runs
use gsm2mqtt.Base.{
  ℕ, zero, suc, ◌+◌, ◌-◌, ◌*◌, ◌/◌, ◌%◌, ◌^◌, bit_and, bit_or, Bool, true, false, ◌&&◌, List, [],
  ◌∷◌, ◌++◌, ltb, leb, ◌==◌, if◌then◌else◌, length, drop,
}
use gsm2mqtt.Base.Text.{trim_space, has_prefix, is_digit, hex_string, codes}

-- The digits of a text, as numbers.
unfoldable pub digits_in : List ℕ → List ℕ
digits_in [] = []
digits_in (r ∷ s) = let rest = digits_in s in if is_digit r then (r - b'0') ∷ rest else rest

-- `append(digits, 0x0F)` where the number of digits is odd.
abbrev pub pad_digits : List ℕ → List ℕ
pad_digits digits = if length digits % 2 == 0 then digits else digits ++ 0x0F ∷ []

-- `(digits[i+1] << 4) | digits[i]` for i = 0, 2, ...
pub pack_digits : List ℕ → List ℕ
pack_digits [] = []
pack_digits (d ∷ []) = []
pack_digits (d ∷ e ∷ digits) = bit_or (e * 2 ^ 4 % 256) d ∷ pack_digits digits

pub record Address : Type 0 where
  pub digit_count : ℕ
  pub type_of_addr : ℕ
  pub bcd : List ℕ

abbrev pub is_international : List ℕ → Bool
is_international clean = has_prefix clean (codes "+")

pub encode_address : List ℕ → Address
unfolding trim_space
encode_address number =
    let clean = trim_space number in
    let intl = is_international clean in
    let digits = digits_in (if intl then drop 1 clean else clean) in
    record {
      digit_count = length digits % 256;
      type_of_addr = if intl then 0x91 else 0x81;
      bcd = pack_digits (pad_digits digits);
    }

-- One nibble of DecodeAddress: its character, if it is a digit that is still wanted.
abbrev pub nibble_taken : ℕ → ℕ → ℕ → Bool
nibble_taken nibble digits_read digit_count = leb nibble 9 && ltb digits_read digit_count

pub decode_digits : List ℕ → ℕ → ℕ → List ℕ
decode_digits [] digit_count digits_read = []
decode_digits (octet ∷ bcd) digit_count digits_read =
    let low = bit_and octet 0x0F in
    let high = bit_and (octet / 2 ^ 4) 0x0F in
    let low_taken = nibble_taken low digits_read digit_count in
    let read = if low_taken then digits_read + 1 else digits_read in
    let high_taken = nibble_taken high read digit_count in
    let read' = if high_taken then read + 1 else read in
    (if low_taken then (b'0' + low) ∷ [] else [])
    ++ ((if high_taken then (b'0' + high) ∷ [] else []) ++ decode_digits bcd digit_count read')

pub decode_address : List ℕ → ℕ → ℕ → List ℕ
decode_address bcd digit_count type_of_addr =
    (if type_of_addr == 0x91 then codes "+" else []) ++ decode_digits bcd digit_count 0

unfoldable pub format_address_hex : List ℕ → List ℕ
format_address_hex number =
    let a = encode_address number in
    hex_string (a.digit_count ∷ a.type_of_addr ∷ []) ++ hex_string a.bcd
