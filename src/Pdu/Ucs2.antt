-- ===== src/Pdu/Ucs2.antt =====
-- internal/sms/pdu/ucs2.go, with Go's unicode/utf16. A text is a list of code points.
pub mod RoundTrip
mod Runs
use gsm2mqtt.Base.{
  ℕ, ◌+◌, ◌-◌, ◌*◌, ◌/◌, ◌%◌, ◌^◌, bit_or, bit_and, Bool, List, [], ◌∷◌, ◌++◌, ltb, leb,
  if◌then◌else◌, ◌&&◌, ◌||◌,
}

-- What utf16.Encode writes for one rune: a unit, a surrogate pair, or U+FFFD for what is no
-- character.
pub utf16_units : ℕ → List ℕ
utf16_units r =
    if ltb r 0xD800 || (leb 0xE000 r && ltb r 0x10000)
    then r ∷ []
    else (if leb 0x10000 r && leb r 0x10FFFF
        then (0xD800 + (r - 0x10000) / 1024) ∷ (0xDC00 + (r - 0x10000) % 1024) ∷ []
        else 0xFFFD ∷ [])

pub utf16_encode : List ℕ → List ℕ
utf16_encode [] = []
utf16_encode (r ∷ s) = utf16_units r ++ utf16_encode s

abbrev pub is_high_surrogate : ℕ → Bool
is_high_surrogate u = leb 0xD800 u && ltb u 0xDC00

abbrev pub is_low_surrogate : ℕ → Bool
is_low_surrogate u = leb 0xDC00 u && ltb u 0xE000

-- utf16.Decode: a surrogate pair is one rune, a surrogate without its other half is U+FFFD.
abbrev pub lone_rune : ℕ → ℕ
lone_rune u = if ltb u 0xD800 || leb 0xE000 u then u else 0xFFFD

unfoldable pub utf16_decode : List ℕ → List ℕ
utf16_decode [] = []
utf16_decode (u ∷ []) = lone_rune u ∷ []
utf16_decode (u ∷ v ∷ us) =
    let behind = utf16_decode us in
    let rest = utf16_decode (v ∷ us) in
    if is_high_surrogate u && is_low_surrogate v
    then ((u - 0xD800) * 1024 + (v - 0xDC00) + 0x10000) ∷ behind
    else lone_rune u ∷ rest

-- The loop of EncodeUCS2: high byte first.
pub unit_bytes : List ℕ → List ℕ
unit_bytes [] = []
unit_bytes (v ∷ vs) = (v / 2 ^ 8 % 256) ∷ (bit_and v 0xFF % 256) ∷ unit_bytes vs

pub encode_ucs2 : List ℕ → List ℕ
encode_ucs2 s = unit_bytes (utf16_encode s)

-- The loop of DecodeUCS2; of an odd number of bytes the last one is cut off.
unfoldable pub byte_units : List ℕ → List ℕ
byte_units [] = []
byte_units (b ∷ []) = []
byte_units (hi ∷ lo ∷ bytes) = bit_or (hi * 2 ^ 8 % 2 ^ 16) lo ∷ byte_units bytes

unfoldable pub decode_ucs2 : List ℕ → List ℕ
decode_ucs2 bytes = utf16_decode (byte_units bytes)
