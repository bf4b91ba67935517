-- ===== src/Pdu/Ucs2/RoundTrip.antt =====
-- Decoding what EncodeUCS2 wrote.
use gsm2mqtt.Base.{
  ℕ, ◌+◌, ◌-◌, ◌*◌, ◌/◌, ◌%◌, ◌^◌, ◌≤◌, ◌<◌, bit_or, bit_and, List, [], ◌∷◌, ◌++◌, ltb,
  if◌then◌else◌, ◌≡◌, ◌⊎◌, refl, ap, ap₂, ◌∙◌, arith, All, length, All-append,
}
use gsm2mqtt.Base.Bits.{bit_and_mask, bit_or_fields}
use gsm2mqtt.Pdu.Ucs2.{
  utf16_units, utf16_encode, utf16_decode, unit_bytes, byte_units, encode_ucs2, decode_ucs2,
}

-- A Unicode scalar value: a code point that is no surrogate.
abbrev pub IsScalar : ℕ → Type 0
IsScalar r = (r < 0xD800) ⊎ ((0xE000 ≤ r) × (r < 0x110000))

abbrev IsUnit16 : ℕ → Type 0
IsUnit16 u = u < 2 ^ 16

joined_bytes :
    (u : ℕ) → u < 2 ^ 16 → bit_or (u / 2 ^ 8 % 256 * 2 ^ 8 % 2 ^ 16) (bit_and u 0xFF % 256) ≡ u
joined_bytes u h =
    let high : u / 2 ^ 8 % 256 * 2 ^ 8 % 2 ^ 16 ≡ u / 256 * 2 ^ 8 = omega arith in
    let low : bit_and u 0xFF % 256 ≡ u % 256 = omega (arith, bit_and_mask 8 u) in
    ap₂ bit_or high low ∙ bit_or_fields 8 (u / 256) (u % 256) (omega arith) ∙ omega arith

byte_units-unit_bytes : (us : List ℕ) → All IsUnit16 us → byte_units (unit_bytes us) ≡ us
unfolding byte_units unit_bytes
byte_units-unit_bytes [] h = refl
byte_units-unit_bytes (u ∷ us) h = ap₂ ◌∷◌ (joined_bytes u h.0) (byte_units-unit_bytes us h.1)

utf16_units-IsUnit16 : (r : ℕ) → All IsUnit16 (utf16_units r)
unfolding utf16_units
utf16_units-IsUnit16 r = ground arith

utf16_encode-IsUnit16 : (s : List ℕ) → All IsUnit16 (utf16_encode s)
unfolding utf16_encode
utf16_encode-IsUnit16 [] = tt
utf16_encode-IsUnit16 (r ∷ s) =
    All-append IsUnit16 (utf16_units r) (utf16_encode s) (utf16_units-IsUnit16 r)
      (utf16_encode-IsUnit16 s)

-- A unit that is no surrogate is read as itself, whatever follows.
decode_unit :
    (u : ℕ) (us : List ℕ)
    → (u < 0xD800) ⊎ (0xE000 ≤ u)
    → utf16_decode (u ∷ us) ≡ u ∷ utf16_decode us
unfolding utf16_decode
decode_unit u [] h = ground arith
decode_unit u (v ∷ us) h = ground arith

decode_pair :
    (u v : ℕ) (us : List ℕ)
    → u < 1024
    → v < 1024
    → utf16_decode ((0xD800 + u) ∷ (0xDC00 + v) ∷ us) ≡ (u * 1024 + v + 0x10000) ∷ utf16_decode us
unfolding utf16_decode
decode_pair u v us h k = ground arith

decode_rune :
    (r : ℕ) (us : List ℕ) → IsScalar r → utf16_decode (utf16_units r ++ us) ≡ r ∷ utf16_decode us
unfolding utf16_units
decode_rune r us h =
    ground (arith, decode_unit r us, decode_pair ((r - 0x10000) / 1024) ((r - 0x10000) % 1024) us)

utf16_decode-encode : (s : List ℕ) → All IsScalar s → utf16_decode (utf16_encode s) ≡ s
unfolding utf16_encode
utf16_decode-encode [] h = unfold utf16_decode in refl
utf16_decode-encode (r ∷ s) h =
    decode_rune r (utf16_encode s) h.0 ∙ ap (λ (t : List ℕ). r ∷ t) (utf16_decode-encode s h.1)

-- A text of Unicode scalar values survives EncodeUCS2 and DecodeUCS2.
pub decode_ucs2-encode_ucs2 :
    (text : List ℕ) → All IsScalar text → decode_ucs2 (encode_ucs2 text) ≡ text
unfolding decode_ucs2 encode_ucs2
decode_ucs2-encode_ucs2 text h =
    ap utf16_decode (byte_units-unit_bytes (utf16_encode text) (utf16_encode-IsUnit16 text))
    ∙ utf16_decode-encode text h

unit_bytes-IsByte : (us : List ℕ) → All (λ b. b < 256) (unit_bytes us)
unfolding unit_bytes
unit_bytes-IsByte [] = tt
unit_bytes-IsByte (u ∷ us) = (omega arith, (omega arith, unit_bytes-IsByte us))

-- EncodeUCS2 writes bytes.
pub encode_ucs2-IsByte : (text : List ℕ) → All (λ b. b < 256) (encode_ucs2 text)
unfolding encode_ucs2
encode_ucs2-IsByte text = unit_bytes-IsByte (utf16_encode text)

length-unit_bytes : (us : List ℕ) → length (unit_bytes us) ≡ 2 * length us
unfolding unit_bytes
length-unit_bytes [] = refl
length-unit_bytes (u ∷ us) = omega (arith, length-unit_bytes us)

-- Two bytes for a rune of the basic plane and four for one above it.
pub length-encode_ucs2-cons :
    (r : ℕ) (s : List ℕ)
    → IsScalar r
    → length (encode_ucs2 (r ∷ s)) ≡ 2 * (if ltb 0xFFFF r then 2 else 1) + length (encode_ucs2 s)
unfolding encode_ucs2 utf16_encode utf16_units
length-encode_ucs2-cons r s h =
    ground (arith, length-unit_bytes (utf16_encode (r ∷ s)), length-unit_bytes (utf16_encode s))

pub length-encode_ucs2-nil : length (encode_ucs2 []) ≡ 0
unfolding encode_ucs2 utf16_encode unit_bytes
length-encode_ucs2-nil = refl
