-- ===== src/Pdu/Encode/Reading.antt =====
-- The parts of a message, as a receiver reads them one by one.
use gsm2mqtt.Base.{
  ℕ, ◌+◌, ◌*◌, ◌≤◌, ◌<◌, Bool, true, false, List, [], ◌∷◌, length, ◌≡◌, refl, ap, arith, All, map,
}
use gsm2mqtt.Base.Text.{trim_space, is_empty}
use gsm2mqtt.Pdu.Types.{Encoding, gsm7, ucs2, DecodedSms, Pdu, Result, ok, ◌>>=◌}
use gsm2mqtt.Pdu.Alphabet.{is_gsm7, encode_gsm7}
use gsm2mqtt.Pdu.Alphabet.RoundTrip.{IsBasic, IsBasic-all}
use gsm2mqtt.Pdu.Ucs2.{encode_ucs2}
use gsm2mqtt.Pdu.Ucs2.RoundTrip.{IsScalar, length-encode_ucs2-cons, length-encode_ucs2-nil}
use gsm2mqtt.Pdu.Address.{digits_in}
use gsm2mqtt.Pdu.Decode.UserData.{part_read}
use gsm2mqtt.Pdu.Encode.{count_units, encode_part, encode_parts, next_ref_number}
use gsm2mqtt.Pdu.Encode.Chunks.{FitsUnits, FitsRunes}
use gsm2mqtt.Pdu.Encode.Message.{read_hex, read_part-gsm7, read_part-ucs2}

-- A text that fits a part and that the encoding can write.
abbrev pub Readable : Encoding → List ℕ → Type 0
Readable gsm7 c =
    (is_gsm7 c ≡ true) × (0 < length (encode_gsm7 c)) × (7 + length (encode_gsm7 c) < 256)
Readable ucs2 c = All IsScalar c × (0 < length (encode_ucs2 c)) × (6 + length (encode_ucs2 c) < 256)
Readable _ c = ⊥

-- The units read one by one.
unfoldable pub read_all : DecodedSms → List Pdu → Result (List DecodedSms)
read_all res [] = ok []
read_all res (p ∷ ps) = do m ← read_hex res p.hex; ms ← read_all res ps; ok (m ∷ ms)

-- What a receiver makes of chunks numbered from `part` on.
abbrev pub parts_read : DecodedSms → ℕ → ℕ → ℕ → List (List ℕ) → List DecodedSms
parts_read res ref total part [] = []
parts_read res ref total part (c ∷ cs) =
    part_read res c ref total part ∷ parts_read res ref total (part + 1) cs

pub texts-parts_read :
    (res : DecodedSms) (ref total part : ℕ) (cs : List (List ℕ))
    → map (λ (m : DecodedSms). m.text) (parts_read res ref total part cs) ≡ cs
texts-parts_read res ref total part [] = refl
texts-parts_read res ref total part (c ∷ cs) =
    ap (λ (t : List (List ℕ)). c ∷ t) (texts-parts_read res ref total (part + 1) cs)

module _ (res : DecodedSms) (recipient : List ℕ)
    (fits : length (digits_in (trim_space recipient)) < 256) where
  module _ (srr : Bool) (ref total : ℕ) (ref_byte : ref < 256) (total_byte : total < 256) where
    read_part :
        (enc : Encoding) (part : ℕ) (c : List ℕ)
        → part < 256
        → Readable enc c
        → read_hex res (encode_part recipient c enc srr ref part total).hex
          ≡ ok (part_read res c ref total part)
    read_part gsm7 part c h r =
        read_part-gsm7 res recipient fits ref part total ref_byte h total_byte c srr r.0 r.1 r.2
    read_part ucs2 part c h r =
        read_part-ucs2 res recipient fits ref part total ref_byte h total_byte c srr r.0 r.2
    read_part _ part c h r = absurd r

    pub read_all-encode_parts :
        (enc : Encoding) (part : ℕ) (cs : List (List ℕ))
        → part + length cs ≤ 256
        → All (Readable enc) cs
        → read_all res (encode_parts recipient cs enc srr ref part total)
          ≡ ok (parts_read res ref total part cs)
    unfolding read_all encode_parts
    read_all-encode_parts enc part [] h r = refl
    read_all-encode_parts enc part (c ∷ cs) h r = rw (
      read_part enc part c (omega arith) r.0,
      read_all-encode_parts enc (part + 1) cs (omega arith) r.1,
    )

pub next_ref_number-lt : (n : ℕ) → next_ref_number n < 256
unfolding next_ref_number
next_ref_number-lt n = ground arith

pub length-encode_ucs2 :
    (text : List ℕ) → All IsScalar text → length (encode_ucs2 text) ≡ 2 * count_units text
unfolding count_units
length-encode_ucs2 [] h = length-encode_ucs2-nil
length-encode_ucs2 (r ∷ text) h =
    omega (arith, length-encode_ucs2-cons r text h.0, length-encode_ucs2 text h.1)

pub filled_units : (text : List ℕ) → is_empty text ≡ false → 0 < count_units text
unfolding count_units
filled_units [] h = cc
filled_units (r ∷ text) h = ground arith

pub filled-length : (text : List ℕ) → is_empty text ≡ false → 0 < length text
filled-length [] h = cc
filled-length (r ∷ text) h = omega arith

pub ucs2_chunk : (c : List ℕ) → All IsScalar c → FitsUnits 67 c → Readable ucs2 c
ucs2_chunk c h f = (
  h,
  omega (arith, length-encode_ucs2 c h, filled_units c f.1),
  omega (arith, length-encode_ucs2 c h),
)

pub gsm7_chunk : (c : List ℕ) → All IsBasic c → FitsRunes 153 c → Readable gsm7 c
gsm7_chunk c h f =
    let plain = IsBasic-all c h in
    (plain.0, omega (arith, plain.1, filled-length c f.1), omega (arith, plain.1))
