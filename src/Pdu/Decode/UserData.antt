-- ===== src/Pdu/Decode/UserData.antt =====
-- What the decoder reads from user data in the encoder's format.
use gsm2mqtt.Base.{ℕ, ◌+◌, ◌-◌, ◌<◌, true, List, [], ◌∷◌, ◌++◌, length, ◌≡◌, arith, All, take_all}
use gsm2mqtt.Pdu.Types.{gsm7, ucs2, DecodedSms, ok, index, slice}
use gsm2mqtt.Pdu.Alphabet.{is_gsm7, encode_gsm7}
use gsm2mqtt.Pdu.Alphabet.RoundTrip.{text_round_trip}
use gsm2mqtt.Pdu.Septets.{pack_septets}
use gsm2mqtt.Pdu.Septets.Pack.{length-pack_septets}
use gsm2mqtt.Pdu.Ucs2.{encode_ucs2}
use gsm2mqtt.Pdu.Ucs2.RoundTrip.{IsScalar, decode_ucs2-encode_ucs2}
use gsm2mqtt.Pdu.Decode.{read_element, concat_element, text_after_udh, parse_udh, parse_plain_ud}

pack_IsFilled :
    (ss : List ℕ) (start_bit : ℕ) → 0 < length ss → 0 < length (pack_septets ss start_bit)
pack_IsFilled [] start_bit h = absurd (omega arith)
pack_IsFilled (s ∷ ss) start_bit h = rw (length-pack_septets s ss start_bit) (omega arith)

module _ (res : DecodedSms) (text : List ℕ) where
  -- Packed septets without a header are read as their text.
  pub parse_plain_ud-gsm7 :
      is_gsm7 text ≡ true
      → 0 < length (encode_gsm7 text)
      → parse_plain_ud (pack_septets (encode_gsm7 text) 0) (length (encode_gsm7 text)) gsm7 res
        ≡ ok (record res { text = text })
  unfolding parse_plain_ud
  parse_plain_ud-gsm7 h k =
      ground (arith, pack_IsFilled (encode_gsm7 text) 0, text_round_trip text 0)

  pub parse_plain_ud-ucs2 :
      (udl : ℕ)
      → All IsScalar text
      → 0 < length (encode_ucs2 text)
      → parse_plain_ud (encode_ucs2 text) udl ucs2 res ≡ ok (record res { text = text })
  unfolding parse_plain_ud
  parse_plain_ud-ucs2 udl h k = ground (arith, decode_ucs2-encode_ucs2 text h)

  module _ (ref total part : ℕ) where
    abbrev header : List ℕ
    header = 0x05 ∷ 0x00 ∷ 0x03 ∷ ref ∷ total ∷ part ∷ []

    abbrev pub part_read : DecodedSms
    part_read = record res { text = text; reference = ref; total_parts = total; part_number = part }

    -- Septets packed behind the six octets of a concatenation header and one fill bit.
    pub parse_udh-gsm7 :
        is_gsm7 text ≡ true
        → 0 < length (encode_gsm7 text)
        → parse_udh
            (header ++ pack_septets (encode_gsm7 text) 1)
            0
            (7 + length (encode_gsm7 text))
            gsm7
            res
          ≡ ok part_read
    unfolding parse_udh concat_element read_element text_after_udh index slice
    parse_udh-gsm7 h k =
        let packed : List ℕ = pack_septets (encode_gsm7 text) 1 in
        ground (arith, take_all packed (length (header ++ packed) - 6), text_round_trip text 1)

    pub parse_udh-ucs2 :
        (udl : ℕ)
        → All IsScalar text
        → parse_udh (header ++ encode_ucs2 text) 0 udl ucs2 res ≡ ok part_read
    unfolding parse_udh concat_element read_element text_after_udh index slice
    parse_udh-ucs2 udl h =
        let body : List ℕ = encode_ucs2 text in
        ground (arith, take_all body (length (header ++ body) - 6), decode_ucs2-encode_ucs2 text h)
