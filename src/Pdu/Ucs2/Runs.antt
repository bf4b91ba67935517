-- ===== src/Pdu/Ucs2/Runs.antt =====
-- Runs of the UCS-2 codec.
use gsm2mqtt.Base.{◌≡◌, refl, [], ◌∷◌, arith}
use gsm2mqtt.Pdu.Ucs2.{
  encode_ucs2, decode_ucs2, unit_bytes, utf16_encode, utf16_units, utf16_decode, byte_units,
}
use gsm2mqtt.Pdu.Ucs2.RoundTrip.{decode_ucs2-encode_ucs2}

encode_emoji : encode_ucs2 (0x1F600 ∷ 0x416 ∷ []) ≡ 0xD8 ∷ 0x3D ∷ 0xDE ∷ 0x00 ∷ 0x04 ∷ 0x16 ∷ []
unfolding encode_ucs2 unit_bytes utf16_encode utf16_units
encode_emoji = refl

decode_lone : decode_ucs2 (0xD8 ∷ 0x3D ∷ 0x04 ∷ 0x16 ∷ 0x00 ∷ []) ≡ 0xFFFD ∷ 0x416 ∷ []
unfolding decode_ucs2 utf16_decode byte_units
decode_lone = refl

decode_ucs2-encode_ucs2_example :
    decode_ucs2 (encode_ucs2 (0x1F600 ∷ 0x416 ∷ [])) ≡ 0x1F600 ∷ 0x416 ∷ []
decode_ucs2-encode_ucs2_example = decode_ucs2-encode_ucs2 (0x1F600 ∷ 0x416 ∷ []) (omega arith)
