-- ===== src/Pdu/Alphabet/Runs.antt =====
-- Runs.
use gsm2mqtt.Base.{◌≡◌, refl, [], ◌∷◌, length}
use gsm2mqtt.Pdu.Alphabet.{
  encode_gsm7, decode_gsm7, rune_septets, rune_to_gsm7_basic, rune_to_gsm7_ext, basic_index,
  ext_code, ext_rune, is_gsm7,
}
use gsm2mqtt.Pdu.Alphabet.RoundTrip.{text_round_trip}
use gsm2mqtt.Pdu.Types.{ok, ◌>>=◌}
use gsm2mqtt.Pdu.Septets.{pack_septets, unpack_septets}

encode_euro : encode_gsm7 (b'a' ∷ 0x20AC ∷ 0x416 ∷ []) ≡ 0x61 ∷ 0x1B ∷ 0x65 ∷ 0x3F ∷ []
unfolding encode_gsm7 rune_septets rune_to_gsm7_basic rune_to_gsm7_ext basic_index ext_code
encode_euro = refl

decode_unknown_escape : decode_gsm7 (0x1B ∷ 0x61 ∷ 0x62 ∷ []) ≡ 0 ∷ b'b' ∷ []
unfolding decode_gsm7 ext_rune
decode_unknown_escape = refl

text_round_trip_example :
    (do
      septets ←
          unpack_septets
            (pack_septets (encode_gsm7 (b'a' ∷ 0x20AC ∷ [])) 1)
            (length (encode_gsm7 (b'a' ∷ 0x20AC ∷ [])))
            1
      ok (decode_gsm7 septets))
    ≡ ok (b'a' ∷ 0x20AC ∷ [])
unfolding is_gsm7 rune_to_gsm7_basic basic_index rune_to_gsm7_ext ext_code
text_round_trip_example = text_round_trip (b'a' ∷ 0x20AC ∷ []) 1 refl
