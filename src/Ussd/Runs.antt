-- ===== src/Ussd/Runs.antt =====
-- internal/ussd/parser.go: responses of the network at concrete inputs.
use gsm2mqtt.Base.{none, [], ◌∷◌, ◌≡◌, refl, false, inl, arith}
use gsm2mqtt.Base.Int.{pos}
use gsm2mqtt.Base.Text.{codes, trim_space, trim_left, trim_right, decode_hex, hex_string}
use gsm2mqtt.Ussd.RoundTrip.{ucs2_response, parse_response-encode_ucs2}
use gsm2mqtt.Pdu.Ucs2.{encode_ucs2, decode_ucs2, byte_units, utf16_decode}
use gsm2mqtt.Ussd.{parsed, parse_response, validate_code, completed, decode_message}

balance_code : validate_code (codes "*100#") ≡ none
unfolding validate_code trim_space trim_left trim_right
balance_code = refl

balance :
    parse_response (codes "+CUSD: 0,\"Balans: 12.50\\nOK\",15")
    ≡ parsed (record {
      status = completed;
      message = codes "Balans: 12.50\nOK";
      dcs = pos 15;
      action_required_now = false;
    })
unfolding parse_response decode_message trim_space trim_left trim_right
balance = refl

-- Four digits in the GSM alphabet are taken for one UCS-2 character.
four_digits :
    parse_response (codes "+CUSD: 0,\"1000\",15")
    ≡ parsed (record {
      status = completed;
      message = 0x1000 ∷ [];
      dcs = pos 15;
      action_required_now = false;
    })
unfolding parse_response decode_message trim_space trim_left trim_right decode_hex decode_ucs2
    byte_units utf16_decode
four_digits = refl

parse_response-encode_ucs2_example :
    parse_response (ucs2_response (hex_string (encode_ucs2 (0x414 ∷ 0x430 ∷ []))))
    ≡ parsed (record {
      status = completed;
      message = 0x414 ∷ 0x430 ∷ [];
      dcs = pos 72;
      action_required_now = false;
    })
parse_response-encode_ucs2_example =
    parse_response-encode_ucs2 (0x414 ∷ 0x430 ∷ []) (inl (omega arith), (inl (omega arith), tt))
      refl (omega arith)
