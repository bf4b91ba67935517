-- ===== src/Pdu/Address/Runs.antt =====
-- Runs of the address codec.
use gsm2mqtt.Base.{◌≡◌, refl, arith}
use gsm2mqtt.Base.Text.{codes, hex_string}
use gsm2mqtt.Pdu.Address.{
  encode_address, decode_address, format_address_hex, digits_in, pack_digits,
}
use gsm2mqtt.Pdu.Address.RoundTrip.{decode_address-encode_address}

format_number : format_address_hex (codes " +79991234567 ") ≡ codes "0B919799214365F7"
unfolding format_address_hex encode_address digits_in pack_digits hex_string
format_number = refl

decode_address-encode_address_example :
    decode_address (encode_address (codes "8 (999) 123")).bcd 7 0x81 ≡ codes "8999123"
unfolding encode_address digits_in
decode_address-encode_address_example =
    decode_address-encode_address (codes "8 (999) 123") (omega arith)
