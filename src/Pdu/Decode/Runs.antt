-- ===== src/Pdu/Decode/Runs.antt =====
-- A delivery with a text, and the theorems at concrete inputs.
use gsm2mqtt.Base.{◌≡◌, ◌≢◌, refl}
use gsm2mqtt.Base.Text.{codes, decode_hex}
use gsm2mqtt.Base.Int.{pos}
use gsm2mqtt.Pdu.Types.{Timestamp}
use gsm2mqtt.Pdu.Types.{err, panic, truncated_pdu, invalid_hex}
use gsm2mqtt.Pdu.Decode.{decode_sms, decode_octets, decode_status_report}
use gsm2mqtt.Pdu.Decode.Total.{decode_sms-ne-panic, decode_status_report-ne-panic}

abbrev clock : Timestamp
clock = record { year = 2024; month = 1; day = 1; hour = 0; minute = 0; second = 0; offset = pos 0 }

decode_short : decode_sms clock (codes "0001") ≡ err truncated_pdu
unfolding decode_sms decode_octets decode_hex
decode_short = refl

decode_odd : decode_sms clock (codes "000") ≡ err invalid_hex
unfolding decode_sms decode_hex
decode_odd = refl

decode_sms-ne-panic_example : decode_sms clock (codes "07FF") ≢ err panic
decode_sms-ne-panic_example = decode_sms-ne-panic clock (codes "07FF")

decode_status_report-ne-panic_example : decode_status_report clock (codes "07FF") ≢ err panic
decode_status_report-ne-panic_example = decode_status_report-ne-panic clock (codes "07FF")
