-- ===== src/Pdu/Timestamp/Runs.antt =====
-- A timestamp read, and the format theorem at a concrete time.
use gsm2mqtt.Base.{◌≡◌, refl, [], ◌∷◌, arith, true}
use gsm2mqtt.Base.Int.{pos, neg}
use gsm2mqtt.Pdu.Types.{Timestamp, ok, index}
use gsm2mqtt.Pdu.Timestamp.{decode_timestamp, decode_bcd, tz_offset}
use gsm2mqtt.Pdu.Timestamp.Laws.{decode_timestamp-semi_octets}

abbrev new_year : Timestamp
new_year = record {
  year = 2024;
  month = 1;
  day = 31;
  hour = 23;
  minute = 59;
  second = 58;
  offset = neg 10800;
}

decode_new_year :
    decode_timestamp new_year (0x42 ∷ 0x10 ∷ 0x13 ∷ 0x32 ∷ 0x95 ∷ 0x85 ∷ 0x21 ∷ [])
    ≡ ok (record new_year { offset = pos 10800 })
unfolding index decode_timestamp decode_bcd tz_offset
decode_new_year = refl

decode_timestamp-semi_octets_example :
    decode_timestamp new_year (0x42 ∷ 0x10 ∷ 0x13 ∷ 0x32 ∷ 0x95 ∷ 0x85 ∷ 0x29 ∷ []) ≡ ok new_year
decode_timestamp-semi_octets_example =
    decode_timestamp-semi_octets new_year 24 1 31 23 59 58 12 true (omega arith) (omega arith)
      (omega arith) (omega arith) (omega arith) (omega arith) (omega arith)
