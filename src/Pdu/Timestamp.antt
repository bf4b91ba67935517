-- ===== src/Pdu/Timestamp.antt =====
-- internal/sms/pdu/timestamp.go. A time is given by the arguments of time.Date (Timestamp of
-- Pdu/Types): the civil fields and the offset of the zone in seconds. Reading the clock is the argument `now`.
pub mod Laws
mod Runs
use gsm2mqtt.Base.{
  ℕ, ◌+◌, ◌*◌, ◌/◌, ◌^◌, bit_and, List, [], ◌∷◌, length, get_or, ltb, ◌==◌, if◌then◌else◌,
}
use gsm2mqtt.Pdu.Types.{Timestamp, Result, ok, ◌>>=◌, index}
use gsm2mqtt.Base.Int.{ℤ, pos, neg}

-- The closure decodeBCD.
pub decode_bcd : ℕ → ℕ
decode_bcd b = bit_and b 0x0F * 10 + bit_and (b / 2 ^ 4) 0x0F

pub tz_offset : ℕ → ℤ
tz_offset tz_raw =
    let tz_quarters = bit_and tz_raw 0x07 * 10 + bit_and (tz_raw / 2 ^ 4) 0x0F in
    if bit_and tz_raw 0x08 == 0 then pos (tz_quarters * 15 * 60) else neg (tz_quarters * 15 * 60)

-- With fewer than seven octets the code answers with the present time.
pub decode_timestamp : Timestamp → List ℕ → Result Timestamp
decode_timestamp now octets = if ltb (length octets) 7 then ok now else (do
  year ← index octets 0
  month ← index octets 1
  day ← index octets 2
  hour ← index octets 3
  minute ← index octets 4
  second ← index octets 5
  tz_raw ← index octets 6
  ok (record {
    year = 2000 + decode_bcd year;
    month = decode_bcd month;
    day = decode_bcd day;
    hour = decode_bcd hour;
    minute = decode_bcd minute;
    second = decode_bcd second;
    offset = tz_offset tz_raw;
  }))
