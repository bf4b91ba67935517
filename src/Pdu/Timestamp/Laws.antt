-- ===== src/Pdu/Timestamp/Laws.antt =====
-- The format of 3GPP TS 23.040 section 9.2.3.11, written from the time: two semi-octets a field, the
-- first digit low, and the sign of the zone in bit 3 of the last octet.
use gsm2mqtt.Base.{
  ℕ, ◌+◌, ◌*◌, ◌/◌, ◌%◌, ◌^◌, ◌<◌, bit_and, List, ◌≢◌, [], ◌∷◌, ◌≡◌, arith, Bool, true, false,
  if◌then◌else◌,
}
use gsm2mqtt.Base.Int.{pos, neg}
use gsm2mqtt.Base.Bits.{bit_and_mask, bit_and_halves, bit_and-zero}
use gsm2mqtt.Pdu.Types.{Timestamp, ok, err, panic, index}
use gsm2mqtt.Pdu.Timestamp.{decode_bcd, tz_offset, decode_timestamp}

abbrev pub semi_octets : ℕ → ℕ
semi_octets n = n / 10 + 16 * (n % 10)

-- A zone `quarters` of an hour east of Greenwich, or west of it.
abbrev pub zone_octet : Bool → ℕ → ℕ
zone_octet west quarters = quarters / 10 + (if west then 8 else 0) + 16 * (quarters % 10)

decode_bcd-semi_octets : (n : ℕ) → n < 100 → decode_bcd (semi_octets n) ≡ n
unfolding decode_bcd
decode_bcd-semi_octets n h =
    omega (arith, bit_and_mask 4 (semi_octets n), bit_and_mask 4 (semi_octets n / 2 ^ 4))

bit_3 : (a : ℕ) → bit_and a 8 ≡ a / 8 % 2 * 8
bit_3 a = omega (
  arith,
  bit_and_halves a 8,
  bit_and_halves (a / 2) 4,
  bit_and_halves (a / 2 / 2) 2,
  bit_and_halves (a / 2 / 2 / 2) 1,
  bit_and-zero (a / 2 / 2 / 2 / 2),
)

zone_parts :
    (sign q : ℕ)
    → sign < 2
    → q < 80
    → (bit_and (q / 10 + sign * 8 + 16 * (q % 10)) 8 ≡ sign * 8)
      × ((bit_and (q / 10 + sign * 8 + 16 * (q % 10)) 0x07 * 10
              + bit_and ((q / 10 + sign * 8 + 16 * (q % 10)) / 2 ^ 4) 0x0F)
            * 15
            * 60
          ≡ q * 900)
zone_parts sign q hs hq =
    let x : ℕ = q / 10 + sign * 8 + 16 * (q % 10) in
    (omega (arith, bit_3 x), omega (arith, bit_and_mask 3 x, bit_and_mask 4 (x / 2 ^ 4)))

tz_offset-zone_octet :
    (west : Bool) (quarters : ℕ)
    → quarters < 80
    → tz_offset (zone_octet west quarters)
      ≡ (if west then neg (quarters * 900) else pos (quarters * 900))
unfolding tz_offset
tz_offset-zone_octet true q h = let parts = zone_parts 1 q (omega arith) h in rw (parts.0, parts.1)
tz_offset-zone_octet false q h = let parts = zone_parts 0 q (omega arith) h in rw (parts.0, parts.1)

-- The seven reads are behind the test of the length.
pub decode_timestamp-ne-panic :
    (now : Timestamp) (octets : List ℕ) → decode_timestamp now octets ≢ err panic
unfolding decode_timestamp index
decode_timestamp-ne-panic now octets e = ground arith

-- Six fields below 100 and a zone of fewer than 80 quarters of an hour, written as semi-octets, are
-- read as the time of those fields in the years from 2000, with that zone's offset in seconds.
pub decode_timestamp-semi_octets :
    (now : Timestamp) (year month day hour minute second quarters : ℕ) (west : Bool)
    → year < 100
    → month < 100
    → day < 100
    → hour < 100
    → minute < 100
    → second < 100
    → quarters < 80
    → decode_timestamp now (
        semi_octets year
        ∷ semi_octets month
        ∷ semi_octets day
        ∷ semi_octets hour
        ∷ semi_octets minute
        ∷ semi_octets second
        ∷ zone_octet west quarters
        ∷ [])
      ≡ ok (record {
        year = 2000 + year;
        month = month;
        day = day;
        hour = hour;
        minute = minute;
        second = second;
        offset = if west then neg (quarters * 900) else pos (quarters * 900);
      })
unfolding decode_timestamp index
decode_timestamp-semi_octets now y mo d h mi s q west ly lmo ld lh lmi ls lq = rw (
  decode_bcd-semi_octets y ly,
  decode_bcd-semi_octets mo lmo,
  decode_bcd-semi_octets d ld,
  decode_bcd-semi_octets h lh,
  decode_bcd-semi_octets mi lmi,
  decode_bcd-semi_octets s ls,
  tz_offset-zone_octet west q lq,
)
