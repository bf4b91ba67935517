-- ===== src/Pdu/Decode.antt =====
-- internal/sms/pdu/decoder.go and status_report.go: SMS-DELIVER and SMS-STATUS-REPORT units. Every
-- read of an octet at an index and every slice is a step that can panic, here and in the calls of
-- UnpackSeptets and DecodeTimestamp.
pub mod UserData
pub mod Total
mod Runs
use gsm2mqtt.Base.{
  ℕ, zero, suc, ◌+◌, ◌-◌, ◌*◌, ◌/◌, ◌%◌, bit_and, Bool, true, false, not, List, [], ◌∷◌, Option,
  none, some, ltb, leb, ◌==◌, if◌then◌else◌, ◌&&◌, length,
}
use gsm2mqtt.Base.Text.{decode_hex}
use gsm2mqtt.Pdu.Timestamp.{decode_timestamp}
use gsm2mqtt.Pdu.Types.{
  Timestamp, Encoding, gsm7, ucs2, is_ucs2, DecodedSms, StatusReport, Error, invalid_hex,
  truncated_pdu, not_status_report, unsupported_message_type, panic, Result, ok, err, ◌>>=◌, ◌>>◌,
  guard, index, slice,
}
use gsm2mqtt.Pdu.Alphabet.{decode_gsm7}
use gsm2mqtt.Pdu.Septets.{unpack_septets}
use gsm2mqtt.Pdu.Ucs2.{decode_ucs2}
use gsm2mqtt.Pdu.Address.{decode_address}

-- Reference, number of parts and part number, from octet `i` on.
pub read_element : List ℕ → ℕ → DecodedSms → Result DecodedSms
read_element udh i res = do
  reference ← index udh i
  total ← index udh (i + 1)
  part ← index udh (i + 2)
  ok (record res { reference = reference; total_parts = total; part_number = part })

-- The concatenation element of a user data header, with an 8-bit or a 16-bit reference.
pub concat_element : List ℕ → DecodedSms → Result DecodedSms
concat_element udh res =
    if leb 6 (length udh)
    then (do
      kind ← index udh 1
      if kind == 0x00
          then read_element udh 3 res
          else (if leb 7 (length udh) && (kind == 0x08) then read_element udh 4 res else ok res))
    else ok res

-- The text behind a user data header of `udh_total` octets that ends at `offset`. A negative
-- number of septets left is 0 here, and both mean no text.
pub text_after_udh : List ℕ → ℕ → ℕ → ℕ → Encoding → DecodedSms → Result DecodedSms
text_after_udh octets offset udh_total udl enc res =
    let udh_bits = udh_total * 8 in
    let pad_bits = (7 - udh_bits % 7) % 7 in
    let septets_to_skip = (udh_bits + pad_bits) / 7 in
    let remaining_septets = udl - septets_to_skip in
    if is_ucs2 enc
    then (if leb offset (length octets)
        then (do
          rest ← slice octets offset (length octets)
          ok (record res { text = decode_ucs2 rest }))
        else ok res)
    else (if leb offset (length octets) && ltb 0 remaining_septets
        then (do
          rest ← slice octets offset (length octets)
          septets ← unpack_septets rest remaining_septets pad_bits
          ok (record res { text = decode_gsm7 septets }))
        else ok res)

pub parse_udh : List ℕ → ℕ → ℕ → Encoding → DecodedSms → Result DecodedSms
parse_udh octets offset udl enc res = if leb (length octets) offset then ok res else (do
  udh_len ← index octets offset
  if ltb (length octets) (offset + (1 + udh_len)) then ok res else (do
    udh ← slice octets offset (offset + (1 + udh_len))
    res' ← concat_element udh res
    text_after_udh octets (offset + (1 + udh_len)) (1 + udh_len) udl enc res'))

pub parse_plain_ud : List ℕ → ℕ → Encoding → DecodedSms → Result DecodedSms
parse_plain_ud ud_bytes udl enc res =
    if length ud_bytes == 0
    then ok res
    else (if is_ucs2 enc then ok (record res { text = decode_ucs2 ud_bytes }) else (do
      septets ← unpack_septets ud_bytes udl 0
      ok (record res { text = decode_gsm7 septets })))

abbrev pub or_err {ℓ} : {A : Type ℓ} → Option A → Error → Result A
or_err (some a) e = ok a
or_err none e = err e

-- The address field at `offset`: the number, and the offset behind it.
pub read_address : List ℕ → ℕ → Result (List ℕ × ℕ)
read_address octets offset = do
  guard (leb (offset + 2) (length octets)) truncated_pdu
  digit_count ← index octets offset
  toa ← index octets (offset + 1)
  guard (leb (offset + 2 + (digit_count + 1) / 2) (length octets)) truncated_pdu
  bcd ← slice octets (offset + 2) (offset + 2 + (digit_count + 1) / 2)
  ok (decode_address bcd digit_count toa, offset + 2 + (digit_count + 1) / 2)

-- A timestamp of seven octets at `offset`.
pub read_timestamp : Timestamp → List ℕ → ℕ → Result Timestamp
read_timestamp now octets offset = do
  guard (leb (offset + 7) (length octets)) truncated_pdu
  stamp ← slice octets offset (offset + 7)
  decode_timestamp now stamp

-- DecodeSMS from the PID on, for a first octet with or without a header.
pub decode_body : Timestamp → List ℕ → ℕ → Bool → List ℕ → Result DecodedSms
decode_body now octets offset has_udh from = do
  guard (leb (offset + 2) (length octets)) truncated_pdu
  pid ← index octets offset
  dcs ← index octets (offset + 1)
  let enc = if bit_and dcs 0x0C == 0x08 then ucs2 else gsm7
  timestamp ← read_timestamp now octets (offset + 2)
  guard (ltb (offset + 9) (length octets)) truncated_pdu
  udl ← index octets (offset + 9)
  let res : DecodedSms = record {
    from = from;
    text = [];
    timestamp = timestamp;
    encoding = enc;
    has_udh = has_udh;
    reference = 0;
    part_number = 0;
    total_parts = 0;
  }
  if has_udh
      then parse_udh octets (offset + 10) udl enc res
      else (do ud ← slice octets (offset + 10) (length octets); parse_plain_ud ud udl enc res)

pub decode_octets : Timestamp → List ℕ → Result DecodedSms
decode_octets now octets = do
  guard (leb 11 (length octets)) truncated_pdu
  sca_len ← index octets 0
  guard (ltb (1 + sca_len) (length octets)) truncated_pdu
  first_octet ← index octets (1 + sca_len)
  guard (bit_and first_octet 0x03 == 0x00) unsupported_message_type
  (from, offset) ← read_address octets (2 + sca_len)
  decode_body now octets offset (not (bit_and first_octet 0x40 == 0)) from

pub decode_sms : Timestamp → List ℕ → Result DecodedSms
decode_sms now pdu_hex = do
  octets ← or_err (decode_hex pdu_hex) invalid_hex
  decode_octets now octets

-- TP-ST and its classes.
abbrev pub report_of : ℕ → List ℕ → Timestamp → Timestamp → ℕ → StatusReport
report_of msg_ref recipient sc_timestamp discharge status_code = record {
  message_ref = msg_ref;
  recipient = recipient;
  sc_timestamp = sc_timestamp;
  discharge = discharge;
  status_code = status_code;
  delivered = leb status_code 0x1F;
  temporary = leb 0x20 status_code && leb status_code 0x3F;
  permanent = leb 0x40 status_code && leb status_code 0x5F;
}

pub decode_report_octets : Timestamp → List ℕ → Result StatusReport
decode_report_octets now octets = do
  guard (leb 18 (length octets)) truncated_pdu
  sca_len ← index octets 0
  guard (ltb (1 + sca_len) (length octets)) truncated_pdu
  first_octet ← index octets (1 + sca_len)
  guard (bit_and first_octet 0x03 == 0x02) not_status_report
  guard (ltb (2 + sca_len) (length octets)) truncated_pdu
  msg_ref ← index octets (2 + sca_len)
  (recipient, offset) ← read_address octets (3 + sca_len)
  sc_timestamp ← read_timestamp now octets offset
  discharge ← read_timestamp now octets (offset + 7)
  guard (ltb (offset + 14) (length octets)) truncated_pdu
  status_code ← index octets (offset + 14)
  ok (report_of msg_ref recipient sc_timestamp discharge status_code)

pub decode_status_report : Timestamp → List ℕ → Result StatusReport
decode_status_report now pdu_hex = do
  octets ← or_err (decode_hex pdu_hex) invalid_hex
  decode_report_octets now octets
