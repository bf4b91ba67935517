-- ===== src/Pdu/Decode/Total.antt =====
-- No input makes the decoders panic: each index and slice is in range where it is read.
use gsm2mqtt.Base.{
  ℕ, ◌+◌, ◌-◌, ◌*◌, ◌/◌, ◌%◌, ◌<◌, Bool, List, length, ◌≡◌, ◌≢◌, refl, arith, take, drop, get_or,
}
use gsm2mqtt.Pdu.Timestamp.Laws.{decode_timestamp-ne-panic}
use gsm2mqtt.Pdu.Septets.Unpack.{unpack_septets-ok}
use gsm2mqtt.Pdu.Types.{
  Timestamp, Encoding, DecodedSms, panic, Result, ok, err, ◌>>=◌, index, slice,
}
use gsm2mqtt.Pdu.Decode.{
  read_element, concat_element, text_after_udh, parse_udh, parse_plain_ud, read_address,
  read_timestamp, decode_body, decode_octets, decode_sms, decode_report_octets,
  decode_status_report,
}

read_element-ne-panic :
    (udh : List ℕ) (i : ℕ) (res : DecodedSms)
    → i + 2 < length udh
    → read_element udh i res ≢ err panic
unfolding read_element index
read_element-ne-panic udh i res h e = ground arith

concat_element-ne-panic : (udh : List ℕ) (res : DecodedSms) → concat_element udh res ≢ err panic
unfolding concat_element index
concat_element-ne-panic udh res e =
    ground (arith, read_element-ne-panic udh 3 res, read_element-ne-panic udh 4 res)

text_after_udh-ne-panic :
    (octets : List ℕ) (offset total udl : ℕ) (enc : Encoding) (res : DecodedSms)
    → text_after_udh octets offset total udl enc res ≢ err panic
unfolding text_after_udh slice
text_after_udh-ne-panic octets offset total udl enc res e =
    let pad : ℕ = (7 - total * 8 % 7) % 7 in
    let rest : List ℕ = take (length octets - offset) (drop offset octets) in
    ground (arith, (unpack_septets-ok rest (udl - (total * 8 + pad) / 7) pad).1)

parse_plain_ud-ne-panic :
    (ud : List ℕ) (udl : ℕ) (enc : Encoding) (res : DecodedSms)
    → parse_plain_ud ud udl enc res ≢ err panic
unfolding parse_plain_ud
parse_plain_ud-ne-panic ud udl enc res e = ground (arith, (unpack_septets-ok ud udl 0).1)

read_address-ne-panic : (octets : List ℕ) (offset : ℕ) → read_address octets offset ≢ err panic
unfolding read_address index slice
read_address-ne-panic octets offset e = ground arith

read_timestamp-ne-panic :
    (now : Timestamp) (octets : List ℕ) (offset : ℕ) → read_timestamp now octets offset ≢ err panic
unfolding read_timestamp slice
read_timestamp-ne-panic now octets offset e = grind (arith, decode_timestamp-ne-panic)

-- Where two steps cannot panic, nor can the first one followed by the second.
bind-ne-panic :
    {A B : Type 0} (m : Result A) (f : A → Result B)
    → m ≢ err panic
    → ((a : A) → m ≡ ok a → f a ≢ err panic)
    → (m >>= f) ≢ err panic
bind-ne-panic (ok a) f h k = k a refl
bind-ne-panic (err x) f h k = λ e. h (cc)

parse_udh-ne-panic :
    (octets : List ℕ) (offset udl : ℕ) (enc : Encoding) (res : DecodedSms)
    → parse_udh octets offset udl enc res ≢ err panic
unfolding parse_udh index slice
parse_udh-ne-panic octets offset udl enc res =
    let n : ℕ = 1 + get_or octets offset 0 in
    let udh : List ℕ = take (offset + n - offset) (drop offset octets) in
    let behind =
      bind-ne-panic (concat_element udh res) (λ r. text_after_udh octets (offset + n) n udl enc r)
        (concat_element-ne-panic udh res)
        (λ r _. text_after_udh-ne-panic octets (offset + n) n udl enc r) in
    λ e. ground (arith, behind)

decode_body-ne-panic :
    (now : Timestamp) (octets : List ℕ) (offset : ℕ) (has_udh : Bool) (from : List ℕ)
    → decode_body now octets offset has_udh from ≢ err panic
unfolding decode_body index slice
decode_body-ne-panic now octets offset has_udh from e =
    grind (arith, read_timestamp-ne-panic, parse_udh-ne-panic, parse_plain_ud-ne-panic)

decode_octets-ne-panic : (now : Timestamp) (octets : List ℕ) → decode_octets now octets ≢ err panic
unfolding decode_octets index
decode_octets-ne-panic now octets e = grind (arith, read_address-ne-panic, decode_body-ne-panic)

-- DecodeSMS answers every text with a message or one of its errors: no octet is read at an
-- index out of range, by the decoder itself, UnpackSeptets or DecodeTimestamp, and no slice is taken
-- out of range.
pub decode_sms-ne-panic : (now : Timestamp) (pdu_hex : List ℕ) → decode_sms now pdu_hex ≢ err panic
unfolding decode_sms
decode_sms-ne-panic now pdu_hex e = grind (arith, decode_octets-ne-panic)

decode_report_octets-ne-panic :
    (now : Timestamp) (octets : List ℕ) → decode_report_octets now octets ≢ err panic
unfolding decode_report_octets index
decode_report_octets-ne-panic now octets e =
    grind (arith, read_address-ne-panic, read_timestamp-ne-panic)

-- DecodeStatusReport answers every text with a report or one of its errors: no octet is read
-- at an index out of range, by the decoder itself or DecodeTimestamp, and no slice is taken out of
-- range.
pub decode_status_report-ne-panic :
    (now : Timestamp) (pdu_hex : List ℕ) → decode_status_report now pdu_hex ≢ err panic
unfolding decode_status_report
decode_status_report-ne-panic now pdu_hex e = grind (arith, decode_report_octets-ne-panic)
