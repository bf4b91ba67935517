-- ===== src/Pdu/Encode/Message.antt =====
-- A receiver's reading of what EncodeSMS wrote.
use gsm2mqtt.Base.{
  ℕ, ◌+◌, ◌/◌, ◌%◌, ◌<◌, bit_and, bit_or, Bool, true, false, List, ◌∷◌, ◌++◌, ◌==◌, if◌then◌else◌,
  length, get_or, drop, ◌≡◌, refl, ap, ◌∙◌, sym, arith, All, Option, get_or-append, drop-append,
}
use gsm2mqtt.Base.Text.{hex_string, hex_string-append, decode_hex, trim_space}
use gsm2mqtt.Pdu.Types.{Encoding, gsm7, ucs2, DecodedSms, Result, ok, ◌>>=◌, invalid_hex}
use gsm2mqtt.Pdu.Septets.{IsByte, pack_septets}
use gsm2mqtt.Pdu.Septets.Pack.{pack_septets-value}
use gsm2mqtt.Pdu.Alphabet.{is_gsm7, encode_gsm7}
use gsm2mqtt.Pdu.Ucs2.{encode_ucs2}
use gsm2mqtt.Pdu.Ucs2.RoundTrip.{IsScalar, encode_ucs2-IsByte}
use gsm2mqtt.Pdu.Address.{encode_address, digits_in}
use gsm2mqtt.Pdu.Address.RoundTrip.{length-bcd}
use gsm2mqtt.Pdu.Decode.{parse_udh, parse_plain_ud, or_err}
use gsm2mqtt.Pdu.Decode.UserData.{
  parse_plain_ud-gsm7, parse_plain_ud-ucs2, parse_udh-gsm7, parse_udh-ucs2, part_read,
}
use gsm2mqtt.Pdu.Encode.{build_pdu, encode_single, encode_part, with_srr, part_udh}
use gsm2mqtt.Pdu.Encode.Frame.{tpdu, build_pdu_lem}

-- The fields of an SMS-SUBMIT unit by their places in 3GPP TS 23.040, section 9.2.2.2, behind the
-- octet for the service centre; its user data is read as the decoder reads that of a delivery.
read_submit : DecodedSms → List ℕ → Result DecodedSms
read_submit res (sca ∷ first_octet ∷ mr ∷ digit_count ∷ toa ∷ rest) =
    let n = (digit_count + 1) / 2 in
    let enc = if get_or rest (n + 1) 0 == 0x08 then ucs2 else gsm7 in
    let udl = get_or rest (n + 3) 0 in
    let ud = drop (n + 4) rest in
    if bit_and first_octet 0x40 == 0
    then parse_plain_ud ud udl enc res
    else parse_udh ud 0 udl enc res
read_submit res _ = ok res

-- A unit as it is sent, read.
pub read_hex : DecodedSms → List ℕ → Result DecodedSms
unfolding read_submit
read_hex res hex = or_err (decode_hex hex) invalid_hex >>= read_submit res

first_bits : (srr : Bool) → (with_srr 0x11 srr < 256) × (bit_and (with_srr 0x11 srr) 0x40 ≡ 0)
first_bits true = (omega arith, refl)
first_bits false = (omega arith, refl)

first_bits_udh :
    (srr : Bool)
    → (with_srr (bit_or 0x11 0x40) srr < 256)
      × (bit_and (with_srr (bit_or 0x11 0x40) srr) 0x40 ≡ 0x40)
first_bits_udh true = (omega arith, refl)
first_bits_udh false = (omega arith, refl)

module _ (res : DecodedSms) (recipient : List ℕ)
    (fits : length (digits_in (trim_space recipient)) < 256) where
  read_tpdu :
      (first_octet dcs udl : ℕ) (ud : List ℕ)
      → read_submit res (0x00 ∷ tpdu recipient first_octet dcs udl ud) ≡ (
          if bit_and first_octet 0x40 == 0
          then parse_plain_ud ud udl (if dcs == 0x08 then ucs2 else gsm7) res
          else parse_udh ud 0 udl (if dcs == 0x08 then ucs2 else gsm7) res)
  unfolding read_submit
  read_tpdu first_octet dcs udl ud =
      let bcd : List ℕ = (encode_address recipient).bcd in
      let tail : List ℕ = 0x00 ∷ dcs ∷ 0xAA ∷ udl ∷ ud in
      rw (
        ← length-bcd recipient fits,
        get_or-append 0 bcd tail 1,
        get_or-append 0 bcd tail 3,
        drop-append bcd tail 4,
      )

  -- A unit that buildPDU wrote, read.
  read_built :
      (first_octet dcs udl : ℕ) (ud : List ℕ) (has_udh : Bool) (enc : Encoding) (part total : ℕ)
      → first_octet < 256
      → dcs < 256
      → udl < 256
      → All IsByte ud
      → read_hex res
          (build_pdu recipient first_octet dcs udl (hex_string ud) has_udh enc part total).hex
        ≡ read_submit res (0x00 ∷ tpdu recipient first_octet dcs udl ud)
  unfolding read_hex
  read_built first_octet dcs udl ud has_udh enc part total hf hd hu h =
      ap (λ (o : Option (List ℕ)). or_err o invalid_hex >>= read_submit res)
        (build_pdu_lem recipient first_octet dcs udl ud has_udh enc part total hf hd hu h).0

  -- A GSM 7-bit text of at most 255 septets in a single unit.
  pub read_single-gsm7 :
      (text : List ℕ) (srr : Bool)
      → is_gsm7 text ≡ true
      → 0 < length (encode_gsm7 text)
      → length (encode_gsm7 text) < 256
      → read_hex res (encode_single recipient text gsm7 srr).hex ≡ ok (record res { text = text })
  unfolding encode_single
  read_single-gsm7 text srr h k l =
      let n : ℕ = length (encode_gsm7 text) in
      let same : n % 256 ≡ n = omega arith in
      let ud : List ℕ = pack_septets (encode_gsm7 text) 0 in
      read_built (with_srr 0x11 srr) 0 (n % 256) ud false gsm7 1 1 (first_bits srr).0 (omega arith)
        (omega arith) (pack_septets-value (encode_gsm7 text) 0).1
      ∙ read_tpdu (with_srr 0x11 srr) 0 (n % 256) ud
      ∙ rw ((first_bits srr).1, same) (parse_plain_ud-gsm7 res text h k)

  -- A UCS-2 text of at most 255 octets in a single unit.
  pub read_single-ucs2 :
      (text : List ℕ) (srr : Bool)
      → All IsScalar text
      → 0 < length (encode_ucs2 text)
      → length (encode_ucs2 text) < 256
      → read_hex res (encode_single recipient text ucs2 srr).hex ≡ ok (record res { text = text })
  unfolding encode_single
  read_single-ucs2 text srr h k l =
      let ud : List ℕ = encode_ucs2 text in
      let n : ℕ = length ud in
      read_built (with_srr 0x11 srr) 8 (n % 256) ud false ucs2 1 1 (first_bits srr).0 (omega arith)
        (omega arith) (encode_ucs2-IsByte text)
      ∙ read_tpdu (with_srr 0x11 srr) 8 (n % 256) ud
      ∙ rw (first_bits srr).1 (parse_plain_ud-ucs2 res text (n % 256) h k)

  module _ (ref part total : ℕ) (ref_byte : ref < 256) (part_byte : part < 256)
      (total_byte : total < 256) where
    same_numbers : (total % 256 ≡ total) × (part % 256 ≡ part)
    same_numbers = (omega arith, omega arith)

    udh-IsByte : (ud : List ℕ) → All IsByte ud → All IsByte (part_udh ref total part ++ ud)
    udh-IsByte ud h =
        (omega arith, (omega arith, (omega arith, (ref_byte, (omega arith, (omega arith, h))))))

    -- A part of a multipart GSM 7-bit text, of at most 248 septets.
    pub read_part-gsm7 :
        (text : List ℕ) (srr : Bool)
        → is_gsm7 text ≡ true
        → 0 < length (encode_gsm7 text)
        → 7 + length (encode_gsm7 text) < 256
        → read_hex res (encode_part recipient text gsm7 srr ref part total).hex
          ≡ ok (part_read res text ref total part)
    unfolding encode_part
    read_part-gsm7 text srr h k l =
        let first : ℕ = with_srr (bit_or 0x11 0x40) srr in
        let n : ℕ = 7 + length (encode_gsm7 text) in
        let same : n % 256 ≡ n = omega arith in
        let packed : List ℕ = pack_septets (encode_gsm7 text) 1 in
        let ud : List ℕ = part_udh ref total part ++ packed in
        ap
          (λ (t : List ℕ).
            read_hex res (build_pdu recipient first 0 (n % 256) t true gsm7 part total).hex)
          (sym (hex_string-append (part_udh ref total part) packed))
        ∙ read_built first 0 (n % 256) ud true gsm7 part total (first_bits_udh srr).0 (omega arith)
            (omega arith) (udh-IsByte packed (pack_septets-value (encode_gsm7 text) 1).1)
        ∙ read_tpdu first 0 (n % 256) ud
        ∙ rw ((first_bits_udh srr).1, same_numbers.0, same_numbers.1, same)
            (parse_udh-gsm7 res text ref total part h k)

    -- A part of a multipart UCS-2 text, of at most 249 octets.
    pub read_part-ucs2 :
        (text : List ℕ) (srr : Bool)
        → All IsScalar text
        → 6 + length (encode_ucs2 text) < 256
        → read_hex res (encode_part recipient text ucs2 srr ref part total).hex
          ≡ ok (part_read res text ref total part)
    unfolding encode_part
    read_part-ucs2 text srr h l =
        let first : ℕ = with_srr (bit_or 0x11 0x40) srr in
        let body : List ℕ = encode_ucs2 text in
        let n : ℕ = 6 + length body in
        let ud : List ℕ = part_udh ref total part ++ body in
        ap
          (λ (t : List ℕ).
            read_hex res (build_pdu recipient first 8 (n % 256) t true ucs2 part total).hex)
          (sym (hex_string-append (part_udh ref total part) body))
        ∙ read_built first 8 (n % 256) ud true ucs2 part total (first_bits_udh srr).0 (omega arith)
            (omega arith) (udh-IsByte body (encode_ucs2-IsByte text))
        ∙ read_tpdu first 8 (n % 256) ud
        ∙ rw ((first_bits_udh srr).1, same_numbers.0, same_numbers.1)
            (parse_udh-ucs2 res text ref total part (n % 256) h)
