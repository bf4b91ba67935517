-- ===== src/Pdu/Encode/Delivery.antt =====
-- EncodeSMS as a whole.
use gsm2mqtt.Base.{
  ℕ, ◌%◌, ◌≤◌, ◌<◌, Bool, true, false, List, [], ◌∷◌, length, ◌≡◌, arith, All, some, le→leb,
}
use gsm2mqtt.Base.Text.{trim_space, is_empty, decode_hex}
use gsm2mqtt.Pdu.Types.{gsm7, ucs2, DecodedSms, Pdu, ok}
use gsm2mqtt.Pdu.Alphabet.{encode_gsm7}
use gsm2mqtt.Pdu.Alphabet.RoundTrip.{IsBasic}
use gsm2mqtt.Pdu.Ucs2.RoundTrip.{IsScalar}
use gsm2mqtt.Pdu.Address.{digits_in}
use gsm2mqtt.Pdu.Septets.{pack_septets}
use gsm2mqtt.Pdu.Septets.Pack.{pack_septets-value}
use gsm2mqtt.Pdu.Encode.{
  split_chunks, encode_single, encode_selected, encode_sms, with_srr, next_ref_number,
}
use gsm2mqtt.Pdu.Encode.Frame.{tpdu, build_pdu_lem}
use gsm2mqtt.Pdu.Encode.Parts.{Delivers, selected-ucs2, selected-gsm7}

module _ (res : DecodedSms) (ref_counter : ℕ) (recipient text : List ℕ) (srr : Bool)
    (given : is_empty (trim_space recipient) ≡ false)
    (fits : length (digits_in (trim_space recipient)) < 256) (filled : is_empty text ≡ false) where
  -- For a recipient that is not blank, of fewer than 256 digits, and a text of Unicode scalar values
  -- that is not empty and splits into fewer than 256 parts, EncodeSMS as UCS-2 succeeds. A
  -- receiver reads the text from a single unit without a header, or from two or more whose texts, in
  -- their order, make up the text: each has the message's reference and their total, and they are
  -- numbered from 1 on.
  pub encode_sms-Delivers-ucs2 :
      All IsScalar text
      → length (split_chunks text ucs2 67) < 256
      → (pdus : List Pdu) × ((encode_sms ref_counter recipient text ucs2 srr).0 ≡ ok pdus)
        × Delivers res (next_ref_number ref_counter) text pdus
  unfolding encode_sms
  encode_sms-Delivers-ucs2 h few = (
    (encode_selected ref_counter recipient text ucs2 srr).0,
    rw (given, filled),
    selected-ucs2 res recipient fits ref_counter text srr filled h few,
  )

  -- For a recipient that is not blank, of fewer than 256 digits, and a text of characters of the
  -- basic GSM 7-bit table that is not empty and splits into fewer than 256 parts, EncodeSMS as GSM
  -- 7-bit succeeds. A receiver reads the text from a single unit without a header, or from two or
  -- more whose texts, in their order, make up the text: each has the message's reference and their
  -- total, and they are numbered from 1 on.
  pub encode_sms-Delivers-gsm7 :
      All IsBasic text
      → length (split_chunks text gsm7 153) < 256
      → (pdus : List Pdu) × ((encode_sms ref_counter recipient text gsm7 srr).0 ≡ ok pdus)
        × Delivers res (next_ref_number ref_counter) text pdus
  unfolding encode_sms
  encode_sms-Delivers-gsm7 h few = (
    (encode_selected ref_counter recipient text gsm7 srr).0,
    rw (given, filled),
    selected-gsm7 res recipient fits ref_counter text srr filled h few,
  )

srr_byte : (srr : Bool) → with_srr 0x11 srr < 256
srr_byte true = omega arith
srr_byte false = omega arith

-- For a recipient that is not blank, a text of 1 to 160 characters sent as GSM 7-bit goes out as a
-- single unit however many septets it has: the unit holds all its packed septets, and its length
-- octet is the number of septets modulo 256.
pub encode_sms_counts_characters :
    (ref_counter : ℕ) (recipient text : List ℕ) (srr : Bool)
    → is_empty (trim_space recipient) ≡ false
    → is_empty text ≡ false
    → length text ≤ 160
    → (p : Pdu) × ((encode_sms ref_counter recipient text gsm7 srr).0 ≡ ok (p ∷ []))
      × (decode_hex p.hex
          ≡ some (
              0x00
              ∷ tpdu recipient
                  (with_srr 0x11 srr)
                  0x00
                  (length (encode_gsm7 text) % 256)
                  (pack_septets (encode_gsm7 text) 0)))
unfolding encode_sms encode_selected encode_single
encode_sms_counts_characters ref_counter recipient text srr given filled short =
    let n : ℕ = length (encode_gsm7 text) in
    let ud : List ℕ = pack_septets (encode_gsm7 text) 0 in
    (
      encode_single recipient text gsm7 srr,
      rw (given, filled, le→leb (length text) 160 short),
      (build_pdu_lem recipient (with_srr 0x11 srr) 0 (n % 256) ud false gsm7 1 1 (srr_byte srr)
          (omega arith) (omega arith) (pack_septets-value (encode_gsm7 text) 0).1).0,
    )
