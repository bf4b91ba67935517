-- ===== src/Pdu/Encode/Runs.antt =====
-- Messages encoded, and the theorems at concrete inputs.
use gsm2mqtt.Base.{
  ℕ, ◌%◌, List, ◌≡◌, refl, [], ◌∷◌, arith, true, false, length, All, replicate, concat, some,
}
use gsm2mqtt.Base.Text.{codes, decode_hex, trim_space, trim_left, trim_right}
use gsm2mqtt.Pdu.Address.{digits_in}
use gsm2mqtt.Pdu.Alphabet.{
  is_gsm7, encode_gsm7, rune_septets, rune_to_gsm7_basic, rune_to_gsm7_ext, basic_index, ext_code,
}
use gsm2mqtt.Pdu.Septets.{pack_septets}
use gsm2mqtt.Pdu.Encode.Frame.{tpdu}
use gsm2mqtt.Base.Int.{pos}
use gsm2mqtt.Pdu.Types.{DecodedSms, Pdu, gsm7, ucs2, ok}
use gsm2mqtt.Pdu.Encode.{split_chunks, split_units, split_plain, encode_sms, next_ref_number}
use gsm2mqtt.Pdu.Encode.Chunks.{split_chunks_lem, Fits}
use gsm2mqtt.Pdu.Encode.Parts.{Delivers}
use gsm2mqtt.Pdu.Encode.Delivery.{
  encode_sms-Delivers-ucs2, encode_sms-Delivers-gsm7, encode_sms_counts_characters,
}

abbrev empty_sms : DecodedSms
empty_sms = record {
  from = [];
  text = [];
  timestamp = record {
    year = 2024;
    month = 1;
    day = 1;
    hour = 0;
    minute = 0;
    second = 0;
    offset = pos 0;
  };
  encoding = gsm7;
  has_udh = false;
  reference = 0;
  part_number = 0;
  total_parts = 0;
}

split_emoji :
    split_chunks (0x1F600 ∷ 0x41 ∷ 0x1F601 ∷ []) ucs2 3
    ≡ (0x1F600 ∷ 0x41 ∷ []) ∷ (0x1F601 ∷ []) ∷ []
unfolding split_chunks split_units
split_emoji = refl

wrapped_ref : next_ref_number 255 ≡ 1
unfolding next_ref_number
wrapped_ref = refl

split_chunks_lem_example :
    (concat (split_chunks (codes "hello") gsm7 2) ≡ codes "hello")
    × All (Fits gsm7 2) (split_chunks (codes "hello") gsm7 2)
split_chunks_lem_example = split_chunks_lem (codes "hello") gsm7 2 (omega arith)

abbrev number : List ℕ
number = codes "+79991234567"

abbrev cyrillic : List ℕ
cyrillic = replicate 71 0x416

encode_sms-Delivers-ucs2_example :
    (pdus : List Pdu) × ((encode_sms 1 number cyrillic ucs2 true).0 ≡ ok pdus)
    × Delivers empty_sms (next_ref_number 1) cyrillic pdus
unfolding trim_space trim_left trim_right digits_in split_chunks split_units
encode_sms-Delivers-ucs2_example =
    encode_sms-Delivers-ucs2 empty_sms 1 number cyrillic true refl (omega arith) refl (omega arith)
      (omega arith)

encode_sms-Delivers-gsm7_example :
    (pdus : List Pdu) × ((encode_sms 1 number (codes "ok") gsm7 true).0 ≡ ok pdus)
    × Delivers empty_sms (next_ref_number 1) (codes "ok") pdus
unfolding trim_space trim_left trim_right digits_in split_chunks split_plain is_gsm7
    rune_to_gsm7_basic rune_septets basic_index
encode_sms-Delivers-gsm7_example =
    encode_sms-Delivers-gsm7 empty_sms 1 number (codes "ok") true refl (omega arith) refl
      ((refl, refl), ((refl, refl), tt)) (omega arith)

-- 160 euro signs are 320 septets, and the length octet says 64.
abbrev euros : List ℕ
euros = replicate 160 0x20AC

encode_sms_counts_characters_example :
    (p : Pdu) × ((encode_sms 1 number euros gsm7 false).0 ≡ ok (p ∷ []))
    × (decode_hex p.hex
        ≡ some (
            0x00
            ∷ tpdu number 0x11 0x00
                (length (encode_gsm7 euros) % 256)
                (pack_septets (encode_gsm7 euros) 0)))
unfolding trim_space trim_left trim_right
encode_sms_counts_characters_example =
    encode_sms_counts_characters 1 number euros false refl refl (omega arith)

length-euros : length (encode_gsm7 euros) % 256 ≡ 64
unfolding encode_gsm7 rune_septets rune_to_gsm7_basic basic_index rune_to_gsm7_ext ext_code
length-euros = refl
