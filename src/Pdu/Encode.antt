-- ===== src/Pdu/Encode.antt =====
-- internal/sms/pdu/encoder.go: a text as one or more SMS-SUBMIT units.
pub mod Chunks
pub mod Frame
pub mod Message
pub mod Reading
pub mod Parts
pub mod Delivery
mod Runs
use gsm2mqtt.Base.{
  ℕ, zero, suc, ◌+◌, ◌-◌, ◌*◌, ◌/◌, ◌%◌, bit_or, Bool, true, false, List, [], ◌∷◌, ◌++◌, ltb, leb,
  ◌==◌, if◌then◌else◌, length, take, drop,
}
use gsm2mqtt.Base.Text.{trim_space, hex_string, is_empty, codes}
use gsm2mqtt.Pdu.Types.{
  Encoding, auto, gsm7, ucs2, binary, unset, is_ucs2, is_gsm7_encoding, is_auto, Pdu, Error,
  empty_recipient, empty_text, Result, ok, err,
}
use gsm2mqtt.Pdu.Alphabet.{is_gsm7, encode_gsm7}
use gsm2mqtt.Pdu.Septets.{pack_septets}
use gsm2mqtt.Pdu.Ucs2.{encode_ucs2}
use gsm2mqtt.Pdu.Address.{format_address_hex}

-- The package's counter, stepped; 0 is left out.
pub next_ref_number : ℕ → ℕ
next_ref_number ref_counter = let next = (ref_counter + 1) % 256 in if next == 0 then 1 else next

-- UTF-16 code units of a rune.
abbrev pub rune_units : ℕ → ℕ
rune_units r = if ltb 0xFFFF r then 2 else 1

unfoldable pub count_units : List ℕ → ℕ
count_units [] = 0
count_units (r ∷ runes) = rune_units r + count_units runes

-- The loop of splitChunks for other encodings than UCS-2: each round takes at least one rune.
pub split_plain : ℕ → List ℕ → ℕ → List (List ℕ)
split_plain zero runes max_units = []
split_plain (suc fuel) [] max_units = []
split_plain (suc fuel) (r ∷ runes) max_units =
    let size = if ltb (length (r ∷ runes)) max_units then length (r ∷ runes) else max_units in
    take size (r ∷ runes) ∷ split_plain fuel (drop size (r ∷ runes)) max_units

-- The loop for UCS-2: `current` is the chunk at hand, of `current_units` code units.
pub split_units : List ℕ → List ℕ → ℕ → ℕ → List (List ℕ)
split_units [] current current_units max_units = if is_empty current then [] else current ∷ []
split_units (r ∷ runes) current current_units max_units =
    let units = rune_units r in
    let cut = current ∷ split_units runes (r ∷ []) units max_units in
    let grown = split_units runes (current ++ r ∷ []) (current_units + units) max_units in
    if ltb max_units (current_units + units) then cut else grown

pub split_chunks : List ℕ → Encoding → ℕ → List (List ℕ)
split_chunks runes enc max_units =
    if is_ucs2 enc
    then split_units runes [] 0 max_units
    else split_plain (length runes) runes max_units

pub build_pdu : List ℕ → ℕ → ℕ → ℕ → List ℕ → Bool → Encoding → ℕ → ℕ → Pdu
build_pdu recipient first_octet dcs udl ud_hex has_udh enc part_num total_parts =
    let tpdu_hex =
      hex_string (first_octet ∷ [])
      ++ (codes "00"
          ++ (format_address_hex recipient
              ++ (codes "00"
                  ++ (hex_string (dcs ∷ [])
                      ++ (codes "AA" ++ (hex_string (udl ∷ []) ++ ud_hex)))))) in
    record {
      command_length = length tpdu_hex / 2;
      hex = codes "00" ++ tpdu_hex;
      has_udh = has_udh;
      encoding = enc;
      part_number = part_num;
      total_parts = total_parts;
    }

abbrev pub with_srr : ℕ → Bool → ℕ
with_srr first_octet srr = if srr then bit_or first_octet 0x20 else first_octet

pub encode_single : List ℕ → List ℕ → Encoding → Bool → Pdu
encode_single recipient runes enc srr =
    let first_octet = with_srr 0x11 srr in
    if is_gsm7_encoding enc
    then build_pdu recipient first_octet 0x00 (length (encode_gsm7 runes) % 256)
        (hex_string (pack_septets (encode_gsm7 runes) 0)) false enc 1 1
    else build_pdu recipient first_octet 0x08 (length (encode_ucs2 runes) % 256)
        (hex_string (encode_ucs2 runes)) false enc 1 1

abbrev pub part_udh : ℕ → ℕ → ℕ → List ℕ
part_udh ref total_parts part_num =
    0x05 ∷ 0x00 ∷ 0x03 ∷ ref ∷ (total_parts % 256) ∷ (part_num % 256) ∷ []

pub encode_part : List ℕ → List ℕ → Encoding → Bool → ℕ → ℕ → ℕ → Pdu
encode_part recipient runes enc srr ref part_num total_parts =
    let first_octet = with_srr (bit_or 0x11 0x40) srr in
    let udh = part_udh ref total_parts part_num in
    if is_gsm7_encoding enc
    then build_pdu recipient first_octet 0x00 ((7 + length (encode_gsm7 runes)) % 256)
        (hex_string udh ++ hex_string (pack_septets (encode_gsm7 runes) 1)) true enc part_num
        total_parts
    else build_pdu recipient first_octet 0x08 ((length udh + length (encode_ucs2 runes)) % 256)
        (hex_string udh ++ hex_string (encode_ucs2 runes)) true enc part_num total_parts

-- The loop over the chunks, from the part numbered `part_num`.
pub encode_parts : List ℕ → List (List ℕ) → Encoding → Bool → ℕ → ℕ → ℕ → List Pdu
encode_parts recipient [] enc srr ref part_num total_parts = []
encode_parts recipient (chunk ∷ chunks) enc srr ref part_num total_parts =
    encode_part recipient chunk enc srr ref part_num total_parts
    ∷ encode_parts recipient chunks enc srr ref (part_num + 1) total_parts

abbrev pub select_encoding : Encoding → List ℕ → Encoding
select_encoding enc text = if is_auto enc then (if is_gsm7 text then gsm7 else ucs2) else enc

abbrev pub max_single : Encoding → ℕ
max_single enc = if is_gsm7_encoding enc then 160 else 70

abbrev pub max_multipart : Encoding → ℕ
max_multipart enc = if is_gsm7_encoding enc then 153 else 67

abbrev pub total_units : Encoding → List ℕ → ℕ
total_units enc runes = if is_ucs2 enc then count_units runes else length runes

-- EncodeSMS behind its two checks, with the encoding selected; the counter is stepped for a
-- multipart message only.
unfoldable pub encode_selected : ℕ → List ℕ → List ℕ → Encoding → Bool → List Pdu × ℕ
encode_selected ref_counter recipient runes enc srr =
    let ref = next_ref_number ref_counter in
    let chunks = split_chunks runes enc (max_multipart enc) in
    if leb (total_units enc runes) (max_single enc)
    then (encode_single recipient runes enc srr ∷ [], ref_counter)
    else (encode_parts recipient chunks enc srr ref 1 (length chunks), ref)

unfoldable pub encode_sms : ℕ → List ℕ → List ℕ → Encoding → Bool → Result (List Pdu) × ℕ
unfolding trim_space
encode_sms ref_counter recipient text enc srr =
    if is_empty (trim_space recipient)
    then (err empty_recipient, ref_counter)
    else (if is_empty text
        then (err empty_text, ref_counter)
        else (let (pdus, ref') =
              encode_selected ref_counter recipient text (select_encoding enc text) srr in
            (ok pdus, ref')))
