-- ===== src/Services/Sms/Urc.antt =====
-- internal/services/sms_urc.go: what the modem reports of messages. The instant that Go's time.Date makes of
-- the fields of a timestamp is a parameter. A synchronisation with the modem's storages, which the source starts in the
-- background, is an effect.
pub mod Lines
use gsm2mqtt.Base.{
  ℕ, ◌+◌, Bool, true, false, not, ◌&&◌, ◌||◌, Option, none, some, List, [], ◌∷◌, ◌++◌, ltb, leb,
  ◌==◌, if◌then◌else◌, length, text_eq, map,
}
use gsm2mqtt.Base.Text.{codes, is_empty, is_space, has_prefix, trim_space, trim_prefix, split_on}
use gsm2mqtt.Pdu.Types.{Timestamp}
use gsm2mqtt.Pdu.Types.{
  Encoding, auto, gsm7, ucs2, binary, unset, DecodedSms, StatusReport, Result, ok, err,
}
use gsm2mqtt.Pdu.Decode.{decode_sms, decode_status_report}
use gsm2mqtt.Sms.Tracker.{Tracker, DeliveryEvent, handle_report}
use gsm2mqtt.Sms.Assembler.{Assembler, AssembledSms, IncomingPart, add_part}
use gsm2mqtt.Services.Call.Urc.{trim_quotes}
use gsm2mqtt.Services.Sms.{SmsService}

pub data SmsEffect : Type 0 where
  sync_stored : List (List ℕ) → SmsEffect
  received : AssembledSms → SmsEffect
  reported : DeliveryEvent → SmsEffect

-- The loop of isHexPDU.
abbrev pub is_hex_char : ℕ → Bool
is_hex_char r =
    (leb b'0' r && leb r b'9') || (leb b'A' r && leb r b'F') || (leb b'a' r && leb r b'f')

abbrev pub all_hex : List ℕ → Bool
all_hex [] = true
all_hex (r ∷ s) = is_hex_char r && all_hex s

unfoldable pub is_hex_pdu : List ℕ → Bool
is_hex_pdu s = if ltb (length s) 10 then false else all_hex s

-- strings.Fields, with the characters of the field that is being read.
abbrev pub fields_from : List ℕ → List ℕ → List (List ℕ)
fields_from field [] = if is_empty field then [] else field ∷ []
fields_from field (r ∷ s) = elim (is_space r) [
  | true ↦ if is_empty field then fields_from [] s else field ∷ fields_from [] s
  | false ↦ fields_from (field ++ r ∷ []) s
]

abbrev pub last_of : List (List ℕ) → List ℕ
last_of [] = []
last_of (part ∷ []) = part
last_of (part ∷ next ∷ parts) = last_of (next ∷ parts)

unfoldable pub extract_last_hex_token : List ℕ → List ℕ
extract_last_hex_token s = last_of (fields_from [] s)

abbrev pub first_storage : List (List ℕ) → List ℕ
first_storage [] = codes "SM"
first_storage (part ∷ parts) =
    let mem = trim_quotes (trim_space part) in if is_empty mem then codes "SM" else mem

pub parse_cmti_storage : List ℕ → List ℕ
parse_cmti_storage urc =
    first_storage (split_on b',' (trim_space (trim_prefix urc (codes "+CMTI:"))))

pub handle_cmti_urc : List ℕ → SmsService → List SmsEffect × SmsService
handle_cmti_urc urc s =
    let mem = parse_cmti_storage urc in
    (
      sync_stored (
            if text_eq mem (codes "MT") || is_empty mem
            then codes "SM" ∷ codes "ME" ∷ []
            else mem ∷ [])
          ∷ [],
      s,
    )

abbrev pub encoding_name : Encoding → List ℕ
encoding_name auto = codes "auto"
encoding_name gsm7 = codes "gsm7"
encoding_name ucs2 = codes "ucs2"
encoding_name binary = codes "binary"
encoding_name unset = []

abbrev pub settle_report : Result StatusReport → Tracker → SmsService → List SmsEffect × SmsService
settle_report (err e) t s = ([], s)
settle_report (ok report) t s =
    let handled = handle_report report t in
    (map (λ (e : DeliveryEvent). reported e) handled.0, record s { tracker = some handled.1 })

pub decode_and_dispatch_report : Timestamp → List ℕ → SmsService → List SmsEffect × SmsService
decode_and_dispatch_report clock pdu_hex s = dispatch s.tracker
  where
    dispatch : Option Tracker → List SmsEffect × SmsService
    dispatch none = ([], s)
    dispatch (some t) = settle_report (decode_status_report clock pdu_hex) t s

pub handle_delivery_report_urc : Timestamp → List ℕ → SmsService → List SmsEffect × SmsService
handle_delivery_report_urc clock urc s =
    let pdu_hex = extract_last_hex_token urc in
    if not (is_empty pdu_hex) && is_hex_pdu pdu_hex
    then decode_and_dispatch_report clock pdu_hex s
    else ([], record s { expecting_cds = true })

module _ (instant : Timestamp → ℕ) where
  abbrev pub part_of : DecodedSms → IncomingPart
  part_of decoded = record {
    from = decoded.from;
    text = decoded.text;
    timestamp = instant decoded.timestamp;
    is_multipart = decoded.has_udh;
    reference = decoded.reference;
    part_number = decoded.part_number;
    total_parts = decoded.total_parts;
    encoding = encoding_name decoded.encoding;
  }

  -- The call of onReceived for a message that the assembler gives out.
  abbrev pub announce : Bool → Option AssembledSms → List SmsEffect
  announce on_received none = []
  announce on_received (some assembled) = if on_received then received assembled ∷ [] else []

  abbrev pub assemble : ℕ → Result DecodedSms → Assembler → SmsService → List SmsEffect × SmsService
  assemble now (err e) a s = ([], s)
  assemble now (ok decoded) a s =
      let added = add_part now (part_of decoded) a in
      (announce s.on_received added.0, record s { assembler = some added.1 })

  pub decode_and_dispatch_pdu : ℕ → Timestamp → List ℕ → SmsService → List SmsEffect × SmsService
  decode_and_dispatch_pdu now clock pdu_hex s = dispatch s.assembler
    where
      dispatch : Option Assembler → List SmsEffect × SmsService
      dispatch none = ([], s)
      dispatch (some a) = assemble now (decode_sms clock pdu_hex) a s

  pub handle_incoming_sms_urc : ℕ → Timestamp → List ℕ → SmsService → List SmsEffect × SmsService
  handle_incoming_sms_urc now clock urc s =
      let pdu_hex = extract_last_hex_token urc in
      if not (is_empty pdu_hex) && is_hex_pdu pdu_hex
      then decode_and_dispatch_pdu now clock pdu_hex s
      else ([], record s { expecting_cmt = true })

  pub handle_continued_urc : ℕ → Timestamp → List ℕ → SmsService → List SmsEffect × SmsService
  handle_continued_urc now clock trimmed s =
      let cleared = record s { expecting_cmt = false; expecting_cds = false } in
      if s.expecting_cmt && is_hex_pdu trimmed
      then decode_and_dispatch_pdu now clock trimmed cleared
      else (if s.expecting_cds && is_hex_pdu trimmed
          then decode_and_dispatch_report clock trimmed cleared
          else ([], cleared))

  pub handle_urc : ℕ → Timestamp → List ℕ → SmsService → List SmsEffect × SmsService
  handle_urc now clock urc s =
      let trimmed = trim_space urc in
      if has_prefix trimmed (codes "+CMTI:")
      then handle_cmti_urc trimmed s
      else (if has_prefix trimmed (codes "+CMT:")
          then handle_incoming_sms_urc now clock trimmed s
          else (if has_prefix trimmed (codes "+CDS:")
              then handle_delivery_report_urc clock trimmed s
              else handle_continued_urc now clock trimmed s))
