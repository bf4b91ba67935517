-- ===== src/Services/Sms/Runs.antt =====
-- internal/services/sms.go, sms_urc.go: runs at concrete inputs.
use gsm2mqtt.Base.{
  ℕ, ◌+◌, true, false, Option, none, some, List, [], ◌∷◌, ◌≡◌, ◌⊎◌, refl, inr, Memᴰ,
}
use gsm2mqtt.Base.Text.{codes, has_prefix, trim_space, trim_left, trim_right}
use gsm2mqtt.Security.Unicode.{ascii}
use gsm2mqtt.Pdu.Types.{Pdu, StatusReport}
use gsm2mqtt.Pdu.Types.{Timestamp}
use gsm2mqtt.Base.Int.{pos}
use gsm2mqtt.Sms.Validator.{
  normalize_phone_number, format_digits, format_scanned, scan, validate_message_text, check_runes,
}
use gsm2mqtt.Pdu.Encode.{encode_sms, encode_selected, count_units}
use gsm2mqtt.Pdu.Alphabet.{is_gsm7, rune_to_gsm7_basic, rune_to_gsm7_ext, basic_index, ext_code}
use gsm2mqtt.Sms.Tracker.{Tracker, new_tracker, handle_report, canonical_recipient, delivered}
use gsm2mqtt.Services.Sms.{
  SendSmsRequest, SmsService, new_sms_service, dispatch_parts, dispatch_pdus, send_encoded,
  send_text, send_number, send_limited, send,
}
use gsm2mqtt.Services.Sms.Sending.{Reason, Untouched, Cleared, send_lem}
use gsm2mqtt.Services.Sms.Dispatch.{Handed}
use gsm2mqtt.Services.Sms.Tracking.{handle_report-send}
use gsm2mqtt.Services.Sms.Urc.{
  decode_and_dispatch_pdu, decode_and_dispatch_report, is_hex_pdu, extract_last_hex_token,
  handle_urc,
}
use gsm2mqtt.Services.Sms.Urc.Lines.{handle_urc-handle_urc}

abbrev request : SendSmsRequest
request = record {
  to = codes "+7 900 123-45-67";
  text = codes "Hi";
  message = [];
  delivery_report = true;
}

abbrev service : SmsService
service =
    new_sms_service
      (record {
        modem_id = codes "m1";
        transliterates = false;
        delivery_report = false;
        default_prefix = [];
      })
      none none (some new_tracker) none true

abbrev modem : ℕ → Pdu → Option ℕ
modem i part = some (i + 7)

send_lem_example :
    let o = send modem ascii 5 0 request service in
    Untouched (Reason ascii 5 0 request service) service o
    ⊎ ((pdus : List Pdu) × Cleared ascii 5 0 request service pdus
        × Handed modem pdus o.result o.handed)
send_lem_example = send_lem modem ascii 5 0 request service

sent : (send modem ascii 5 0 request service).result ≡ inr (7 ∷ [])
unfolding send send_limited send_number send_text send_encoded dispatch_pdus dispatch_parts
    new_sms_service normalize_phone_number format_digits format_scanned scan validate_message_text
    check_runes encode_sms encode_selected count_units is_gsm7 rune_to_gsm7_basic rune_to_gsm7_ext
    basic_index ext_code trim_space trim_left trim_right
sent = refl

abbrev clock : Timestamp
clock = record { year = 2024; month = 1; day = 1; hour = 0; minute = 0; second = 0; offset = pos 0 }

-- The report of the part that has reference 7, with the number as the network writes it.
abbrev delivery_report : StatusReport
delivery_report = record {
  message_ref = 7;
  recipient = codes "89001234567";
  sc_timestamp = clock;
  discharge = clock;
  status_code = 0;
  delivered = true;
  temporary = false;
  permanent = false;
}

handle_report-send_example :
    (u : Tracker) × ((send modem ascii 5 0 request service).service.tracker ≡ some u)
    × ((handle_report delivery_report u).0
        ≡ record {
          message_ref = 7;
          to = codes "+79001234567";
          status = delivered;
          modem_id = codes "m1";
        }
          ∷ [])
unfolding normalize_phone_number format_digits format_scanned scan trim_space trim_left trim_right
    canonical_recipient new_sms_service
handle_report-send_example =
    handle_report-send modem ascii 5 0 request service new_tracker (codes "+79001234567") (7 ∷ []) 7
      delivery_report refl refl refl sent (Memᴰ.head refl) refl

handle_urc-handle_urc_example :
    let first = handle_urc (λ t. 0) 5 clock (codes "+CMT: ,23") service in
    let second = handle_urc (λ t. 0) 5 clock (codes "07919730071111F1") first.1 in
    let quiet = record service { expecting_cmt = false; expecting_cds = false } in
    (has_prefix (trim_space (codes "+CMT: ,23")) (codes "+CMT:") ≡ true
      → (first.0 ≡ [])
        × (second
            ≡ decode_and_dispatch_pdu
                (λ t. 0)
                5
                clock
                (trim_space (codes "07919730071111F1"))
                quiet))
    × (has_prefix (trim_space (codes "+CMT: ,23")) (codes "+CDS:") ≡ true
        → (service).expecting_cmt ≡ false
        → (first.0 ≡ [])
          × (second
              ≡ decode_and_dispatch_report clock (trim_space (codes "07919730071111F1")) quiet))
unfolding is_hex_pdu extract_last_hex_token trim_space trim_left trim_right
handle_urc-handle_urc_example =
    handle_urc-handle_urc (λ t. 0) 5 clock (codes "+CMT: ,23") (codes "07919730071111F1") service
      refl refl
