-- ===== src/Services/Sms.antt =====
-- internal/services/sms.go: what becomes of a message to send. The filter, the limiter, the tracker
-- and the assembler are those of internal/security and internal/sms, or absent. The modem is a
-- parameter: what SendPDU answers to each part, a reference or an error. The counter of internal/sms/pdu
-- for multipart references is passed and returned.
pub mod Urc
pub mod Dispatch
pub mod Sending
pub mod Tracking
pub mod Storage
mod Runs
use gsm2mqtt.Base.{
  ℕ, zero, suc, ◌+◌, Bool, true, false, not, ◌&&◌, ◌||◌, Option, none, some, List, [], ◌∷◌, ◌++◌,
  if◌then◌else◌, length, ◌⊎◌, inl, inr,
}
use gsm2mqtt.Base.Text.{codes, is_empty}
use gsm2mqtt.Security.Unicode.{Unicode}
use gsm2mqtt.Security.Filter
use gsm2mqtt.Security.RateLimit
use gsm2mqtt.Security.Errors
use gsm2mqtt.Pdu.Types
use gsm2mqtt.Pdu.Types.{Pdu, Result, ok, err, auto}
use gsm2mqtt.Pdu.Encode.{encode_sms}
use gsm2mqtt.Sms.Tracker.{Tracker, DeliveryEvent, track}
use gsm2mqtt.Sms.Assembler.{Assembler}
use gsm2mqtt.Sms.Validator
use gsm2mqtt.Sms.Validator.{
  Normalized, normalized, invalid, normalize_phone_number, validate_message_text,
}
use gsm2mqtt.Sms.Translit.{transliterate}

pub record SmsServiceConfig : Type 0 where
  pub modem_id : List ℕ
  pub transliterates : Bool
  pub delivery_report : Bool
  pub default_prefix : List ℕ

pub record SendSmsRequest : Type 0 where
  pub to : List ℕ
  pub text : List ℕ
  pub message : List ℕ
  pub delivery_report : Bool

pub get_text : SendSmsRequest → List ℕ
get_text r = if not (is_empty r.text) then r.text else r.message

pub record SmsService : Type 0 where
  pub cfg : SmsServiceConfig
  pub filter : Option Filter.Filter
  pub limiter : Option RateLimit.RateLimiter
  pub tracker : Option Tracker
  pub assembler : Option Assembler
  pub on_received : Bool
  pub expecting_cmt : Bool
  pub expecting_cds : Bool

pub new_sms_service :
    SmsServiceConfig
    → Option Filter.Filter
    → Option RateLimit.RateLimiter
    → Option Tracker
    → Option Assembler
    → Bool
    → SmsService
new_sms_service cfg filter limiter tracker assembler on_received = record {
  cfg = record cfg {
    default_prefix = if is_empty cfg.default_prefix then codes "+7" else cfg.default_prefix;
  };
  filter = filter;
  limiter = limiter;
  tracker = tracker;
  assembler = assembler;
  on_received = on_received;
  expecting_cmt = false;
  expecting_cds = false;
}

-- Why Send fails.
pub data SendError : Type 0 where
  blocked : Errors.Error → SendError
  limited : Errors.Error → SendError
  bad_number : Validator.Error → SendError
  bad_text : Validator.Error → SendError
  not_encoded : Types.Error → SendError
  part_not_sent : ℕ → ℕ → SendError

-- What Send returns and does: its error or the references, the parts handed to the modem, the events of
-- the tracker, and the state behind it.
pub record SendOutcome : Type 0 where
  pub result : SendError ⊎ List ℕ
  pub handed : List Pdu
  pub events : List DeliveryEvent
  pub ref_counter : ℕ
  pub service : SmsService

-- An error before anything is handed to the modem.
abbrev pub refused : SendError → ℕ → SmsService → SendOutcome
refused e ref_counter s = record {
  result = inl e;
  handed = [];
  events = [];
  ref_counter = ref_counter;
  service = s;
}

-- What the tracker does with a part that was sent.
abbrev pub track_part :
    Bool → ℕ → List ℕ → List ℕ → Option Tracker → List DeliveryEvent × Option Tracker
track_part request_report ref number modem_id none = ([], none)
track_part request_report ref number modem_id (some t) =
    if request_report
    then (let tracked = track ref number modem_id t in (tracked.0, some tracked.1))
    else ([], some t)

abbrev pub filter_error : Unicode → List ℕ → Option Filter.Filter → Option Errors.Error
filter_error unicode number none = none
filter_error unicode number (some f) = Filter.check unicode f number

abbrev pub limit_error :
    Unicode
    → ℕ
    → List ℕ
    → Option RateLimit.RateLimiter
    → Option Errors.Error × Option RateLimit.RateLimiter
limit_error unicode now number none = (none, none)
limit_error unicode now number (some r) =
    let checked = RateLimit.check unicode now number r in (checked.0, some checked.1)

module _ (send_pdu : ℕ → Pdu → Option ℕ) where
  -- The loop of dispatchPDUs from part `i` of `total` on, with the references of the parts before.
  pub dispatch_parts :
      ℕ
      → ℕ
      → List Pdu
      → List ℕ
      → Bool
      → List ℕ
      → List ℕ
      → Option Tracker
      → (SendError ⊎ List ℕ) × List Pdu × List DeliveryEvent × Option Tracker
  dispatch_parts i total [] number request_report modem_id refs t = (inr refs, [], [], t)
  dispatch_parts i total (part ∷ pdus) number request_report modem_id refs t =
      elim (send_pdu i part) [
        | none ↦ (inl (part_not_sent (i + 1) total), part ∷ [], [], t)
        | some ref ↦
            let tracked = track_part request_report ref number modem_id t in
            let rest =
              dispatch_parts (i + 1) total pdus number request_report modem_id (refs ++ ref ∷ [])
                tracked.1 in
            (rest.0, part ∷ rest.1, tracked.0 ++ rest.2, rest.3)
      ]

  pub dispatch_pdus : List Pdu → List ℕ → Bool → ℕ → SmsService → SendOutcome
  dispatch_pdus pdus number request_report ref_counter s =
      let r =
        dispatch_parts 0 (length pdus) pdus number request_report s.cfg.modem_id [] s.tracker in
      record {
        result = r.0;
        handed = r.1;
        events = r.2;
        ref_counter = ref_counter;
        service = record s { tracker = r.3 };
      }

  -- Send behind the encoder.
  pub send_encoded : Result (List Pdu) × ℕ → List ℕ → Bool → SmsService → SendOutcome
  send_encoded (err e, ref_counter) number request_report s = refused (not_encoded e) ref_counter s
  send_encoded (ok pdus, ref_counter) number request_report s =
      dispatch_pdus pdus number request_report ref_counter s

  -- Send behind the check of the text.
  pub send_text : ℕ → List ℕ → SendSmsRequest → SmsService → SendOutcome
  send_text ref_counter number req s =
      let text = if s.cfg.transliterates then transliterate req.text else req.text in
      let request_report = req.delivery_report || s.cfg.delivery_report in
      send_encoded (encode_sms ref_counter number text auto request_report) number request_report s

  -- Send behind the normalized number.
  pub send_number : Normalized → ℕ → SendSmsRequest → SmsService → SendOutcome
  send_number (invalid e) ref_counter req s = refused (bad_number e) ref_counter s
  send_number (normalized number) ref_counter req s = elim (validate_message_text req.text) [
    | some e ↦ refused (bad_text e) ref_counter s
    | none ↦ send_text ref_counter number req s
  ]

  -- Send behind the limiter.
  pub send_limited :
      Option Errors.Error × Option RateLimit.RateLimiter
      → ℕ
      → SendSmsRequest
      → SmsService
      → SendOutcome
  send_limited (some e, limiter) ref_counter req s =
      refused (limited e) ref_counter (record s { limiter = limiter })
  send_limited (none, limiter) ref_counter req s =
      send_number (normalize_phone_number req.to s.cfg.default_prefix) ref_counter req
        (record s { limiter = limiter })

  pub send : Unicode → ℕ → ℕ → SendSmsRequest → SmsService → SendOutcome
  send unicode now ref_counter req s = elim (filter_error unicode req.to s.filter) [
    | some e ↦ refused (blocked e) ref_counter s
    | none ↦ send_limited (limit_error unicode now req.to s.limiter) ref_counter req s
  ]
