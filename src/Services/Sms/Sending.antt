-- ===== src/Services/Sms/Sending.antt =====
-- internal/services/sms.go: Send either refuses before the modem is asked, or hands it the parts of the
-- message in their order, up to the first that fails.
use gsm2mqtt.Base.{
  ℕ, Bool, ◌||◌, Option, none, List, [], some, if◌then◌else◌, Option-cases, ◌≡◌, ◌⊎◌, refl, sym,
  subst, inl, inr,
}
use gsm2mqtt.Security.Unicode.{Unicode}
use gsm2mqtt.Security.Errors
use gsm2mqtt.Pdu.Types
use gsm2mqtt.Pdu.Types.{Pdu, Result, ok, err, auto}
use gsm2mqtt.Pdu.Encode.{encode_sms}
use gsm2mqtt.Sms.Translit.{transliterate}
use gsm2mqtt.Sms.Validator
use gsm2mqtt.Sms.Validator.{
  Normalized, normalized, invalid, normalize_phone_number, validate_message_text,
}
use gsm2mqtt.Services.Sms.{
  SendSmsRequest, SmsService, SendError, blocked, limited, bad_number, bad_text, not_encoded,
  SendOutcome, filter_error, limit_error, dispatch_pdus, send_encoded, send_text, send_number,
  send_limited, send,
}
use gsm2mqtt.Services.Sms.Dispatch.{Handed, dispatch_pdus-Handed}

-- What Send relies on before it hands a part to the modem, with the parts that it encoded.
pub record Cleared (unicode : Unicode) (now ref_counter : ℕ) (req : SendSmsRequest) (s : SmsService)
    (pdus : List Pdu) : Type 0 where
  pub number : List ℕ
  pub counter : ℕ
  pub not_filtered : filter_error unicode req.to s.filter ≡ none
  pub not_limited : (limit_error unicode now req.to s.limiter).0 ≡ none
  pub number_normalized : normalize_phone_number req.to s.cfg.default_prefix ≡ normalized number
  pub text_valid : validate_message_text req.text ≡ none
  pub encoded :
      encode_sms ref_counter number
        (if s.cfg.transliterates then transliterate req.text else req.text)
        auto
        (req.delivery_report || s.cfg.delivery_report)
      ≡ (ok pdus, counter)

-- Why Send refuses, each reason behind the ones before it.
pub data Reason (unicode : Unicode) (now ref_counter : ℕ) (req : SendSmsRequest) (s : SmsService)
    : SendError → Type 0 where
  filtered :
      {e : Errors.Error}
      → filter_error unicode req.to s.filter ≡ some e
      → Reason unicode now ref_counter req s (blocked e)
  over_limit :
      {e : Errors.Error}
      → filter_error unicode req.to s.filter ≡ none
      → (limit_error unicode now req.to s.limiter).0 ≡ some e
      → Reason unicode now ref_counter req s (limited e)
  not_a_number :
      {e : Validator.Error}
      → filter_error unicode req.to s.filter ≡ none
      → (limit_error unicode now req.to s.limiter).0 ≡ none
      → normalize_phone_number req.to s.cfg.default_prefix ≡ invalid e
      → Reason unicode now ref_counter req s (bad_number e)
  not_a_text :
      {e : Validator.Error} {number : List ℕ}
      → filter_error unicode req.to s.filter ≡ none
      → (limit_error unicode now req.to s.limiter).0 ≡ none
      → normalize_phone_number req.to s.cfg.default_prefix ≡ normalized number
      → validate_message_text req.text ≡ some e
      → Reason unicode now ref_counter req s (bad_text e)
  unencodable :
      {e : Types.Error} {number : List ℕ} {counter : ℕ}
      → filter_error unicode req.to s.filter ≡ none
      → (limit_error unicode now req.to s.limiter).0 ≡ none
      → normalize_phone_number req.to s.cfg.default_prefix ≡ normalized number
      → validate_message_text req.text ≡ none
      → encode_sms ref_counter number
          (if s.cfg.transliterates then transliterate req.text else req.text)
          auto
          (req.delivery_report || s.cfg.delivery_report)
        ≡ (err e, counter)
      → Reason unicode now ref_counter req s (not_encoded e)

-- A refusal for a reason that `Why` admits, and the state behind it: only the limiter may have
-- changed.
abbrev pub Untouched : (SendError → Type 0) → SmsService → SendOutcome → Type 0
Untouched Why s o =
    (e : SendError) × (o.result ≡ inl e)
    × Why e
    × (o.handed ≡ [])
    × (o.events ≡ [])
    × (o.service.tracker ≡ s.tracker)
    × (o.service.assembler ≡ s.assembler)

module _ (send_pdu : ℕ → Pdu → Option ℕ) where
  send_encoded_cases :
      (Why : SendError → Type 0) (r : Result (List Pdu) × ℕ) (number : List ℕ) (report : Bool)
      (s : SmsService)
      → ((e : Types.Error) (c : ℕ) → r ≡ (err e, c) → Why (not_encoded e))
      → let o = send_encoded send_pdu r number report s in
        Untouched Why s o
        ⊎ ((pdus : List Pdu) × (c : ℕ) × (r ≡ (ok pdus, c))
            × (o ≡ dispatch_pdus send_pdu pdus number report c s))
  unfolding send_encoded
  send_encoded_cases Why (err e, c) number report s because =
      inl (not_encoded e, refl, because e c refl, refl, refl, refl, refl)
  send_encoded_cases Why (ok pdus, c) number report s because = inr (pdus, c, refl, refl)

  -- What Send hands to the encoder.
  abbrev encoded_with : ℕ → List ℕ → SendSmsRequest → SmsService → Result (List Pdu) × ℕ
  encoded_with ref_counter number req s =
      encode_sms ref_counter number
        (if s.cfg.transliterates then transliterate req.text else req.text) auto
        (req.delivery_report || s.cfg.delivery_report)

  -- The conditions behind the limiter, and what Send does then.
  abbrev Readied : ℕ → SendSmsRequest → SmsService → Normalized → SendOutcome → Type 0
  Readied ref_counter req s n o =
      (pdus : List Pdu) × (number : List ℕ) × (c : ℕ) × (n ≡ normalized number)
      × (validate_message_text req.text ≡ none)
      × (encoded_with ref_counter number req s ≡ (ok pdus, c))
      × (o ≡ dispatch_pdus send_pdu pdus number (req.delivery_report || s.cfg.delivery_report) c s)

  send_number_cases :
      (Why : SendError → Type 0) (n : Normalized) (ref_counter : ℕ) (req : SendSmsRequest)
      (s : SmsService)
      → ((e : Validator.Error) → n ≡ invalid e → Why (bad_number e))
      → ((e : Validator.Error) (number : List ℕ)
          → n ≡ normalized number
          → validate_message_text req.text ≡ some e
          → Why (bad_text e))
      → ((e : Types.Error) (number : List ℕ) (c : ℕ)
          → n ≡ normalized number
          → validate_message_text req.text ≡ none
          → encoded_with ref_counter number req s ≡ (err e, c)
          → Why (not_encoded e))
      → let o = send_number send_pdu n ref_counter req s in
        Untouched Why s o ⊎ Readied ref_counter req s n o
  unfolding send_number send_text
  send_number_cases Why (invalid e) ref_counter req s no_number no_text no_parts =
      inl (bad_number e, refl, no_number e refl, refl, refl, refl, refl)
  send_number_cases Why (normalized number) ref_counter req s no_number no_text no_parts =
      elim (Option-cases (validate_message_text req.text)) [
        | inr e ↦
            rw (send_number, e.1)
              (inl (bad_text e.0, refl, no_text e.0 number refl e.1, refl, refl, refl, refl))
        | inl valid ↦
            rw (send_number, valid)
              (elim (send_encoded_cases Why (encoded_with ref_counter number req s) number
                (req.delivery_report || s.cfg.delivery_report) s
                (λ e c h. no_parts e number c refl valid h)) [
                  | inl u ↦ inl u
                  | inr h ↦ inr (h.0, number, h.1, refl, refl, h.2, h.3)
                ])
      ]

  -- Send refuses, or hands the parts of the message over.
  pub send_cases :
      (unicode : Unicode) (now ref_counter : ℕ) (req : SendSmsRequest) (s : SmsService)
      → let o = send send_pdu unicode now ref_counter req s in
        Untouched (Reason unicode now ref_counter req s) s o
        ⊎ ((pdus : List Pdu) × (cleared : Cleared unicode now ref_counter req s pdus) × (o
              ≡ dispatch_pdus send_pdu pdus cleared.number
                  (req.delivery_report || s.cfg.delivery_report)
                  cleared.counter
                  (record s { limiter = (limit_error unicode now req.to s.limiter).1 })))
  unfolding send send_limited
  send_cases unicode now ref_counter req s =
      elim (Option-cases (filter_error unicode req.to s.filter)) [
        | inr e ↦ rw (send, e.1) (inl (blocked e.0, refl, filtered e.1, refl, refl, refl, refl))
        | inl open_ ↦
            let limit = limit_error unicode now req.to s.limiter in
            rw (send, open_)
              (elim (Option-cases limit.0) [
                | inr e ↦
                    rw (send_limited, e.1)
                      (inl (limited e.0, refl, over_limit open_ e.1, refl, refl, refl, refl))
                | inl free ↦
                    let n = normalize_phone_number req.to s.cfg.default_prefix in
                    rw (send_limited, free)
                      (elim (send_number_cases (Reason unicode now ref_counter req s) n ref_counter
                        req (record s { limiter = limit.1 }) (λ e h. not_a_number open_ free h)
                        (λ e number h text. not_a_text open_ free h text)
                        (λ e number c h text parts. unencodable open_ free h text parts)) [
                          | inl u ↦ inl u
                          | inr h ↦ inr (
                            h.0,
                            record {
                              number = h.1;
                              counter = h.2;
                              not_filtered = open_;
                              not_limited = free;
                              number_normalized = h.3;
                              text_valid = h.4;
                              encoded = h.5;
                            },
                            h.6,
                          )
                        ])
              ])
      ]

  -- Send either refuses, with nothing handed to the modem and neither the tracker nor the assembler
  -- changed, and the error is that of the first of these that objects: the filter, the limiter, the
  -- number, the text, the encoder; or none of them objects and the encoder has made parts. Then
  -- either the modem answers each part, in their order, with a reference, and these are the result;
  -- or the parts go out up to the first that the modem refuses, all before it answered with a
  -- reference, and the error tells which it was of how many.
  pub send_lem :
      (unicode : Unicode) (now ref_counter : ℕ) (req : SendSmsRequest) (s : SmsService)
      → let o = send send_pdu unicode now ref_counter req s in
        Untouched (Reason unicode now ref_counter req s) s o
        ⊎ ((pdus : List Pdu) × Cleared unicode now ref_counter req s pdus
            × Handed send_pdu pdus o.result o.handed)
  send_lem unicode now ref_counter req s = elim (send_cases unicode now ref_counter req s) [
    | inl u ↦ inl u
    | inr h ↦ inr (
      h.0,
      h.1,
      subst (λ (o : SendOutcome). Handed send_pdu h.0 o.result o.handed) (sym h.2)
          (dispatch_pdus-Handed send_pdu h.0 h.1.number
            (req.delivery_report || s.cfg.delivery_report) h.1.counter
            (record s { limiter = (limit_error unicode now req.to s.limiter).1 })),
    )
  ]
