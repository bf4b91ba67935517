-- ===== src/Services/Sms/Tracking.antt =====
-- internal/services/sms.go: a message that was sent with a report requested is tracked, every part.
use gsm2mqtt.Base.{
  ℕ, ◌+◌, true, ◌||◌, Option, some, List, [], ◌∷◌, ◌++◌, length, All, Memᴰ, Bool-cases,
  Option-cases, ◌≡◌, refl, sym, ap, subst, ◌∙◌, inl, inr,
}
use gsm2mqtt.Base.Search.{All-Memᴰ}
use gsm2mqtt.Security.Unicode.{Unicode}
use gsm2mqtt.Pdu.Types.{Pdu, StatusReport}
use gsm2mqtt.Sms.Tracker.{
  Tracker, TrackedSms, Key, key_eq, make_key, pending_at, track, handle_report, status_of,
}
use gsm2mqtt.Sms.Tracker.Laws.{
  key_eq_iff, pending_at-track_same, pending_at-track_other, handle_report-pending_at,
}
use gsm2mqtt.Sms.Validator.{normalized, normalize_phone_number}
use gsm2mqtt.Services.Sms.{
  SmsService, SendSmsRequest, dispatch_parts, dispatch_pdus, send, limit_error,
}
use gsm2mqtt.Services.Sms.Sending.{send_cases}

abbrev item_of : List ℕ → List ℕ → ℕ → TrackedSms
item_of number modem_id ref = record { ref = ref; to = number; modem_id = modem_id }

abbrev pub IsTracked : List ℕ → List ℕ → Tracker → ℕ → Type 0
IsTracked number modem_id t ref =
    pending_at (make_key number ref) t.pending ≡ some (item_of number modem_id ref)

track-IsTracked :
    (ref : ℕ) (number modem_id : List ℕ) (t : Tracker) (old : ℕ)
    → IsTracked number modem_id t old
    → IsTracked number modem_id (track ref number modem_id t).1 old
track-IsTracked ref number modem_id t old h =
    elim (Bool-cases (key_eq (make_key number ref) (make_key number old))) [
      | inl e ↦
          let same : ref ≡ old =
            ap (λ (k : Key). k.1) ((key_eq_iff (make_key number ref) (make_key number old)).0 e) in
          subst (λ (n : ℕ). IsTracked number modem_id (track ref number modem_id t).1 n) same
            (pending_at-track_same ref number modem_id t)
      | inr e ↦ pending_at-track_other ref number modem_id (make_key number old) t e ∙ h
    ]

track-All :
    (ref : ℕ) (number modem_id : List ℕ) (t : Tracker) (refs : List ℕ)
    → All (IsTracked number modem_id t) refs
    → All (IsTracked number modem_id (track ref number modem_id t).1) (refs ++ ref ∷ [])
track-All ref number modem_id t [] h = (pending_at-track_same ref number modem_id t, tt)
track-All ref number modem_id t (old ∷ refs) h =
    (track-IsTracked ref number modem_id t old h.0, track-All ref number modem_id t refs h.1)

module _ (send_pdu : ℕ → Pdu → Option ℕ) (number modem_id : List ℕ) where
  dispatch_parts-All :
      (i total : ℕ) (pdus : List Pdu) (refs all : List ℕ) (t : Tracker)
      → All (IsTracked number modem_id t) refs
      → (dispatch_parts send_pdu i total pdus number true modem_id refs (some t)).0 ≡ inr all
      → (u : Tracker) × ((dispatch_parts send_pdu i total pdus number true modem_id refs (some t)).3
          ≡ some u)
        × All (IsTracked number modem_id u) all
  unfolding dispatch_parts
  dispatch_parts-All i total [] refs all t h e =
      (t, refl, subst (All (IsTracked number modem_id t)) (cc e) h)
  dispatch_parts-All i total (part ∷ pdus) refs all t h e = elim (Option-cases (send_pdu i part)) [
    | inl f ↦ let failed = (rw (dispatch_parts, f) at e) in absurd (cc failed)
    | inr sent ↦
        rw (dispatch_parts, sent.1)
          (dispatch_parts-All (i + 1) total pdus (refs ++ sent.0 ∷ []) all
            (track sent.0 number modem_id t).1 (track-All sent.0 number modem_id t refs h)
            (rw (dispatch_parts, sent.1) at e))
  ]

  dispatch_pdus-All :
      (pdus : List Pdu) (c : ℕ) (s : SmsService) (t : Tracker) (refs : List ℕ)
      → s.tracker ≡ some t
      → s.cfg.modem_id ≡ modem_id
      → (dispatch_pdus send_pdu pdus number true c s).result ≡ inr refs
      → (u : Tracker) × ((dispatch_pdus send_pdu pdus number true c s).service.tracker ≡ some u)
        × All (IsTracked number modem_id u) refs
  unfolding dispatch_pdus
  dispatch_pdus-All pdus c s t refs has_tracker own sent =
      rw (has_tracker, own)
        (dispatch_parts-All 0 (length pdus) pdus [] refs t _ (rw (has_tracker, own) at sent))

-- A message with a report requested, by the request or by the configuration, for which Send returns
-- references, with a tracker: each report for the number that it was sent to, with one of those
-- references, has one event behind it, of that number and with the report's status.
pub handle_report-send :
    (send_pdu : ℕ → Pdu → Option ℕ) (unicode : Unicode) (now ref_counter : ℕ) (req : SendSmsRequest)
    (s : SmsService) (t : Tracker) (number refs : List ℕ) (ref : ℕ) (report : StatusReport)
    → s.tracker ≡ some t
    → (req.delivery_report || s.cfg.delivery_report) ≡ true
    → normalize_phone_number req.to s.cfg.default_prefix ≡ normalized number
    → (send send_pdu unicode now ref_counter req s).result ≡ inr refs
    → Memᴰ ref refs
    → make_key report.recipient report.message_ref ≡ make_key number ref
    → (u : Tracker) × ((send send_pdu unicode now ref_counter req s).service.tracker ≡ some u)
      × ((handle_report report u).0
          ≡ record {
            message_ref = report.message_ref;
            to = number;
            status = status_of report;
            modem_id = s.cfg.modem_id;
          }
            ∷ [])
unfolding dispatch_pdus
handle_report-send send_pdu unicode now ref_counter req s t number refs ref report has_tracker
      wanted norm sent member same =
    elim (send_cases send_pdu unicode now ref_counter req s) [
      | inl u ↦ absurd (cc (u.1, sent))
      | inr h ↦
          let cleared = h.1 in
          let same_number : number ≡ cleared.number = cc (norm, cleared.number_normalized) in
          let tracked =
            dispatch_pdus-All send_pdu cleared.number s.cfg.modem_id h.0 cleared.counter
              (record s { limiter = (limit_error unicode now req.to s.limiter).1 }) t refs
              has_tracker refl (rw (h.2, wanted) at sent) in
          let entry : IsTracked number s.cfg.modem_id tracked.0 ref =
            subst (λ (n : List ℕ). IsTracked n s.cfg.modem_id tracked.0 ref) (sym same_number)
              (All-Memᴰ (IsTracked cleared.number s.cfg.modem_id tracked.0) ref refs tracked.2
                member) in
          (
            tracked.0,
            rw (h.2, wanted) tracked.1,
            handle_report-pending_at report tracked.0 (item_of number s.cfg.modem_id ref)
                (ap (λ (k : Key). pending_at k (tracked.0).pending) same ∙ entry),
          )
    ]
