-- ===== src/Mqtt/Topics/Distinct.antt =====
-- internal/mqtt/topics.go: no two topics are the same.
use gsm2mqtt.Base.{
  ℕ, Bool, true, not, ◌&&◌, List, [], ◌∷◌, ◌++◌, map, any_by, text_eq, text_eq_iff, Bool-cases, ◌≡◌,
  ◌≢◌, refl, inl, inr, All,
}
use gsm2mqtt.Base.Text.{codes}
use gsm2mqtt.Mqtt.Topics.{
  Topics, sms_send, sms_status, sms_received, sms_last, sms_history, sms_history_clear, call_dial,
  call_hangup, call_incoming, call_history, call_history_clear, call_dtmf, signal_strength,
  ussd_send, ussd_response, command_raw, command_response, health, alert, event, diagnostic,
  balance, tariff_set_preset, tariff_set, tariff_reset, accounting_status, accounting_alert, lwt,
  pool_status, pool_sms_send, pool_call_dial, pool_call_hangup, pool_ussd_send,
}

-- No text twice.
abbrev pub AllDifferent : List (List ℕ) → Type 0
AllDifferent [] = Unit {0}
AllDifferent (s ∷ ss) = All (λ t. s ≢ t) ss × AllDifferent ss

-- The topics of one modem.
abbrev pub modem_topics : Topics → List (List ℕ)
modem_topics t =
    sms_send t
    ∷ sms_status t
    ∷ sms_received t
    ∷ sms_last t
    ∷ sms_history t
    ∷ sms_history_clear t
    ∷ call_dial t
    ∷ call_hangup t
    ∷ call_incoming t
    ∷ call_history t
    ∷ call_history_clear t
    ∷ call_dtmf t
    ∷ signal_strength t
    ∷ ussd_send t
    ∷ ussd_response t
    ∷ command_raw t
    ∷ command_response t
    ∷ health t
    ∷ alert t
    ∷ event t
    ∷ diagnostic t
    ∷ balance t
    ∷ tariff_set_preset t
    ∷ tariff_set t
    ∷ tariff_reset t
    ∷ accounting_status t
    ∷ accounting_alert t
    ∷ []

-- The topics of the gateway.
abbrev pub gateway_topics : Topics → List (List ℕ)
gateway_topics t =
    lwt t
    ∷ pool_status t
    ∷ pool_sms_send t
    ∷ pool_call_dial t
    ∷ pool_call_hangup t
    ∷ pool_ussd_send t
    ∷ []

abbrev modem_suffixes : List (List ℕ)
modem_suffixes =
    codes "/sms/send"
    ∷ codes "/sms/status"
    ∷ codes "/sms/received"
    ∷ codes "/sms/last"
    ∷ codes "/sms/history"
    ∷ codes "/sms/history/clear"
    ∷ codes "/call/dial"
    ∷ codes "/call/hangup"
    ∷ codes "/call/incoming"
    ∷ codes "/call/history"
    ∷ codes "/call/history/clear"
    ∷ codes "/call/dtmf"
    ∷ codes "/signal"
    ∷ codes "/ussd/send"
    ∷ codes "/ussd/response"
    ∷ codes "/command/raw"
    ∷ codes "/command/response"
    ∷ codes "/health"
    ∷ codes "/alert"
    ∷ codes "/event"
    ∷ codes "/diagnostic"
    ∷ codes "/balance"
    ∷ codes "/tariff/set_preset"
    ∷ codes "/tariff/set"
    ∷ codes "/tariff/reset"
    ∷ codes "/accounting/status"
    ∷ codes "/accounting/alert"
    ∷ []

abbrev gateway_suffixes : List (List ℕ)
gateway_suffixes =
    codes "/status"
    ∷ codes "/pool/status"
    ∷ codes "/sms/send"
    ∷ codes "/call/dial"
    ∷ codes "/call/hangup"
    ∷ codes "/ussd/send"
    ∷ []

append_cancel : (p s t : List ℕ) → p ++ s ≡ p ++ t → s ≡ t
append_cancel [] s t e = e
append_cancel (r ∷ p) s t e = append_cancel p s t cc

abbrev differs : List ℕ → List (List ℕ) → Bool
differs s ss = not (any_by (text_eq s) ss)

abbrev all_differ : List (List ℕ) → Bool
all_differ [] = true
all_differ (s ∷ ss) = differs s ss && all_differ ss

differs-All : (s : List ℕ) (ss : List (List ℕ)) → differs s ss ≡ true → All (λ t. s ≢ t) ss
differs-All s [] h = tt
differs-All s (t ∷ ss) h = elim (Bool-cases (text_eq s t)) [
  | inl e ↦ let off = (rw e at h) in cc
  | inr e ↦ (λ same. let on = (text_eq_iff s t).1 same in cc, differs-All s ss (rw e at h))
]

all_differ-AllDifferent : (ss : List (List ℕ)) → all_differ ss ≡ true → AllDifferent ss
all_differ-AllDifferent [] h = tt
all_differ-AllDifferent (s ∷ ss) h = elim (Bool-cases (differs s ss)) [
  | inl e ↦ (differs-All s ss e, all_differ-AllDifferent ss (rw e at h))
  | inr e ↦ let off = (rw e at h) in cc
]

-- Behind a common front.
module _ (front : List ℕ) where
  map-All :
      (s : List ℕ) (ss : List (List ℕ))
      → All (λ t. s ≢ t) ss
      → All (λ t. front ++ s ≢ t) (map (λ t. front ++ t) ss)
  map-All s [] h = tt
  map-All s (t ∷ ss) h = (λ same. h.0 (append_cancel front s t same), map-All s ss h.1)

  map-AllDifferent :
      (ss : List (List ℕ)) → AllDifferent ss → AllDifferent (map (λ t. front ++ t) ss)
  map-AllDifferent [] h = tt
  map-AllDifferent (s ∷ ss) h = (map-All s ss h.0, map-AllDifferent ss h.1)

-- Whatever the prefix and the modem's identifier, all topics of the modem differ from each other,
-- and so do all topics of the gateway.
pub topics-AllDifferent :
    (t : Topics) → AllDifferent (modem_topics t) × AllDifferent (gateway_topics t)
topics-AllDifferent t = (
  map-AllDifferent t.prefix
      (map (λ s. codes "/modem/" ++ s) (map (λ s. t.modem_id ++ s) modem_suffixes))
      (map-AllDifferent (codes "/modem/") (map (λ s. t.modem_id ++ s) modem_suffixes)
        (map-AllDifferent t.modem_id modem_suffixes (all_differ-AllDifferent modem_suffixes refl))),
  map-AllDifferent t.prefix gateway_suffixes (all_differ-AllDifferent gateway_suffixes refl),
)
