-- ===== src/Services/Sms/Dispatch.antt =====
-- internal/services/sms.go: dispatchPDUs, and what the modem answers to the parts.
use gsm2mqtt.Base.{
  ℕ, ◌+◌, Bool, Option, none, List, [], ◌∷◌, ◌++◌, some, length, append_assoc, append-nil,
  Option-cases, ◌≡◌, ◌⊎◌, refl, sym, ap, subst, ◌∙◌, inl, inr, arith,
}
use gsm2mqtt.Pdu.Types.{Pdu}
use gsm2mqtt.Sms.Tracker.{Tracker}
use gsm2mqtt.Services.Sms.{
  SmsService, SendError, part_not_sent, track_part, dispatch_parts, dispatch_pdus,
}

-- The modem's answers to the parts from the number `i` on are the references.
abbrev pub Answered : (ℕ → Pdu → Option ℕ) → ℕ → List Pdu → List ℕ → Type 0
Answered send_pdu i [] [] = Unit
Answered send_pdu i (part ∷ pdus) (ref ∷ refs) =
    (send_pdu i part ≡ some ref) × Answered send_pdu (i + 1) pdus refs
Answered send_pdu i _ _ = ⊥

-- Either the modem answers each part with a reference, all are handed over and the references are the
-- result; or it refuses a part behind others that it has answered, the parts up to that one are
-- handed over and the error has its number and the number of them all.
abbrev pub Handed : (ℕ → Pdu → Option ℕ) → List Pdu → SendError ⊎ List ℕ → List Pdu → Type 0
Handed send_pdu pdus result handed =
    ((refs : List ℕ) × (result ≡ inr refs) × Answered send_pdu 0 pdus refs × (handed ≡ pdus))
    ⊎ ((before : List Pdu) × (refs : List ℕ) × (part : Pdu) × (rest : List Pdu) × (result
          ≡ inl (part_not_sent (length before + 1) (length pdus)))
        × Answered send_pdu 0 before refs
        × (send_pdu (length before) part ≡ none)
        × (handed ≡ before ++ part ∷ [])
        × (pdus ≡ before ++ part ∷ rest))

module _ (send_pdu : ℕ → Pdu → Option ℕ) where
  dispatch_parts-Handed :
      (i total : ℕ) (pdus : List Pdu) (number : List ℕ) (report : Bool) (modem_id refs : List ℕ)
      (t : Option Tracker)
      → let r = dispatch_parts send_pdu i total pdus number report modem_id refs t in
        ((more : List ℕ) × (r.0 ≡ inr (refs ++ more))
          × Answered send_pdu i pdus more
          × (r.1 ≡ pdus))
        ⊎ ((before : List Pdu) × (more : List ℕ) × (part : Pdu) × (rest : List Pdu) × (r.0
              ≡ inl (part_not_sent (i + length before + 1) total))
            × Answered send_pdu i before more
            × (send_pdu (i + length before) part ≡ none)
            × (r.1 ≡ before ++ part ∷ [])
            × (pdus ≡ before ++ part ∷ rest))
  unfolding dispatch_parts
  dispatch_parts-Handed i total [] number report modem_id refs t =
      inl ([], ap (λ (l : List ℕ). inr l) (sym (append-nil refs)), tt, refl)
  dispatch_parts-Handed i total (part ∷ pdus) number report modem_id refs t =
      elim (Option-cases (send_pdu i part)) [
        | inl e ↦
            let here : i ≡ i + 0 = omega arith in
            rw (dispatch_parts, e)
              (inr (
                [],
                [],
                part,
                pdus,
                ap (λ (n : ℕ). inl (part_not_sent (n + 1) total)) here,
                tt,
                subst (λ (n : ℕ). send_pdu n part ≡ none) here e,
                refl,
                refl,
              ))
        | inr sent ↦
            let next = track_part report sent.0 number modem_id t in
            rw (dispatch_parts, sent.1)
              (elim (dispatch_parts-Handed (i + 1) total pdus number report modem_id
                (refs ++ sent.0 ∷ []) next.1) [
                  | inl all ↦ inl (
                    sent.0 ∷ all.0,
                    all.1 ∙ ap (λ (l : List ℕ). inr l) (append_assoc refs (sent.0 ∷ []) all.0),
                    (sent.1, all.2),
                    ap (λ (l : List Pdu). part ∷ l) all.3,
                  )
                  | inr (before, more, stop, rest, result, answers, refusal, out, whole) ↦
                      let here : i + 1 + length before ≡ i + length (part ∷ before) = omega arith in
                      inr (
                        part ∷ before,
                        sent.0 ∷ more,
                        stop,
                        rest,
                        result ∙ ap (λ (n : ℕ). inl (part_not_sent (n + 1) total)) here,
                        (sent.1, answers),
                        subst (λ (n : ℕ). send_pdu n stop ≡ none) here refusal,
                        ap (λ (l : List Pdu). part ∷ l) out,
                        ap (λ (l : List Pdu). part ∷ l) whole,
                      )
                ])
      ]

  -- All the parts go out and are answered, or those up to the first that is refused.
  pub dispatch_pdus-Handed :
      (pdus : List Pdu) (number : List ℕ) (report : Bool) (ref_counter : ℕ) (s : SmsService)
      → let o = dispatch_pdus send_pdu pdus number report ref_counter s in
        Handed send_pdu pdus o.result o.handed
  unfolding dispatch_pdus
  dispatch_pdus-Handed pdus number report ref_counter s =
      elim (dispatch_parts-Handed 0 (length pdus) pdus number report s.cfg.modem_id [] s.tracker) [
        | inl all ↦ inl all
        | inr (before, refs, stop, rest, result, answers, refusal, out, whole) ↦
            let here : 0 + length before ≡ length before = omega arith in
            inr (
              before,
              refs,
              stop,
              rest,
              result ∙ ap (λ (n : ℕ). inl (part_not_sent (n + 1) (length pdus))) here,
              answers,
              subst (λ (n : ℕ). send_pdu n stop ≡ none) here refusal,
              out,
              whole,
            )
      ]
