-- ===== src/Services/Inbox/Invariant.antt =====
-- internal/services/inbox.go: what the list of received messages keeps.
use gsm2mqtt.Base.{
  ℕ, zero, suc, ◌-◌, ◌≤◌, Bool, true, false, ◌&&◌, List, [], ◌∷◌, ◌++◌, ltb, if◌then◌else◌, length,
  drop, any_by, text_eq, text_eq_iff, length-append, length-drop, Bool-cases, ◌≡◌, refl, ◌∙◌, inl,
  inr, arith,
}
use gsm2mqtt.Sms.Assembler.{AssembledSms}
use gsm2mqtt.Services.Inbox.{
  ReceivedSms, is_recorded, append_entry, record_incoming_sms, clear_received_sms,
}

-- Two entries of the same sender, text and time.
abbrev pub same_entry : ReceivedSms → ReceivedSms → Bool
same_entry a b =
    text_eq b.sender a.sender && text_eq b.text a.text && text_eq b.timestamp a.timestamp

abbrev pub NoRepeat : List ReceivedSms → Type 0
NoRepeat [] = Unit {0}
NoRepeat (x ∷ xs) = (any_by (λ y. same_entry y x) xs ≡ false) × NoRepeat xs

drop-NoRepeat : (n : ℕ) (xs : List ReceivedSms) → NoRepeat xs → NoRepeat (drop n xs)
drop-NoRepeat zero xs h = h
drop-NoRepeat (suc n) [] h = tt
drop-NoRepeat (suc n) (x ∷ xs) h = drop-NoRepeat n xs h.1

any_by-append :
    (p : ReceivedSms → Bool) (xs : List ReceivedSms) (e : ReceivedSms)
    → any_by p (xs ++ e ∷ []) ≡ (if any_by p xs then true else p e)
any_by-append p [] e = ground arith
any_by-append p (x ∷ xs) e = elim (Bool-cases (p x)) [
  | inl h ↦ rw h refl
  | inr h ↦ rw h (any_by-append p xs e)
]

append-NoRepeat :
    (xs : List ReceivedSms) (e : ReceivedSms)
    → any_by (λ x. same_entry e x) xs ≡ false
    → NoRepeat xs
    → NoRepeat (xs ++ e ∷ [])
append-NoRepeat [] e h n = (refl, tt)
append-NoRepeat (x ∷ xs) e h n = elim (Bool-cases (same_entry e x)) [
  | inl f ↦ let on = (rw f at h) in absurd (cc on)
  | inr f ↦ (
    any_by-append (λ y. same_entry y x) xs e ∙ rw (n.0, f) refl,
    append-NoRepeat xs e (rw f at h) n.1,
  )
]

-- What is cut off in front leaves the last entry.
any_by-drop :
    (p : ReceivedSms → Bool) (n : ℕ) (xs : List ReceivedSms) (e : ReceivedSms)
    → n ≤ length xs
    → p e ≡ true
    → any_by p (drop n (xs ++ e ∷ [])) ≡ true
any_by-drop p zero xs e h f = any_by-append p xs e ∙ rw f (ground arith)
any_by-drop p (suc n) [] e h f = absurd (omega (arith, h))
any_by-drop p (suc n) (x ∷ xs) e h f = any_by-drop p n xs e (omega (arith, h)) f

-- At most a hundred messages, none twice.
abbrev pub IsInbox : List ReceivedSms → Type 0
IsInbox inbox = (length inbox ≤ 100) × NoRepeat inbox

append_entry-IsInbox :
    (e : ReceivedSms) (p : ReceivedSms → Bool) (inbox : List ReceivedSms)
    → IsInbox inbox
    → any_by (λ x. same_entry e x) inbox ≡ false
    → p e ≡ true
    → IsInbox (append_entry e inbox) × (any_by p (append_entry e inbox) ≡ true)
append_entry-IsInbox e p inbox h new own =
    let longer = inbox ++ e ∷ [] in
    let more = length-append inbox (e ∷ []) in
    let apart = append-NoRepeat inbox e new h.1 in
    elim (Bool-cases (ltb 100 (length longer))) [
      | inl f ↦ rw f (
        (
          omega (arith, length-drop (length longer - 100) longer),
          drop-NoRepeat (length longer - 100) longer apart,
        ),
        any_by-drop p (length longer - 100) inbox e (omega (arith, more, h.0)) own,
      )
      | inr f ↦ rw f ((ground (arith, f), apart), any_by-append p inbox e ∙ rw own (ground arith))
    ]

-- What befalls the list.
pub data Incident : Type 0 where
  arrived : List ℕ → List ℕ → List ℕ → AssembledSms → Incident
  cleared : Incident

abbrev pub after : List Incident → List ReceivedSms → List ReceivedSms
after [] inbox = inbox
after (arrived id modem_id ts msg ∷ incidents) inbox =
    after incidents (record_incoming_sms id modem_id ts msg inbox)
after (cleared ∷ incidents) inbox = after incidents (clear_received_sms inbox)

record_incoming_sms-IsInbox :
    (id modem_id ts : List ℕ) (msg : AssembledSms) (inbox : List ReceivedSms)
    → IsInbox inbox
    → IsInbox (record_incoming_sms id modem_id ts msg inbox)
      × (any_by (is_recorded msg ts) (record_incoming_sms id modem_id ts msg inbox) ≡ true)
unfolding record_incoming_sms
record_incoming_sms-IsInbox id modem_id ts msg inbox h =
    elim (Bool-cases (any_by (is_recorded msg ts) inbox)) [
      | inl f ↦ rw f (h, f)
      | inr f ↦
          let own : is_recorded msg ts (record {
            id = id;
            modem_id = modem_id;
            sender = msg.from;
            from = msg.from;
            timestamp = ts;
            text = msg.text;
          })
              ≡ true =
            rw
              (
                (text_eq_iff msg.from msg.from).1 refl,
                (text_eq_iff msg.text msg.text).1 refl,
                (text_eq_iff ts ts).1 refl,
              )
              refl in
          rw f (append_entry-IsInbox _ (is_recorded msg ts) inbox h f own)
    ]

after-IsInbox :
    (incidents : List Incident) (inbox : List ReceivedSms)
    → IsInbox inbox
    → IsInbox (after incidents inbox)
unfolding clear_received_sms
after-IsInbox [] inbox h = h
after-IsInbox (arrived id modem_id ts msg ∷ incidents) inbox h =
    after-IsInbox incidents (record_incoming_sms id modem_id ts msg inbox)
      (record_incoming_sms-IsInbox id modem_id ts msg inbox h).0
after-IsInbox (cleared ∷ incidents) inbox h = after-IsInbox incidents [] (omega arith, tt)

-- Behind any arrivals of messages and any clearings, from an empty list, there are at most a hundred
-- messages, no two of them with the same sender, text and time; and a message that arrives then is in
-- the list, with its sender, text and time.
pub after-record_incoming_sms :
    (incidents : List Incident) (id modem_id ts : List ℕ) (msg : AssembledSms)
    → let inbox = record_incoming_sms id modem_id ts msg (after incidents []) in
      IsInbox inbox × (any_by (is_recorded msg ts) inbox ≡ true)
after-record_incoming_sms incidents id modem_id ts msg =
    record_incoming_sms-IsInbox id modem_id ts msg (after incidents [])
      (after-IsInbox incidents [] (omega arith, tt))
