-- ===== src/Services/Inbox/Runs.antt =====
-- internal/services/inbox.go: a message that comes twice.
use gsm2mqtt.Base.{true, false, [], ◌∷◌, length, any_by, ◌≡◌, refl}
use gsm2mqtt.Base.Text.{codes}
use gsm2mqtt.Sms.Assembler.{AssembledSms}
use gsm2mqtt.Services.Inbox.{is_recorded, record_incoming_sms}
use gsm2mqtt.Services.Inbox.Invariant.{IsInbox, arrived, cleared, after, after-record_incoming_sms}

abbrev message : AssembledSms
message = record {
  from = codes "+49170";
  text = codes "Hi";
  timestamp = 5;
  segments = 1;
  encoding = codes "gsm7";
  is_complete = true;
  is_update = false;
}

recorded_once :
    length (
      record_incoming_sms
        (codes "m1-2")
        (codes "m1")
        (codes "2024-01-01")
        message
        (record_incoming_sms (codes "m1-1") (codes "m1") (codes "2024-01-01") message []))
    ≡ 1
unfolding record_incoming_sms
recorded_once = refl

after-record_incoming_sms_example :
    let inbox = record_incoming_sms (codes "m1-2") (codes "m1") (codes "2024-01-01") message (
      after (cleared ∷ arrived (codes "m1-1") (codes "m1") (codes "2024-01-01") message ∷ []) []) in
    IsInbox inbox × (any_by (is_recorded message (codes "2024-01-01")) inbox ≡ true)
after-record_incoming_sms_example =
    after-record_incoming_sms
      (cleared ∷ arrived (codes "m1-1") (codes "m1") (codes "2024-01-01") message ∷ [])
      (codes "m1-2") (codes "m1") (codes "2024-01-01") message
