-- ===== src/Services/Inbox.antt =====
-- internal/services/inbox.go: the received messages of a modem. The text that Go's Format makes of a timestamp
-- and the identifier of an entry are arguments, and the file and the publication are left out.
pub mod Invariant
mod Runs
use gsm2mqtt.Base.{
  ℕ, ◌-◌, Bool, true, false, ◌&&◌, List, [], ◌∷◌, ◌++◌, ltb, if◌then◌else◌, length, drop, any_by,
  text_eq,
}
use gsm2mqtt.Sms.Assembler.{AssembledSms}

-- maxInboxMessages.
abbrev pub max_inbox_messages : ℕ
max_inbox_messages = 100

pub record ReceivedSms : Type 0 where
  pub id : List ℕ
  pub modem_id : List ℕ
  pub sender : List ℕ
  pub from : List ℕ
  pub timestamp : List ℕ
  pub text : List ℕ

-- The test of the deduplication.
abbrev pub is_recorded : AssembledSms → List ℕ → ReceivedSms → Bool
is_recorded msg ts existing =
    text_eq existing.sender msg.from
    && text_eq existing.text msg.text
    && text_eq existing.timestamp ts

-- The list with one entry more, cut to its last ones.
abbrev pub append_entry : ReceivedSms → List ReceivedSms → List ReceivedSms
append_entry entry inbox =
    let longer = inbox ++ entry ∷ [] in
    if ltb max_inbox_messages (length longer)
    then drop (length longer - max_inbox_messages) longer
    else longer

pub record_incoming_sms :
    List ℕ → List ℕ → List ℕ → AssembledSms → List ReceivedSms → List ReceivedSms
record_incoming_sms id modem_id ts msg inbox =
    if any_by (is_recorded msg ts) inbox
    then inbox
    else append_entry
        (record {
          id = id;
          modem_id = modem_id;
          sender = msg.from;
          from = msg.from;
          timestamp = ts;
          text = msg.text;
        })
        inbox

pub clear_received_sms : List ReceivedSms → List ReceivedSms
clear_received_sms inbox = []
