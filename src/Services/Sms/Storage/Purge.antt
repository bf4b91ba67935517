-- ===== src/Services/Sms/Storage/Purge.antt =====
-- internal/services/sms_storage.go: what is deleted from the storages.
use gsm2mqtt.Base.{
  ℕ, Bool, Option, List, [], ◌∷◌, ◌++◌, if◌then◌else◌, map, Bool-cases, ◌≡◌, refl, ap, ◌∙◌, inl,
  inr,
}
use gsm2mqtt.Base.Text.{is_empty}
use gsm2mqtt.Pdu.Types.{Timestamp}
use gsm2mqtt.Sms.Assembler.{Assembler}
use gsm2mqtt.Services.Sms.Urc.{SmsEffect}
use gsm2mqtt.Services.Sms.Storage.{
  StoredMessage, StorageEffect, select_storage, delete_message, dispatched, process_message,
  process_and_purge_messages,
}

abbrev pub deletions : List StorageEffect → List ℕ
deletions [] = []
deletions (delete_message i ∷ effects) = i ∷ deletions effects
deletions (select_storage name ∷ effects) = deletions effects
deletions (dispatched e ∷ effects) = deletions effects

-- The indices of the messages with a PDU.
abbrev pub indices : List StoredMessage → List ℕ
indices [] = []
indices (m ∷ msgs) = let rest = indices msgs in if is_empty m.pdu_hex then rest else m.index ∷ rest

deletions-dispatched :
    (effects : List SmsEffect) (more : List StorageEffect)
    → deletions (map (λ (e : SmsEffect). dispatched e) effects ++ more) ≡ deletions more
deletions-dispatched [] more = refl
deletions-dispatched (e ∷ effects) more = deletions-dispatched effects more

-- Of the messages that a storage lists, those with a PDU are deleted, each once and in their order,
-- whether they could be decoded or not; the others are left.
pub deletions-process_and_purge_messages :
    (instant : Timestamp → ℕ) (now : ℕ) (clock : Timestamp) (msgs : List StoredMessage)
    (a : Option Assembler) (on_received : Bool)
    → deletions (process_and_purge_messages instant now clock msgs a on_received).1 ≡ indices msgs
unfolding process_and_purge_messages
deletions-process_and_purge_messages instant now clock [] a on_received = refl
deletions-process_and_purge_messages instant now clock (m ∷ msgs) a on_received =
    elim (Bool-cases (is_empty m.pdu_hex)) [
      | inl e ↦
          rw (process_and_purge_messages, e)
            (deletions-process_and_purge_messages instant now clock msgs a on_received)
      | inr e ↦
          let processed = process_message instant now clock m a on_received in
          rw (process_and_purge_messages, e)
            (deletions-dispatched processed.1 _
              ∙ ap (λ (l : List ℕ). m.index ∷ l)
                  (deletions-process_and_purge_messages instant now clock msgs processed.2
                    on_received))
    ]
