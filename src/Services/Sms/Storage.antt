-- ===== src/Services/Sms/Storage.antt =====
-- internal/services/sms_storage.go: the messages in the modem's storages. The storage manager is a
-- parameter: whether a storage can be selected and has messages, and what it lists.
pub mod Purge
mod Runs
use gsm2mqtt.Base.{
  ℕ, ◌+◌, Bool, true, false, ◌||◌, Option, none, some, List, [], ◌∷◌, ◌++◌, ltb, ◌==◌,
  if◌then◌else◌, length, map,
}
use gsm2mqtt.Base.Text.{codes, is_empty}
use gsm2mqtt.Pdu.Types.{Timestamp}
use gsm2mqtt.Pdu.Types.{DecodedSms, Result, ok, err}
use gsm2mqtt.Pdu.Decode.{decode_sms}
use gsm2mqtt.Sms.Assembler.{Assembler, add_part}
use gsm2mqtt.Services.Sms.{SmsService}
use gsm2mqtt.Services.Sms.Urc.{SmsEffect, part_of, announce}

pub record StoredMessage : Type 0 where
  pub index : ℕ
  pub status : ℕ
  pub pdu_hex : List ℕ

-- What SelectStorage answers: an error, no messages, or messages.
pub data Selection : Type 0 where
  unavailable vacant filled : Selection

pub data StorageEffect : Type 0 where
  select_storage : List ℕ → StorageEffect
  delete_message : ℕ → StorageEffect
  dispatched : SmsEffect → StorageEffect

module _ (instant : Timestamp → ℕ) (now : ℕ) (clock : Timestamp) where
  -- A decoded message, through the assembler if there is one.
  abbrev pub dispatch_part :
      DecodedSms → Option Assembler → Bool → List SmsEffect × Option Assembler
  dispatch_part decoded none on_received = ([], none)
  dispatch_part decoded (some a) on_received =
      let added = add_part now (part_of instant decoded) a in
      (announce instant on_received added.0, some added.1)

  -- The body of the loop for a message with a PDU: whether it counts as synchronised, the effects
  -- before its deletion, and the assembler.
  abbrev pub process_message :
      StoredMessage → Option Assembler → Bool → Bool × List SmsEffect × Option Assembler
  process_message m a on_received =
      if (m.status == 2) || (m.status == 3)
      then (false, [], a)
      else process_decoded (decode_sms clock m.pdu_hex)
    where
      process_decoded : Result DecodedSms → Bool × List SmsEffect × Option Assembler
      process_decoded (err e) = (false, [], a)
      process_decoded (ok decoded) =
          let dispatched_part = dispatch_part decoded a on_received in
          (true, dispatched_part.0, dispatched_part.1)

  pub process_and_purge_messages :
      List StoredMessage → Option Assembler → Bool → ℕ × List StorageEffect × Option Assembler
  process_and_purge_messages [] a on_received = (0, [], a)
  process_and_purge_messages (m ∷ msgs) a on_received = elim (is_empty m.pdu_hex) [
    | true ↦ process_and_purge_messages msgs a on_received
    | false ↦
        let processed = process_message m a on_received in
        let rest = process_and_purge_messages msgs processed.2 on_received in
        (
          (if processed.0 then 1 else 0) + rest.0,
          map (λ (e : SmsEffect). dispatched e) processed.1 ++ delete_message m.index ∷ rest.1,
          rest.2,
        )
  ]

  module _ (select : List ℕ → Selection) (list_messages : List ℕ → Option (List StoredMessage))
      (cancelled : List ℕ → Bool) where
    -- What SyncStoredMessages does with one storage, behind SelectStorage.
    abbrev pub sync_storage :
        Selection
        → Option (List StoredMessage)
        → Option Assembler
        → Bool
        → ℕ × List StorageEffect × Option Assembler
    sync_storage unavailable listed a on_received = (0, [], a)
    sync_storage vacant listed a on_received = (0, [], a)
    sync_storage filled none a on_received = (0, [], a)
    sync_storage filled (some msgs) a on_received = process_and_purge_messages msgs a on_received

    -- The loop over the storages; whether it has come to its end, and not to the context's.
    pub sync_storages :
        List (List ℕ) → Option Assembler → Bool → Bool × ℕ × List StorageEffect × Option Assembler
    sync_storages [] a on_received = (true, 0, [], a)
    sync_storages (name ∷ names) a on_received = elim (cancelled name) [
      | true ↦ (false, 0, [], a)
      | false ↦
          let synced = sync_storage (select name) (list_messages name) a on_received in
          let rest = sync_storages names synced.2 on_received in
          (rest.0, synced.0 + rest.1, select_storage name ∷ synced.1 ++ rest.2, rest.3)
    ]

    abbrev pub storages_or_default : List (List ℕ) → List (List ℕ)
    storages_or_default [] = codes "SM" ∷ codes "ME" ∷ []
    storages_or_default (name ∷ names) = name ∷ names

    -- SyncStoredMessages with a storage manager.
    pub sync_stored_messages :
        List (List ℕ) → SmsService → Bool × ℕ × List StorageEffect × SmsService
    sync_stored_messages names s =
        let storages = storages_or_default names in
        let r = sync_storages storages s.assembler s.on_received in
        (
          r.0,
          r.1,
          (if r.0
              then (if ltb 1 (length storages)
                  then r.2 ++ select_storage (codes "SM") ∷ []
                  else r.2)
              else r.2),
          record s { assembler = r.3 },
        )
