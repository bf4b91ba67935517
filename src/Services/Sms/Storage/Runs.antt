-- ===== src/Services/Sms/Storage/Runs.antt =====
-- internal/services/sms_storage.go: a storage at concrete inputs.
use gsm2mqtt.Base.{none, true, List, [], ◌∷◌, ◌≡◌}
use gsm2mqtt.Base.Text.{codes}
use gsm2mqtt.Base.Int.{pos}
use gsm2mqtt.Pdu.Types.{Timestamp}
use gsm2mqtt.Services.Sms.Storage.{StoredMessage, process_and_purge_messages}
use gsm2mqtt.Services.Sms.Storage.Purge.{deletions, deletions-process_and_purge_messages}

abbrev clock : Timestamp
clock = record { year = 2024; month = 1; day = 1; hour = 0; minute = 0; second = 0; offset = pos 0 }

-- A sent message, an empty entry and one that is no PDU.
abbrev stored : List StoredMessage
stored =
    record { index = 4; status = 3; pdu_hex = codes "0011" }
    ∷ record { index = 5; status = 0; pdu_hex = [] }
    ∷ record { index = 6; status = 0; pdu_hex = codes "07" }
    ∷ []

deletions-process_and_purge_messages_example :
    deletions (process_and_purge_messages (λ t. 0) 5 clock stored none true).1 ≡ 4 ∷ 6 ∷ []
deletions-process_and_purge_messages_example =
    deletions-process_and_purge_messages (λ t. 0) 5 clock stored none true
