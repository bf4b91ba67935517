-- ===== src/Mqtt/Client/Runs.antt =====
-- internal/mqtt/client_tcp.go: filters, identifiers and acknowledgements.
use gsm2mqtt.Base.Maps.{lookup}
use gsm2mqtt.Base.{
  ℕ, Bool, none, ◌==◌, if◌then◌else◌, true, false, some, List, [], ◌∷◌, ◌≡◌, ◌≢◌, ◌↔◌, refl, any_by,
  arith,
}
use gsm2mqtt.Base.Text.{codes, split_on, decimal, decimal_with}
use gsm2mqtt.Mqtt.Client.{
  Received, pubacked, pubcomped, subacked, new_tcp_client, match_parts, match_topic,
  resolve_broker_address, next_msg_id, begin_publish, end_publish, publish, TcpClient, accept,
  waiting, returned, write_failed, err_not_connected, publish_timeout, publish_as, write_packet,
  read_packet, signal,
}
use gsm2mqtt.Mqtt.Client.Match.{Matches, match_topic_iff}
use gsm2mqtt.Mqtt.Client.Ids.{IsMsgId, next_msg_id_lem}
use gsm2mqtt.Mqtt.Client.Acks.{is_ack_of, read_all, end_publish-begin_publish}

filters :
    (match_topic (codes "gsm/+/sms/#") (codes "gsm/m1/sms/send") ≡ true)
    × (match_topic (codes "gsm/+") (codes "gsm/m1/sms") ≡ false)
unfolding match_topic match_parts
filters = (refl, refl)

address : resolve_broker_address (codes "tcp://broker") 0 ≡ codes "broker:1883"
unfolding resolve_broker_address decimal decimal_with
address = refl

match_topic_iff_example :
    (match_topic (codes "gsm/#") (codes "gsm/a") ≡ true)
    ↔ Matches (split_on b'/' (codes "gsm/#")) (split_on b'/' (codes "gsm/a"))
match_topic_iff_example = match_topic_iff (codes "gsm/#") (codes "gsm/a")

next_msg_id_lem_example :
    (v w : ℕ) × ((next_msg_id 2 65535).0 ≡ some v)
    × ((next_msg_id 2 (next_msg_id 2 65535).1).0 ≡ some w)
    × IsMsgId v
    × IsMsgId w
    × (v ≢ w)
next_msg_id_lem_example = next_msg_id_lem 0 65535 (omega arith)

abbrev acknowledged : List Received
acknowledged = pubacked 6 ∷ subacked 7 ∷ pubcomped 1 ∷ []

abbrev online : TcpClient
online = accept 3 (new_tcp_client 1)

end_publish-begin_publish_example :
    (id : ℕ) × IsMsgId id
    × (let waits = begin_publish (codes "gsm/m1") 1 false (codes "hi") false online in
        let ends = end_publish id (read_all acknowledged waits.2) in
        (waits.0 ≡ waiting id)
        × (waits.1 ≡ publish (codes "gsm/m1") 1 false id (codes "hi") ∷ [])
        × (ends.0 ≡ (if any_by (is_ack_of id) acknowledged then none else some publish_timeout))
        × (lookup ◌==◌ id ends.1.pubacks ≡ none))
    × (let failed = begin_publish (codes "gsm/m1") 1 false (codes "hi") true online in
        (failed.0 ≡ returned (some write_failed))
        × (failed.1 ≡ publish (codes "gsm/m1") 1 false id (codes "hi") ∷ [])
        × (lookup ◌==◌ id failed.2.pubacks ≡ none))
    × ((fails : Bool)
        → begin_publish
            (codes "gsm/m1")
            1
            false
            (codes "hi")
            fails
            (record online { connected = false })
          ≡ (returned (some err_not_connected), [], record online { connected = false }))
unfolding accept new_tcp_client
end_publish-begin_publish_example =
    end_publish-begin_publish (codes "gsm/m1") 1 false (codes "hi") 3 online refl refl (omega arith)
      acknowledged (omega arith)

-- The first identifier is 1, and its PUBCOMP ends the wait.
published_at_once :
    let waits = begin_publish (codes "gsm/m1") 1 false (codes "hi") false online in
    (waits.0 ≡ waiting 1) × ((end_publish 1 (read_all acknowledged waits.2)).0 ≡ none)
unfolding accept new_tcp_client begin_publish publish_as write_packet next_msg_id end_publish
    read_packet signal
published_at_once = (refl, refl)
