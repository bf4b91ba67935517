-- ===== src/Mqtt/Client.antt =====
-- internal/mqtt/client_tcp.go: the client over plain TCP. A connection is known by a number, a handler
-- by a number, and a packet of the library packets by the fields that the client reads and sets. A
-- write is what is handed to the connection, and whether the connection takes it is an argument. A channel of the acknowledgement maps is a
-- flag, set once something has been sent on it.
pub mod Match
pub mod Ids
pub mod Acks
mod Runs
use gsm2mqtt.Base.{
  ℕ, zero, suc, ◌+◌, ◌%◌, ◌^◌, Bool, true, false, not, ◌&&◌, ◌||◌, Option, none, some, List, [],
  ◌∷◌, ◌++◌, ltb, ◌==◌, if◌then◌else◌, any_by, text_eq, map,
}
use gsm2mqtt.Base.Maps.{lookup, delete, insert}
use gsm2mqtt.Base.Text.{codes, decimal, trim_prefix, split_on}

-- The loop of matchTopic over the levels, with the test of the lengths behind it.
pub match_parts : List (List ℕ) → List (List ℕ) → Bool
match_parts [] [] = true
match_parts [] (t ∷ ts) = false
match_parts (p ∷ ps) [] = text_eq p (codes "#")
match_parts (p ∷ ps) (t ∷ ts) =
    let rest = match_parts ps ts in
    if text_eq p (codes "#")
    then true
    else (if not (text_eq p (codes "+")) && not (text_eq p t) then false else rest)

pub match_topic : List ℕ → List ℕ → Bool
match_topic pattern topic =
    if text_eq pattern topic || text_eq pattern (codes "#")
    then true
    else match_parts (split_on b'/' pattern) (split_on b'/' topic)

-- resolveBrokerAddress; a port that is not positive is 0 here.
pub resolve_broker_address : List ℕ → ℕ → List ℕ
resolve_broker_address broker port =
    let address =
      trim_prefix
        (trim_prefix (trim_prefix (trim_prefix broker (codes "tcp://")) (codes "ssl://"))
          (codes "tls://"))
        (codes "mqtt://") in
    if any_by (λ r. r == b':') address
    then address
    else address ++ (codes ":" ++ decimal (if port == 0 then 1883 else port))

-- What the client sends.
pub data Packet : Type 0 where
  publish : List ℕ → ℕ → Bool → ℕ → List ℕ → Packet
  puback pubrec pubrel pubcomp : ℕ → Packet
  subscribe : ℕ → List ℕ → ℕ → Packet
  pingreq disconnect_packet : Packet

-- What the broker sends: a publication has a topic, a quality of service, an identifier and a payload.
pub data Received : Type 0 where
  published : List ℕ → ℕ → ℕ → List ℕ → Received
  pubacked pubreced pubreled pubcomped subacked : ℕ → Received
  pingresp other : Received

pub record TcpClient : Type 0 where
  pub qos : ℕ
  pub conn : Option ℕ
  pub connected : Bool
  pub closed : Bool
  pub subscribers : List (List ℕ × List ℕ)
  pub pubacks : List (ℕ × Bool)
  pub subacks : List (ℕ × Bool)
  pub next_id : ℕ

pub new_tcp_client : ℕ → TcpClient
new_tcp_client qos = record {
  qos = qos;
  conn = none;
  connected = false;
  closed = false;
  subscribers = [];
  pubacks = [];
  subacks = [];
  next_id = 0;
}

-- nextMsgID, for a bound on the rounds of its loop: the identifier, if the loop has ended, and the
-- counter.
pub next_msg_id : ℕ → ℕ → Option ℕ × ℕ
next_msg_id zero id = (none, id)
next_msg_id (suc rounds) id =
    let next = (id + 1) % 2 ^ 32 in
    elim (next % 2 ^ 16 == 0) [
      | false ↦ (some (next % 2 ^ 16), next)
      | true ↦ next_msg_id rounds next
    ]

-- The end of Connect, after the broker has accepted.
pub accept : ℕ → TcpClient → TcpClient
accept conn c = record c { conn = some conn; connected = true; closed = false }

-- The handlers that dispatch starts: those of every pattern that matches.
pub dispatch : List ℕ → List (List ℕ × List ℕ) → List ℕ
dispatch topic [] = []
dispatch topic ((pattern, handlers) ∷ subscribers) =
    let rest = dispatch topic subscribers in
    if match_topic pattern topic then handlers ++ rest else rest

-- Why Publish fails.
pub data PublishError : Type 0 where
  err_not_connected write_failed publish_timeout : PublishError

-- writePacket: its error, and what is handed to the connection, which may fail.
unfoldable pub write_packet : Packet → Bool → TcpClient → Option PublishError × List Packet
write_packet p fails c = if not c.connected then (some err_not_connected, []) else write_on c.conn
  where
    write_on : Option ℕ → Option PublishError × List Packet
    write_on none = (some err_not_connected, [])
    write_on (some conn) = (if fails then some write_failed else none, p ∷ [])

-- writePacket, called for an answer of readLoop, which does not look at its error.
abbrev pub reply : Packet → TcpClient → List Packet
reply p c = (write_packet p false c).1

-- A send on the channel of an identifier, if it is there.
pub signal : ℕ → List (ℕ × Bool) → List (ℕ × Bool)
signal id acks = signal_at (lookup ◌==◌ id acks)
  where
    signal_at : Option Bool → List (ℕ × Bool)
    signal_at none = acks
    signal_at (some ready) = insert ◌==◌ id true acks

-- What readLoop answers to a publication.
abbrev pub answer_publish : ℕ → ℕ → TcpClient → List Packet
answer_publish qos id c =
    if qos == 1 then reply (puback id) c else (if qos == 2 then reply (pubrec id) c else [])

-- One round of readLoop: what is written, which handlers start, and the client behind it.
pub read_packet : Received → TcpClient → List Packet × List ℕ × TcpClient
read_packet (published topic qos id payload) c =
    (answer_publish qos id c, dispatch topic c.subscribers, c)
read_packet (pubacked id) c = ([], [], record c { pubacks = signal id c.pubacks })
read_packet (pubreced id) c = (reply (pubrel id) c, [], c)
read_packet (pubreled id) c = (reply (pubcomp id) c, [], c)
read_packet (pubcomped id) c = ([], [], record c { pubacks = signal id c.pubacks })
read_packet (subacked id) c = ([], [], record c { subacks = signal id c.subacks })
read_packet pingresp c = ([], [], c)
read_packet other c = ([], [], c)

-- handleDisconnect; whether it starts to reconnect.
pub handle_disconnect : ℕ → Bool → TcpClient → Bool × TcpClient
handle_disconnect dead auto_reconnect c = (not c.closed && auto_reconnect, lost c.conn)
  where
    lost : Option ℕ → TcpClient
    lost none = c
    lost (some conn) = if conn == dead then record c { conn = none; connected = false } else c

-- Disconnect, up to the bytes that it sends.
pub disconnect : TcpClient → TcpClient
disconnect c = if c.closed then c else record c { closed = true; connected = false; conn = none }

-- Where Publish stands: it has returned, it waits for the acknowledgement of an identifier, or the
-- bound on the rounds of nextMsgID was too small.
pub data Publishing : Type 0 where
  returned : Option PublishError → Publishing
  waiting : ℕ → Publishing
  out_of_rounds : Publishing

-- The deferred function of Publish.
abbrev pub forget_publish : ℕ → TcpClient → TcpClient
forget_publish id c = record c { pubacks = delete ◌==◌ id c.pubacks }

-- Publish with a quality of service above 0, from the identifier up to the wait.
pub publish_as :
    List ℕ → ℕ → Bool → List ℕ → Bool → Option ℕ → TcpClient → Publishing × List Packet × TcpClient
publish_as topic qos retained payload fails none c = (out_of_rounds, [], c)
publish_as topic qos retained payload fails (some id) c =
    let registered = record c { pubacks = insert ◌==◌ id false c.pubacks } in
    let written = write_packet (publish topic qos retained id payload) fails registered in
    elim written.0 [
      | some e ↦ (returned (some e), written.1, forget_publish id registered)
      | none ↦ (waiting id, written.1, registered)
    ]

-- Publish up to the wait, where it comes to one; `fails` says that the connection takes no packet.
pub begin_publish :
    List ℕ → ℕ → Bool → List ℕ → Bool → TcpClient → Publishing × List Packet × TcpClient
begin_publish topic qos retained payload fails c =
    let next = next_msg_id 2 c.next_id in
    let written = write_packet (publish topic 0 retained 0 payload) fails c in
    if not c.connected
    then (returned (some err_not_connected), [], c)
    else (if qos == 0
        then (returned written.0, written.1, c)
        else publish_as topic qos retained payload fails next.0 (record c { next_id = next.1 }))

-- The end of Publish behind the wait, with what the read loop has come to when the timeout is over:
-- its error, and the client.
pub end_publish : ℕ → TcpClient → Option PublishError × TcpClient
end_publish id c = (acked (lookup ◌==◌ id c.pubacks), forget_publish id c)
  where
    acked : Option Bool → Option PublishError
    acked none = some publish_timeout
    acked (some ready) = if ready then none else some publish_timeout

-- Subscribe's registration of the handler.
pub add_subscriber : List ℕ → ℕ → TcpClient → TcpClient
add_subscriber topic handler c = record c {
  subscribers = insert text_eq topic (added (lookup text_eq topic c.subscribers)) c.subscribers;
}
  where
    added : Option (List ℕ) → List ℕ
    added none = handler ∷ []
    added (some handlers) = handlers ++ handler ∷ []
