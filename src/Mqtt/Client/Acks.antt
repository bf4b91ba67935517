-- ===== src/Mqtt/Client/Acks.antt =====
-- internal/mqtt/client_tcp.go: a publication that waits for its acknowledgement.
use gsm2mqtt.Base.{
  ℕ, ◌<◌, ◌^◌, arith, none, Bool, true, false, ◌||◌, some, List, [], ◌∷◌, ◌==◌, ==_iff,
  if◌then◌else◌, any_by, Bool-cases, Option-cases, ◌≡◌, ◌≢◌, refl, ap, ◌∙◌, inl, inr,
}
use gsm2mqtt.Base.Maps.{
  lookup, insert, lookup-insert_same, lookup-insert_other, lookup-delete_same, eq_same,
}
use gsm2mqtt.Mqtt.Client.Ids.{IsMsgId, next_msg_id_lem}
use gsm2mqtt.Mqtt.Client.{
  publish, Received, pubacked, pubcomped, TcpClient, signal, read_packet, next_msg_id, write_failed,
  err_not_connected, publish_timeout, write_packet, returned, waiting, forget_publish, publish_as,
  begin_publish, end_publish,
}

-- The broker's last word on a publication with this identifier.
abbrev pub is_ack_of : ℕ → Received → Bool
is_ack_of id (pubacked i) = i == id
is_ack_of id (pubcomped i) = i == id
is_ack_of id _ = false

-- The client behind all packets that come in.
abbrev pub read_all : List Received → TcpClient → TcpClient
read_all [] c = c
read_all (p ∷ packets) c = read_all packets (read_packet p c).2

signal_same :
    (id : ℕ) (ready : Bool) (acks : List (ℕ × Bool))
    → lookup ◌==◌ id acks ≡ some ready
    → lookup ◌==◌ id (signal id acks) ≡ some true
unfolding signal
signal_same id ready acks h = rw h (lookup-insert_same ◌==◌ ==_iff id true acks)

signal_other :
    (id i : ℕ) (acks : List (ℕ × Bool))
    → i ≢ id
    → lookup ◌==◌ id (signal i acks) ≡ lookup ◌==◌ id acks
unfolding signal
signal_other id i acks ne = elim (Option-cases (lookup ◌==◌ i acks)) [
  | inl e ↦ rw (signal, e) refl
  | inr e ↦ rw (signal, e.1) (lookup-insert_other ◌==◌ ==_iff id i true acks ne)
]

module _ (id : ℕ) (ready : Bool) (acks : List (ℕ × Bool))
    (h : lookup ◌==◌ id acks ≡ some ready) where
  plain : lookup ◌==◌ id acks ≡ some (ready || false)
  plain = elim (Bool-cases ready) [ inl e ↦ rw (h, e) refl | inr e ↦ rw (h, e) refl ]

  signalled : (i : ℕ) → lookup ◌==◌ id (signal i acks) ≡ some (ready || (i == id))
  signalled i = elim (Bool-cases (i == id)) [
    | inl e ↦
        let same : i ≡ id = (==_iff i id).0 e in
        rw (same, eq_same ◌==◌ ==_iff id, signal_same id ready acks h)
          (elim (Bool-cases ready) [ inl r ↦ rw r refl | inr r ↦ rw r refl ])
    | inr e ↦ rw (e, signal_other id i acks (λ same. let on = (==_iff i id).1 same in cc)) plain
  ]

read_one :
    (id : ℕ) (ready : Bool) (p : Received) (c : TcpClient)
    → lookup ◌==◌ id c.pubacks ≡ some ready
    → lookup ◌==◌ id (read_packet p c).2.pubacks ≡ some (ready || is_ack_of id p)
unfolding read_packet
read_one id ready (pubacked i) c h = signalled id ready c.pubacks h i
read_one id ready (pubcomped i) c h = signalled id ready c.pubacks h i
read_one id ready _ c h = plain id ready c.pubacks h

read_all_lem :
    (id : ℕ) (ready : Bool) (packets : List Received) (c : TcpClient)
    → lookup ◌==◌ id c.pubacks ≡ some ready
    → lookup ◌==◌ id (read_all packets c).pubacks ≡ some (ready || any_by (is_ack_of id) packets)
read_all_lem id ready [] c h = elim (Bool-cases ready) [
  | inl e ↦ rw (h, e) refl
  | inr e ↦ rw (h, e) refl
]
read_all_lem id ready (p ∷ packets) c h =
    read_all_lem id (ready || is_ack_of id p) packets (read_packet p c).2 (read_one id ready p c h)
    ∙ ap some (joins ready (is_ack_of id p))
  where
    joins :
        (a b : Bool)
        → ((a || b) || any_by (is_ack_of id) packets)
          ≡ (a || (if b then true else any_by (is_ack_of id) packets))
    joins true b = refl
    joins false true = refl
    joins false false = refl

module _ (topic : List ℕ) (qos : ℕ) (retained : Bool) (payload : List ℕ) (conn : ℕ) (c : TcpClient)
    (on : c.connected ≡ true) (has_conn : c.conn ≡ some conn) (above : 0 < qos) where
  -- Publish on a connection, up to the wait.
  begin_publish-connected :
      (fails : Bool)
      → begin_publish topic qos retained payload fails c ≡ (
          let next = next_msg_id 2 c.next_id in
          publish_as topic qos retained payload fails next.0 (record c { next_id = next.1 }))
  unfolding begin_publish
  begin_publish-connected fails = let off : (qos == 0) ≡ false = ground arith in rw (on, off) refl

  publish_as-connected :
      (fails : Bool) (id n : ℕ)
      → let registered = record c { next_id = n; pubacks = insert ◌==◌ id false c.pubacks } in
        publish_as topic qos retained payload fails (some id) (record c { next_id = n }) ≡ (
          if fails
          then (
            returned (some write_failed),
            publish topic qos retained id payload ∷ [],
            forget_publish id registered,
          )
          else (waiting id, publish topic qos retained id payload ∷ [], registered))
  unfolding publish_as write_packet
  publish_as-connected true id n = rw (on, has_conn) refl
  publish_as-connected false id n = rw (on, has_conn) refl

  -- Publish with a quality of service above 0, on a client that is connected and has a connection:
  -- for an identifier from 1 to 65535, one packet is written, the PUBLISH with the topic, the quality
  -- of service, the retain flag, the identifier and the payload. If the connection takes it, Publish
  -- waits, and after any packets of the broker it returns no error exactly if a PUBACK or a PUBCOMP
  -- with its identifier is among them, and that of the timeout else; if the connection fails, it
  -- returns that error. Either way no channel is left for the identifier. The same client with the
  -- flag of the connection cleared writes nothing, is not changed and returns ErrNotConnected.
  pub end_publish-begin_publish :
      (packets : List Received)
      → c.next_id < 2 ^ 32
      → (id : ℕ) × IsMsgId id
        × (let waits = begin_publish topic qos retained payload false c in
            let ends = end_publish id (read_all packets waits.2) in
            (waits.0 ≡ waiting id)
            × (waits.1 ≡ publish topic qos retained id payload ∷ [])
            × (ends.0 ≡ (if any_by (is_ack_of id) packets then none else some publish_timeout))
            × (lookup ◌==◌ id ends.1.pubacks ≡ none))
        × (let failed = begin_publish topic qos retained payload true c in
            (failed.0 ≡ returned (some write_failed))
            × (failed.1 ≡ publish topic qos retained id payload ∷ [])
            × (lookup ◌==◌ id failed.2.pubacks ≡ none))
        × ((fails : Bool)
            → begin_publish topic qos retained payload fails (record c { connected = false })
              ≡ (returned (some err_not_connected), [], record c { connected = false }))
  unfolding end_publish begin_publish
  end_publish-begin_publish packets bound =
      let (id, other, found, again, ranged, other_ranged, differ) =
        next_msg_id_lem 0 c.next_id bound in
      let n : ℕ = (next_msg_id 2 c.next_id).1 in
      let registered : TcpClient = record c {
        next_id = n;
        pubacks = insert ◌==◌ id false c.pubacks;
      } in
      let waits : begin_publish topic qos retained payload false c
          ≡ (waiting id, publish topic qos retained id payload ∷ [], registered) =
        rw (begin_publish-connected false, found) (publish_as-connected false id n) in
      let failed : begin_publish topic qos retained payload true c ≡ (
        returned (some write_failed),
        publish topic qos retained id payload ∷ [],
        forget_publish id registered,
      ) =
        rw (begin_publish-connected true, found) (publish_as-connected true id n) in
      (
        id,
        ranged,
        rw waits (
          refl,
          refl,
          rw
              (read_all_lem id false packets registered
                (lookup-insert_same ◌==◌ ==_iff id false c.pubacks))
              refl,
          lookup-delete_same ◌==◌ ==_iff id (read_all packets registered).pubacks,
        ),
        rw failed (refl, refl, lookup-delete_same ◌==◌ ==_iff id registered.pubacks),
        λ fails. refl,
      )
