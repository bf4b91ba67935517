-- ===== src/Mqtt/Client/Ids.antt =====
-- internal/mqtt/client_tcp.go: the identifiers of packets.
use gsm2mqtt.Base.{
  ℕ, suc, ◌+◌, ◌%◌, ◌^◌, ◌<◌, false, some, ◌==◌, if◌then◌else◌, Bool-cases, ◌≡◌, ◌≢◌, refl, inl,
  inr, arith,
}
use gsm2mqtt.Mqtt.Client.{next_msg_id}

-- An identifier that MQTT allows.
abbrev pub IsMsgId : ℕ → Type 0
IsMsgId v = (0 < v) × (v < 65536)

-- The counter behind the loop: at most one value of it is passed over.
abbrev settled : ℕ → ℕ
settled id =
    let next = (id + 1) % 2 ^ 32 in if next % 2 ^ 16 == 0 then (next + 1) % 2 ^ 32 else next

next_msg_id-settled :
    (rounds id : ℕ)
    → id < 2 ^ 32
    → next_msg_id (suc (suc rounds)) id ≡ (some (settled id % 2 ^ 16), settled id)
unfolding next_msg_id
next_msg_id-settled rounds id h = elim (Bool-cases ((id + 1) % 2 ^ 32 % 2 ^ 16 == 0)) [
  | inl e ↦
      let after : (((id + 1) % 2 ^ 32 + 1) % 2 ^ 32 % 2 ^ 16 == 0) ≡ false = ground (arith, e) in
      rw (next_msg_id, e, next_msg_id, after) refl
  | inr e ↦ rw (next_msg_id, e) refl
]

-- The next identifier of 1 to 65535, behind the last one 1 again.
low-settled :
    (id : ℕ)
    → id < 2 ^ 32
    → settled id % 65536 ≡ (if id % 65536 == 65535 then 1 else id % 65536 + 1)
low-settled id h = ground arith

settled-lt : (id : ℕ) → settled id < 2 ^ 32
settled-lt id = ground arith

follower : (c v : ℕ) → v ≡ (if c == 65535 then 1 else c + 1) → c < 65536 → IsMsgId v × (c ≢ v)
follower c v e h = (ground (arith, e), λ same. ground (arith, e, same))

-- With a bound of two rounds or more, the loop of nextMsgID ends, from any value of the counter, with
-- an identifier from 1 to 65535, and the next call gives another one.
pub next_msg_id_lem :
    (rounds id : ℕ)
    → id < 2 ^ 32
    → let first = next_msg_id (suc (suc rounds)) id in
      (v w : ℕ) × (first.0 ≡ some v)
      × ((next_msg_id (suc (suc rounds)) first.1).0 ≡ some w)
      × IsMsgId v
      × IsMsgId w
      × (v ≢ w)
next_msg_id_lem rounds id h =
    let low = low-settled id h in
    let low1 = low-settled (settled id) (settled-lt id) in
    (
      settled id % 65536,
      settled (settled id) % 65536,
      rw (next_msg_id-settled rounds id h) refl,
      rw (next_msg_id-settled rounds id h, next_msg_id-settled rounds (settled id) (settled-lt id))
          refl,
      (follower (id % 65536) (settled id % 65536) low (omega arith)).0,
      (follower (settled id % 65536) (settled (settled id) % 65536) low1 (omega arith)).0,
      (follower (settled id % 65536) (settled (settled id) % 65536) low1 (omega arith)).1,
    )
