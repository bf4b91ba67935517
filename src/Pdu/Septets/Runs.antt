-- ===== src/Pdu/Septets/Runs.antt =====
-- The septets of "hello" packed and read back, and the theorems at concrete inputs.
use gsm2mqtt.Base.{ℕ, ◌≡◌, refl, arith, List, [], ◌∷◌}
use gsm2mqtt.Pdu.Types.{ok, index}
use gsm2mqtt.Pdu.Septets.{
  pack_septets, unpack_septets, pack_loop, pack_step, unpack_loop, septet_at,
}
use gsm2mqtt.Pdu.Septets.RoundTrip.{unpack-pack}

abbrev hello : List ℕ
hello = b'h' ∷ b'e' ∷ b'l' ∷ b'l' ∷ b'o' ∷ []

pack_hello : pack_septets hello 0 ≡ 0xE8 ∷ 0x32 ∷ 0x9B ∷ 0xFD ∷ 0x06 ∷ []
unfolding pack_septets pack_loop pack_step
pack_hello = refl

unpack_hello : unpack_septets (0xE8 ∷ 0x32 ∷ 0x9B ∷ 0xFD ∷ 0x06 ∷ []) 5 0 ≡ ok hello
unfolding index unpack_septets unpack_loop septet_at
unpack_hello = refl

unpack-pack_example : unpack_septets (pack_septets hello 1) 5 1 ≡ ok hello
unpack-pack_example = unpack-pack hello 1 (omega arith)
