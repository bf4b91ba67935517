-- ===== src/Pdu/Septets.antt =====
-- internal/sms/pdu/gsm7.go: PackSeptets and UnpackSeptets. A byte slice is a list of numbers below
-- 256; `<<`, `>>` and the conversions to byte and uint16 are written as `*`, `/` and `%`.
pub mod Value
pub mod Unpack
pub mod Pack
pub mod RoundTrip
mod Runs
use gsm2mqtt.Base.{
  ℕ, zero, suc, ◌+◌, ◌-◌, ◌*◌, ◌/◌, ◌%◌, ◌^◌, ◌<◌, bit_and, bit_or, List, [], ◌∷◌, length, get_or,
  set, replicate, ltb, if◌then◌else◌, ◌&&◌,
}
use gsm2mqtt.Pdu.Types.{Result, ok, ◌>>=◌, index}

abbrev pub IsByte : ℕ → Type 0
IsByte b = b < 256

-- `octets[i] |= v`
abbrev pub or_at : List ℕ → ℕ → ℕ → List ℕ
or_at octets i v = set octets i (bit_or (get_or octets i 0) v)

-- The body of the packing loop for one septet at `bit_pos`.
pub pack_step : ℕ → ℕ → ℕ → List ℕ → List ℕ
pack_step num_octets bit_pos s octets =
    let val = bit_and s 0x7F in
    let byte_idx = bit_pos / 8 in
    let bit_offset = bit_pos % 8 in
    let octets' = or_at octets byte_idx (val * 2 ^ bit_offset % 2 ^ 16 % 256) in
    if ltb (byte_idx + 1) num_octets
    then or_at octets' (byte_idx + 1) (val / 2 ^ (8 - bit_offset) % 256)
    else octets'

pub pack_loop : ℕ → ℕ → List ℕ → List ℕ → List ℕ
pack_loop num_octets bit_pos [] octets = octets
pack_loop num_octets bit_pos (s ∷ septets) octets =
    pack_loop num_octets (bit_pos + 7) septets (pack_step num_octets bit_pos s octets)

abbrev pub octets_for : ℕ → ℕ → ℕ
octets_for start_bit n = (start_bit + n * 7 + 7) / 8

pub pack_septets : List ℕ → ℕ → List ℕ
pack_septets [] start_bit = []
pack_septets (s ∷ septets) start_bit =
    let num_octets = octets_for start_bit (length (s ∷ septets)) in
    pack_loop num_octets start_bit (s ∷ septets) (replicate num_octets 0)

-- The septet that starts at bit `bit_offset` of octet `byte_idx`.
pub septet_at : List ℕ → ℕ → ℕ → Result ℕ
septet_at octets byte_idx bit_offset = do
  val ←
      if ltb byte_idx (length octets)
      then (do octet ← index octets byte_idx; ok (octet / 2 ^ bit_offset))
      else ok 0
  val' ←
      if ltb 1 bit_offset && ltb (byte_idx + 1) (length octets)
      then (do
        octet ← index octets (byte_idx + 1)
        ok (bit_or val (octet * 2 ^ (8 - bit_offset) % 256)))
      else ok val
  ok (bit_and val' 0x7F)

pub unpack_loop : List ℕ → ℕ → ℕ → Result (List ℕ)
unpack_loop octets zero bit_pos = ok []
unpack_loop octets (suc n) bit_pos = do
  septet ← septet_at octets (bit_pos / 8) (bit_pos % 8)
  septets ← unpack_loop octets n (bit_pos + 7)
  ok (septet ∷ septets)

pub unpack_septets : List ℕ → ℕ → ℕ → Result (List ℕ)
unpack_septets octets num_septets start_bit = unpack_loop octets num_septets start_bit
