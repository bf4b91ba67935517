-- ===== src/Pdu/Septets/RoundTrip.antt =====
-- Packing and unpacking at the same start bit give the septets back.
use gsm2mqtt.Base.{
  ℕ, ◌/◌, ◌%◌, ◌^◌, ◌<◌, List, [], ◌∷◌, length, All, ◌≡◌, refl, ap, ap₂, ◌∙◌, arith,
}
use gsm2mqtt.Pdu.Types.{ok}
use gsm2mqtt.Pdu.Septets.{pack_septets, unpack_septets}
use gsm2mqtt.Pdu.Septets.Unpack.{digits_of, unpack_septets-digits_of}
use gsm2mqtt.Pdu.Septets.Pack.{septets_value, pack_septets-value}
use native.Mathlib.Nat.{mul-div_left, one-le-pow}

abbrev pub IsSeptet : ℕ → Type 0
IsSeptet s = s < 128

digits_of-septets_value :
    (ss : List ℕ) → All IsSeptet ss → digits_of (length ss) (septets_value ss) ≡ ss
digits_of-septets_value [] h = refl
digits_of-septets_value (s ∷ ss) h =
    let first : septets_value (s ∷ ss) % 128 ≡ s = omega arith in
    let rest : septets_value (s ∷ ss) / 128 ≡ septets_value ss = omega arith in
    ap₂ ◌∷◌ first (ap (digits_of (length ss)) rest ∙ digits_of-septets_value ss h.1)

-- For septets below 128 and any start bit, unpacking as many septets as were packed, at the same
-- start bit, gives those septets.
pub unpack-pack :
    (ss : List ℕ) (start_bit : ℕ)
    → All IsSeptet ss
    → unpack_septets (pack_septets ss start_bit) (length ss) start_bit ≡ ok ss
unpack-pack ss start_bit h =
    unpack_septets-digits_of (pack_septets ss start_bit) (length ss) start_bit
      (pack_septets-value ss start_bit).1
    ∙ ap (λ (l : List ℕ). ok l)
        (ap (λ (t : ℕ). digits_of (length ss) (t / 2 ^ start_bit))
            (pack_septets-value ss start_bit).0
          ∙ ap (digits_of (length ss))
              (mul-div_left (septets_value ss) (one-le-pow start_bit 2 (omega arith)))
          ∙ digits_of-septets_value ss h)
