-- ===== src/Pdu/Encode/Frame.antt =====
-- The octets of a unit that buildPDU writes as hex text.
use gsm2mqtt.Base.{
  ℕ, ◌/◌, ◌<◌, Bool, List, [], ◌∷◌, ◌++◌, length, ◌≡◌, refl, ap, ◌∙◌, arith, All, All-append, some,
}
use gsm2mqtt.Base.Text.{
  hex_string, decode_hex, decode_hex-hex_string, length-hex_string, hex_string-append, codes,
}
use gsm2mqtt.Pdu.Types.{Encoding, Pdu}
use gsm2mqtt.Pdu.Septets.{IsByte}
use gsm2mqtt.Pdu.Address.{encode_address, format_address_hex}
use gsm2mqtt.Pdu.Address.RoundTrip.{encode_address-IsByte}
use gsm2mqtt.Pdu.Encode.{build_pdu}

-- The octets of the TPDU: header fields, address, user data.
abbrev pub tpdu : List ℕ → ℕ → ℕ → ℕ → List ℕ → List ℕ
tpdu recipient first_octet dcs udl ud =
    let a = encode_address recipient in
    first_octet ∷ 0x00 ∷ a.digit_count ∷ a.type_of_addr ∷ (a.bcd ++ 0x00 ∷ dcs ∷ 0xAA ∷ udl ∷ ud)

module _ (recipient : List ℕ) (first_octet dcs udl : ℕ) (ud : List ℕ) where
  tpdu_hex :
      hex_string (first_octet ∷ [])
        ++ (codes "00"
            ++ (format_address_hex recipient
                ++ (codes "00"
                    ++ (hex_string (dcs ∷ [])
                        ++ (codes "AA" ++ (hex_string (udl ∷ []) ++ hex_string ud))))))
      ≡ hex_string (tpdu recipient first_octet dcs udl ud)
  unfolding hex_string format_address_hex
  tpdu_hex = simp hex_string-append

  module _ (has_udh : Bool) (enc : Encoding) (part_num total_parts : ℕ) where
    abbrev built : Pdu
    built = build_pdu recipient first_octet dcs udl (hex_string ud) has_udh enc part_num total_parts

    build_pdu-hex : built.hex ≡ hex_string (0x00 ∷ tpdu recipient first_octet dcs udl ud)
    unfolding build_pdu
    build_pdu-hex = ap (λ (t : List ℕ). codes "00" ++ t) tpdu_hex ∙ (unfold hex_string in refl)

    build_pdu-command_length : built.command_length ≡ length (tpdu recipient first_octet dcs udl ud)
    unfolding build_pdu
    build_pdu-command_length =
        ap (λ (t : List ℕ). length t / 2) tpdu_hex
        ∙ omega (arith, length-hex_string (tpdu recipient first_octet dcs udl ud))

    tpdu-IsByte :
        first_octet < 256
        → dcs < 256
        → udl < 256
        → All IsByte ud
        → All IsByte (tpdu recipient first_octet dcs udl ud)
    tpdu-IsByte hf hd hu h =
        let a = encode_address-IsByte recipient in
        (
          hf,
          (
            omega arith,
            (
              a.0,
              (
                a.1,
                All-append IsByte (encode_address recipient).bcd (0x00 ∷ dcs ∷ 0xAA ∷ udl ∷ ud) a.2
                    (omega arith, (hd, (omega arith, (hu, h)))),
              ),
            ),
          ),
        )

    -- The hex text is that of a zero octet for the service centre and of the TPDU, whose length
    -- the command names.
    pub build_pdu_lem :
        first_octet < 256
        → dcs < 256
        → udl < 256
        → All IsByte ud
        → (decode_hex built.hex ≡ some (0x00 ∷ tpdu recipient first_octet dcs udl ud))
          × (built.command_length ≡ length (tpdu recipient first_octet dcs udl ud))
    build_pdu_lem hf hd hu h = (
      ap decode_hex build_pdu-hex
          ∙ decode_hex-hex_string (0x00 ∷ tpdu recipient first_octet dcs udl ud)
              (omega arith, tpdu-IsByte hf hd hu h),
      build_pdu-command_length,
    )
