-- ===== src/Pdu/Address/RoundTrip.antt =====
-- Reading back an encoded number.
use gsm2mqtt.Base.{
  ℕ, ◌+◌, ◌*◌, ◌/◌, ◌%◌, ◌^◌, ◌≤◌, ◌<◌, bit_and, bit_or, List, [], ◌∷◌, ◌++◌, if◌then◌else◌, length,
  drop, ◌≡◌, inl, inr, refl, ap, ◌∙◌, arith, All, map, Bool-cases, All-append,
}
use gsm2mqtt.Base.Bits.{bit_and_mask, bit_or_fields, bit_or_lt}
use gsm2mqtt.Base.Text.{trim_space, codes}
use gsm2mqtt.Pdu.Address.{
  digits_in, pad_digits, pack_digits, encode_address, decode_digits, decode_address,
  is_international,
}

abbrev IsDigit : ℕ → Type 0
IsDigit d = d < 10

abbrev digit_chars : List ℕ → List ℕ
digit_chars = map (λ d. b'0' + d)

-- The nibbles of one packed octet.
nibbles :
    (d e : ℕ)
    → d < 16
    → e < 16
    → (bit_and (bit_or (e * 2 ^ 4 % 256) d) 0x0F ≡ d)
      × (bit_and (bit_or (e * 2 ^ 4 % 256) d / 2 ^ 4) 0x0F ≡ e)
nibbles d e hd he =
    let whole : bit_or (e * 2 ^ 4 % 256) d ≡ e * 16 + d =
      ap (λ (t : ℕ). bit_or t d) (omega arith) ∙ bit_or_fields 4 e d hd in
    rw whole (
      omega (arith, bit_and_mask 4 (e * 16 + d)),
      omega (arith, bit_and_mask 4 ((e * 16 + d) / 16)),
    )

decode_pair :
    (d e : ℕ) (bcd : List ℕ) (count read : ℕ)
    → IsDigit d
    → IsDigit e
    → read + 2 ≤ count
    → decode_digits (bit_or (e * 2 ^ 4 % 256) d ∷ bcd) count read
      ≡ (b'0' + d) ∷ (b'0' + e) ∷ decode_digits bcd count (read + 1 + 1)
unfolding decode_digits
decode_pair d e bcd count read hd he h = ground (arith, nibbles d e)

decode_last :
    (d : ℕ) (count read : ℕ)
    → IsDigit d
    → read + 1 ≡ count
    → decode_digits (bit_or (0x0F * 2 ^ 4 % 256) d ∷ []) count read ≡ (b'0' + d) ∷ []
unfolding decode_digits
decode_last d count read hd h = ground (arith, nibbles d 15)

pad_two : (d e : ℕ) (ds : List ℕ) → pad_digits (d ∷ e ∷ ds) ≡ d ∷ e ∷ pad_digits ds
pad_two d e ds = ground arith

decode_packed :
    (ds : List ℕ) (count read : ℕ)
    → All IsDigit ds
    → read + length ds ≡ count
    → decode_digits (pack_digits (pad_digits ds)) count read ≡ digit_chars ds
unfolding pack_digits
decode_packed [] count read h e = unfold decode_digits in refl
decode_packed (d ∷ []) count read h e = decode_last d count read h.0 (omega arith)
decode_packed (d ∷ f ∷ ds) count read h e = rw (pad_two d f ds) (
    decode_pair d f (pack_digits (pad_digits ds)) count read h.0 h.1.0 (omega arith)
    ∙ ap (λ (t : List ℕ). (b'0' + d) ∷ (b'0' + f) ∷ t)
        (decode_packed ds count (read + 1 + 1) h.1.1 (omega arith)))

digits_in-IsDigit : (s : List ℕ) → All IsDigit (digits_in s)
unfolding digits_in
digits_in-IsDigit [] = tt
digits_in-IsDigit (r ∷ s) = ground (arith, digits_in-IsDigit s)

-- The number that an encoded address stands for: `+` for an international one, and its digits.
abbrev pub canonical : List ℕ → List ℕ
canonical number =
    let clean = trim_space number in
    (if is_international clean then codes "+" else [])
    ++ digit_chars (digits_in (if is_international clean then drop 1 clean else clean))

length-digits_in_tail : (s : List ℕ) → length (digits_in (drop 1 s)) ≤ length (digits_in s)
length-digits_in_tail [] = unfold digits_in in omega arith
length-digits_in_tail (r ∷ s) = unfold digits_in in ground arith

decode_encoded :
    (ds : List ℕ)
    → All IsDigit ds
    → length ds < 256
    → decode_digits (pack_digits (pad_digits ds)) (length ds % 256) 0 ≡ digit_chars ds
decode_encoded ds h k = decode_packed ds (length ds % 256) 0 h (omega arith)

-- For a number of fewer than 256 digits, the encoded address reads back as its sign and digits.
pub decode_address-encode_address :
    (number : List ℕ)
    → length (digits_in (trim_space number)) < 256
    → decode_address
        (encode_address number).bcd
        (encode_address number).digit_count
        (encode_address number).type_of_addr
      ≡ canonical number
unfolding decode_address encode_address
decode_address-encode_address number h = elim (Bool-cases (is_international (trim_space number))) [
  | inl e ↦
      let ds : List ℕ = digits_in (drop 1 (trim_space number)) in
      rw e (
        ap (λ (t : List ℕ). codes "+" ++ t)
          (decode_encoded ds (digits_in-IsDigit (drop 1 (trim_space number)))
            (omega (arith, length-digits_in_tail (trim_space number)))))
  | inr e ↦
      rw e
        (decode_encoded (digits_in (trim_space number)) (digits_in-IsDigit (trim_space number)) h)
]

pack_digits-IsByte : (ds : List ℕ) → All (λ d. d < 16) ds → All (λ b. b < 256) (pack_digits ds)
unfolding pack_digits
pack_digits-IsByte [] h = tt
pack_digits-IsByte (d ∷ []) h = tt
pack_digits-IsByte (d ∷ e ∷ ds) h =
    (bit_or_lt 8 (e * 2 ^ 4 % 256) d (omega arith) (omega arith), pack_digits-IsByte ds h.1.1)

pad_digits-IsNibble : (ds : List ℕ) → All IsDigit ds → All (λ d. d < 16) (pad_digits ds)
pad_digits-IsNibble ds h =
    ground (arith, All-append (λ d. d < 16) ds (0x0F ∷ []) (wide ds h) (omega arith), wide ds h)
  where
    wide : (ds : List ℕ) → All IsDigit ds → All (λ d. d < 16) ds
    wide [] h = tt
    wide (d ∷ ds) h = (omega arith, wide ds h.1)

-- All octets of an encoded address are bytes.
pub encode_address-IsByte :
    (number : List ℕ)
    → ((encode_address number).digit_count < 256)
      × ((encode_address number).type_of_addr < 256)
      × All (λ b. b < 256) (encode_address number).bcd
unfolding encode_address
encode_address-IsByte number = (
  omega arith,
  ground arith,
  pack_digits-IsByte _ (
      pad_digits-IsNibble _ (
        digits_in-IsDigit (
          if is_international (trim_space number)
          then drop 1 (trim_space number)
          else trim_space number))),
)

length-packed : (ds : List ℕ) → length (pack_digits (pad_digits ds)) ≡ (length ds + 1) / 2
unfolding pack_digits
length-packed [] = refl
length-packed (d ∷ []) = refl
length-packed (d ∷ e ∷ ds) = rw (pad_two d e ds) (omega (arith, length-packed ds))

-- A reader finds the end of the digits from their count.
pub length-bcd :
    (number : List ℕ)
    → length (digits_in (trim_space number)) < 256
    → length (encode_address number).bcd ≡ ((encode_address number).digit_count + 1) / 2
unfolding encode_address
length-bcd number h = elim (Bool-cases (is_international (trim_space number))) [
  | inl e ↦ rw e (
      omega (
        arith,
        length-packed (digits_in (drop 1 (trim_space number))),
        length-digits_in_tail (trim_space number),
      ))
  | inr e ↦ rw e (omega (arith, length-packed (digits_in (trim_space number))))
]
