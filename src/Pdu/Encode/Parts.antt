-- ===== src/Pdu/Encode/Parts.antt =====
-- A whole message, from EncodeSMS to the texts that a receiver reads.
use gsm2mqtt.Base.{
  ℕ, ◌+◌, ◌≤◌, ◌<◌, Bool, false, List, [], ◌∷◌, leb, length, ◌≡◌, refl, ap, ◌∙◌, sym, arith, All,
  All-concat, All-map2, map, concat, append-nil, Bool-cases, inl, inr, subst, ◌⊎◌, suc, ◌++◌,
}
use gsm2mqtt.Base.Text.{trim_space, is_empty}
use gsm2mqtt.Pdu.Types.{Encoding, gsm7, ucs2, DecodedSms, Pdu, ok}
use gsm2mqtt.Pdu.Alphabet.RoundTrip.{IsBasic, IsBasic-all}
use gsm2mqtt.Pdu.Ucs2.RoundTrip.{IsScalar}
use gsm2mqtt.Pdu.Address.{digits_in}
use gsm2mqtt.Pdu.Encode.{count_units, split_chunks, encode_parts, encode_selected, next_ref_number}
use gsm2mqtt.Pdu.Encode.Chunks.{split_chunks_lem, FitsUnits, FitsRunes}
use gsm2mqtt.Pdu.Encode.Message.{read_hex, read_single-gsm7, read_single-ucs2}
use gsm2mqtt.Pdu.Encode.Reading.{
  read_all, parts_read, Readable, texts-parts_read, read_all-encode_parts, next_ref_number-lt,
  length-encode_ucs2, filled_units, filled-length, ucs2_chunk, gsm7_chunk,
}

-- The messages of one reference and total, numbered in their order from `part` on.
abbrev pub Numbered : ℕ → ℕ → ℕ → List DecodedSms → Type 0
Numbered ref total part [] = Unit
Numbered ref total part (m ∷ ms) =
    (m.reference ≡ ref)
    × (m.total_parts ≡ total)
    × (m.part_number ≡ part)
    × Numbered ref total (part + 1) ms

parts_read-Numbered :
    (res : DecodedSms) (ref total part : ℕ) (cs : List (List ℕ))
    → Numbered ref total part (parts_read res ref total part cs)
parts_read-Numbered res ref total part [] = tt
parts_read-Numbered res ref total part (c ∷ cs) =
    (refl, refl, refl, parts_read-Numbered res ref total (part + 1) cs)

length-parts_read :
    (res : DecodedSms) (ref total part : ℕ) (cs : List (List ℕ))
    → length (parts_read res ref total part cs) ≡ length cs
length-parts_read res ref total part [] = refl
length-parts_read res ref total part (c ∷ cs) =
    ap (λ (n : ℕ). suc n) (length-parts_read res ref total (part + 1) cs)

-- What a receiver reads from the units puts the text together: as one message without a header, or
-- as two or more numbered from 1 up to the total that each of them tells, all of the reference.
abbrev pub Delivers : DecodedSms → ℕ → List ℕ → List Pdu → Type 0
Delivers res ref text pdus =
    (read_all res pdus ≡ ok ((record res { text = text }) ∷ []))
    ⊎ ((ms : List DecodedSms) × (read_all res pdus ≡ ok ms)
        × (concat (map (λ (m : DecodedSms). m.text) ms) ≡ text)
        × (1 < length ms)
        × Numbered ref (length ms) 1 ms)

-- A text longer than a part has at least two.
several :
    (size : List ℕ → ℕ) (limit : ℕ) (cs : List (List ℕ))
    → size [] ≤ limit
    → All (λ (c : List ℕ). size c ≤ limit) cs
    → limit < size (concat cs)
    → 1 < length cs
several size limit [] h fit long = absurd (omega arith)
several size limit (c ∷ []) h fit long =
    let whole : size (c ++ []) ≡ size c = ap size (append-nil c) in absurd (omega (arith, fit.0))
several size limit (c ∷ d ∷ cs) h fit long = omega arith

module _ (res : DecodedSms) (recipient : List ℕ)
    (fits : length (digits_in (trim_space recipient)) < 256) where
  Delivers-single :
      (ref : ℕ) (p : Pdu) (text : List ℕ)
      → read_hex res p.hex ≡ ok (record res { text = text })
      → Delivers res ref text (p ∷ [])
  unfolding read_all
  Delivers-single ref p text h = inl (rw h refl)

  Delivers-parts :
      (enc : Encoding) (cs : List (List ℕ)) (text : List ℕ) (srr : Bool) (n : ℕ)
      → length cs < 256
      → All (Readable enc) cs
      → 1 < length cs
      → concat cs ≡ text
      → Delivers res
          (next_ref_number n)
          text
          (encode_parts recipient cs enc srr (next_ref_number n) 1 (length cs))
  Delivers-parts enc cs text srr n few readable many whole =
      let count = length-parts_read res (next_ref_number n) (length cs) 1 cs in
      inr (
        parts_read res (next_ref_number n) (length cs) 1 cs,
        read_all-encode_parts res recipient fits srr (next_ref_number n) (length cs)
            (next_ref_number-lt n) few enc 1 cs (omega arith) readable,
        ap concat (texts-parts_read res (next_ref_number n) (length cs) 1 cs) ∙ whole,
        omega (arith, count),
        subst
            (λ (n' : ℕ).
              Numbered (next_ref_number n) n' 1
                (parts_read res (next_ref_number n) (length cs) 1 cs))
            (sym count) (parts_read-Numbered res (next_ref_number n) (length cs) 1 cs),
      )

  module _ (ref_counter : ℕ) (text : List ℕ) (srr : Bool) (filled : is_empty text ≡ false) where
    pub selected-ucs2 :
        All IsScalar text
        → length (split_chunks text ucs2 67) < 256
        → Delivers res
            (next_ref_number ref_counter)
            text
            (encode_selected ref_counter recipient text ucs2 srr).0
    unfolding encode_selected
    selected-ucs2 h few = elim (Bool-cases (leb (count_units text) 70)) [
      | inl e ↦ rw e (
          Delivers-single _ _ text (
            read_single-ucs2 res recipient fits text srr h
              (omega (arith, length-encode_ucs2 text h, filled_units text filled))
              (ground (arith, length-encode_ucs2 text h))))
      | inr e ↦
          let cut = split_chunks_lem text ucs2 67 (omega arith) in
          let scalars =
            All-concat IsScalar (split_chunks text ucs2 67) (subst (All IsScalar) (sym cut.0) h) in
          rw e (
            Delivers-parts ucs2 (split_chunks text ucs2 67) text srr ref_counter few
              (All-map2 (All IsScalar) ucs2_chunk (split_chunks text ucs2 67) scalars cut.1)
              (several count_units 67 (split_chunks text ucs2 67)
                (unfold count_units in omega arith)
                (All-map2 (FitsUnits 67) (λ c f g. f.0) (split_chunks text ucs2 67) cut.1 cut.1)
                (rw cut.0 (ground (arith, e))))
              cut.0)
    ]

    pub selected-gsm7 :
        All IsBasic text
        → length (split_chunks text gsm7 153) < 256
        → Delivers res
            (next_ref_number ref_counter)
            text
            (encode_selected ref_counter recipient text gsm7 srr).0
    unfolding encode_selected
    selected-gsm7 h few = elim (Bool-cases (leb (length text) 160)) [
      | inl e ↦
          let plain = IsBasic-all text h in
          rw e (
            Delivers-single _ _ text (
              read_single-gsm7 res recipient fits text srr plain.0
                (omega (arith, plain.1, filled-length text filled)) (ground (arith, plain.1))))
      | inr e ↦
          let cut = split_chunks_lem text gsm7 153 (omega arith) in
          let basics =
            All-concat IsBasic (split_chunks text gsm7 153) (subst (All IsBasic) (sym cut.0) h) in
          rw e (
            Delivers-parts gsm7 (split_chunks text gsm7 153) text srr ref_counter few
              (All-map2 (All IsBasic) gsm7_chunk (split_chunks text gsm7 153) basics cut.1)
              (several length 153 (split_chunks text gsm7 153) (omega arith)
                (All-map2 (FitsRunes 153) (λ c f g. f.0) (split_chunks text gsm7 153) cut.1 cut.1)
                (rw cut.0 (ground (arith, e))))
              cut.0)
    ]
