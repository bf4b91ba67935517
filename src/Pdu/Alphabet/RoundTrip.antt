-- ===== src/Pdu/Alphabet/RoundTrip.antt =====
-- Decoding what EncodeGSM7 wrote.
use gsm2mqtt.Base.{
  ℕ, suc, ◌+◌, ◌-◌, ◌≤◌, ◌<◌, true, false, Option, none, some, List, [], ◌∷◌, ◌++◌, ◌==◌,
  if◌then◌else◌, ◌≡◌, ◌≢◌, ◌⊎◌, inl, inr, refl, ap, ◌∙◌, arith, All, get_or, length, Bool-cases,
  Option-cases, All-append, length-append, lt→ltb, subst,
}
use gsm2mqtt.Pdu.Alphabet.{
  gsm7_basic_table, gsm7_extension_table, basic_index, rune_to_gsm7_basic, ext_code,
  rune_to_gsm7_ext, ext_rune, is_gsm7, rune_septets, encode_gsm7, decode_gsm7,
}
use gsm2mqtt.Pdu.Septets.RoundTrip.{IsSeptet, unpack-pack}
use gsm2mqtt.Pdu.Types.{ok, ◌>>=◌}
use gsm2mqtt.Pdu.Septets.{pack_septets, unpack_septets}

-- `b` is an index of `r` in a table that begins at index `i`, and is not ESC.
abbrev IsIndex : ℕ → ℕ → List ℕ → ℕ → Type 0
IsIndex r i xs b = (i ≤ b) × (b < i + length xs) × (get_or xs (b - i) 0 ≡ r) × (b ≢ 0x1B)

IsIndex-head : (r i x : ℕ) (xs : List ℕ) (b : ℕ) → b ≡ i → x ≡ r → i ≢ 0x1B → IsIndex r i (x ∷ xs) b
IsIndex-head r i x xs b e h n =
    let z : b - i ≡ 0 = omega arith in (omega arith, omega arith, rw z h, omega arith)

IsIndex-tail : (r i x : ℕ) (xs : List ℕ) (b : ℕ) → IsIndex r (suc i) xs b → IsIndex r i (x ∷ xs) b
IsIndex-tail r i x xs b h =
    let z : b - i ≡ suc (b - suc i) = omega arith in (omega arith, omega arith, rw z h.2, h.3)

basic_index_sound :
    (r i : ℕ) (found : Option ℕ) (xs : List ℕ) (b : ℕ)
    → basic_index r i found xs ≡ some b
    → (found ≡ some b) ⊎ IsIndex r i xs b
unfolding basic_index
basic_index_sound r i found [] b h = inl h
basic_index_sound r i found (x ∷ xs) b h = elim (basic_index_sound r (suc i) _ xs b h) [
  | inr t ↦ inr (IsIndex-tail r i x xs b t)
  | inl e ↦ ground (arith, IsIndex-head r i x xs b)
]

-- The septet found for a rune of the basic table reads back as that rune.
basic_sound :
    (r b : ℕ)
    → rune_to_gsm7_basic r ≡ some b
    → (b < 128) × (get_or gsm7_basic_table b 0 ≡ r) × (b ≢ 0x1B)
unfolding rune_to_gsm7_basic
basic_sound r b h = elim (basic_index_sound r 0 none gsm7_basic_table b h) [
  | inl e ↦ cc
  | inr t ↦ let z : b - 0 ≡ b = omega arith in (omega arith, rw z at t.2, t.3)
]

ext_code_sound :
    (P : ℕ × ℕ → Type 0) (r : ℕ) (found : Option ℕ) (xs : List (ℕ × ℕ)) (c : ℕ)
    → All P xs
    → ext_code r found xs ≡ some c
    → (found ≡ some c) ⊎ P (c, r)
unfolding ext_code
ext_code_sound P r found [] c all h = inl h
ext_code_sound P r found ((code, x) ∷ xs) c all h =
    elim (ext_code_sound P r (if x == r then some code else found) xs c all.1 h) [
      | inr p ↦ inr p
      | inl e ↦ elim (Bool-cases (x == r)) [
        | inl t ↦ let same : (code, x) ≡ (c, r) = ground arith in inr (subst P same all.0)
        | inr f ↦ inl (rw f at e)
      ]
    ]

-- The code found for a rune of the extension table reads back as that rune.
ext_sound :
    (r c : ℕ) → rune_to_gsm7_ext r ≡ some c → (ext_rune gsm7_extension_table c ≡ some r) × (c < 128)
unfolding rune_to_gsm7_ext ext_rune
ext_sound r c h =
    elim (ext_code_sound (λ e. (ext_rune gsm7_extension_table e.0 ≡ some e.1) × (e.0 < 128)) r none
      gsm7_extension_table c (ground arith) h) [ inl e ↦ cc | inr p ↦ p ]

decode_basic :
    (b : ℕ) (rest : List ℕ)
    → b < 128
    → b ≢ 0x1B
    → decode_gsm7 (b ∷ rest) ≡ get_or gsm7_basic_table b 0 ∷ decode_gsm7 rest
unfolding decode_gsm7
decode_basic b [] h n = rw (lt→ltb b 128 h)
decode_basic b (x ∷ rest) h n = rw (lt→ltb b 128 h) (ground arith)

decode_escape :
    (r c : ℕ) (rest : List ℕ)
    → ext_rune gsm7_extension_table c ≡ some r
    → decode_gsm7 (0x1B ∷ c ∷ rest) ≡ r ∷ decode_gsm7 rest
unfolding decode_gsm7
decode_escape r c rest h = rw h

-- What EncodeGSM7 writes for a rune: its septet, ESC and its code, or a question mark.
rune_septets_cases :
    (r : ℕ)
    → ((b : ℕ) × (rune_septets r ≡ b ∷ [])
        × (b < 128)
        × (get_or gsm7_basic_table b 0 ≡ r)
        × (b ≢ 0x1B))
      ⊎ (((c : ℕ) × (rune_septets r ≡ 0x1B ∷ c ∷ [])
            × (ext_rune gsm7_extension_table c ≡ some r)
            × (c < 128))
          ⊎ ((rune_septets r ≡ 0x3F ∷ []) × (is_gsm7 (r ∷ []) ≡ false)))
unfolding rune_septets is_gsm7
rune_septets_cases r = elim (Option-cases (rune_to_gsm7_basic r)) [
  | inr (b, e) ↦ let found = basic_sound r b e in inl (b, ground arith, found.0, found.1, found.2)
  | inl e ↦ elim (Option-cases (rune_to_gsm7_ext r)) [
    | inr (c, f) ↦ let found = ext_sound r c f in inr (inl (c, ground arith, found.0, found.1))
    | inl f ↦ inr (inr (ground arith, ground arith))
  ]
]

decode_rune :
    (r : ℕ) (rest : List ℕ)
    → is_gsm7 (r ∷ []) ≡ true
    → decode_gsm7 (rune_septets r ++ rest) ≡ r ∷ decode_gsm7 rest
decode_rune r rest h = elim (rune_septets_cases r) [
  | inl (b, e, lt, eq, ne) ↦
      rw e (decode_basic b rest lt ne ∙ ap (λ (k : ℕ). k ∷ decode_gsm7 rest) eq)
  | inr (inl (c, e, back, lt)) ↦ rw e (decode_escape r c rest back)
  | inr (inr (e, n)) ↦ cc (h, n)
]

is_gsm7-cons :
    (r : ℕ) (s : List ℕ) → is_gsm7 (r ∷ s) ≡ true → (is_gsm7 (r ∷ []) ≡ true) × (is_gsm7 s ≡ true)
unfolding is_gsm7
is_gsm7-cons r s h = ground arith

-- A text of GSM 7-bit characters decodes to itself.
pub decode-encode : (text : List ℕ) → is_gsm7 text ≡ true → decode_gsm7 (encode_gsm7 text) ≡ text
unfolding encode_gsm7
decode-encode [] h = unfold decode_gsm7 in refl
decode-encode (r ∷ s) h =
    let parts = is_gsm7-cons r s h in
    decode_rune r (encode_gsm7 s) parts.0 ∙ ap (λ (t : List ℕ). r ∷ t) (decode-encode s parts.1)

rune_septets-IsSeptet : (r : ℕ) → All IsSeptet (rune_septets r)
rune_septets-IsSeptet r = elim (rune_septets_cases r) [
  | inl (b, e, lt, eq, ne) ↦ rw e (lt, tt)
  | inr (inl (c, e, back, lt)) ↦ rw e (omega arith, (lt, tt))
  | inr (inr (e, n)) ↦ rw e (omega arith, tt)
]

-- EncodeGSM7 writes septets only, whatever the text.
pub encode_gsm7-IsSeptet : (text : List ℕ) → All IsSeptet (encode_gsm7 text)
unfolding encode_gsm7
encode_gsm7-IsSeptet [] = tt
encode_gsm7-IsSeptet (r ∷ s) =
    All-append IsSeptet (rune_septets r) (encode_gsm7 s) (rune_septets-IsSeptet r)
      (encode_gsm7-IsSeptet s)

-- A text of GSM 7-bit characters, encoded, packed at any start bit, unpacked there and decoded, is
-- the same text.
pub text_round_trip :
    (text : List ℕ) (start_bit : ℕ)
    → is_gsm7 text ≡ true
    → (do
      septets ←
          unpack_septets
            (pack_septets (encode_gsm7 text) start_bit)
            (length (encode_gsm7 text))
            start_bit
      ok (decode_gsm7 septets))
      ≡ ok text
text_round_trip text start_bit h =
    rw (unpack-pack (encode_gsm7 text) start_bit (encode_gsm7-IsSeptet text), decode-encode text h)
      refl

-- A character of the basic table: one septet, no ESC.
abbrev pub IsBasic : ℕ → Type 0
IsBasic r = (is_gsm7 (r ∷ []) ≡ true) × (length (rune_septets r) ≡ 1)

pub IsBasic-all :
    (text : List ℕ)
    → All IsBasic text
    → (is_gsm7 text ≡ true) × (length (encode_gsm7 text) ≡ length text)
unfolding is_gsm7 encode_gsm7
IsBasic-all [] h = (refl, refl)
IsBasic-all (r ∷ text) h =
    let rest = IsBasic-all text h.1 in
    (ground arith, omega (arith, length-append (rune_septets r) (encode_gsm7 text), rest.1, h.0.1))
