-- ===== src/Pdu/Alphabet.antt =====
-- internal/sms/pdu/gsm7.go: the GSM 7-bit alphabet. A text is the list of its code points, as Go's
-- `range` over a string yields them; a septet is a number.
pub mod RoundTrip
mod Runs
use gsm2mqtt.Base.{
  ℕ, suc, ◌+◌, Bool, true, false, Option, none, some, List, [], ◌∷◌, ◌==◌, ◌++◌, ltb, if◌then◌else◌,
  ◌&&◌, ◌||◌, not, get_or, length,
}

-- gsm7BasicTable: the code point of each septet, with 0 at 0x1B (ESC).
abbrev pub gsm7_basic_table : List ℕ
gsm7_basic_table =
    0x40 ∷ 0xa3 ∷ 0x24 ∷ 0xa5 ∷ 0xe8 ∷ 0xe9 ∷ 0xf9 ∷ 0xec ∷ 0xf2 ∷ 0xc7 ∷ 0xa ∷ 0xd8 ∷ 0xf8 ∷ 0xd
    ∷ 0xc5 ∷ 0xe5 ∷ 0x394 ∷ 0x5f ∷ 0x3a6 ∷ 0x393 ∷ 0x39b ∷ 0x3a9 ∷ 0x3a0 ∷ 0x3a8 ∷ 0x3a3 ∷ 0x398
    ∷ 0x39e ∷ 0x0 ∷ 0xc6 ∷ 0xe6 ∷ 0xdf ∷ 0xc9 ∷ 0x20 ∷ 0x21 ∷ 0x22 ∷ 0x23 ∷ 0xa4 ∷ 0x25 ∷ 0x26
    ∷ 0x27 ∷ 0x28 ∷ 0x29 ∷ 0x2a ∷ 0x2b ∷ 0x2c ∷ 0x2d ∷ 0x2e ∷ 0x2f ∷ 0x30 ∷ 0x31 ∷ 0x32 ∷ 0x33
    ∷ 0x34 ∷ 0x35 ∷ 0x36 ∷ 0x37 ∷ 0x38 ∷ 0x39 ∷ 0x3a ∷ 0x3b ∷ 0x3c ∷ 0x3d ∷ 0x3e ∷ 0x3f ∷ 0xa1
    ∷ 0x41 ∷ 0x42 ∷ 0x43 ∷ 0x44 ∷ 0x45 ∷ 0x46 ∷ 0x47 ∷ 0x48 ∷ 0x49 ∷ 0x4a ∷ 0x4b ∷ 0x4c ∷ 0x4d
    ∷ 0x4e ∷ 0x4f ∷ 0x50 ∷ 0x51 ∷ 0x52 ∷ 0x53 ∷ 0x54 ∷ 0x55 ∷ 0x56 ∷ 0x57 ∷ 0x58 ∷ 0x59 ∷ 0x5a
    ∷ 0xc4 ∷ 0xd6 ∷ 0xd1 ∷ 0xdc ∷ 0xa7 ∷ 0xbf ∷ 0x61 ∷ 0x62 ∷ 0x63 ∷ 0x64 ∷ 0x65 ∷ 0x66 ∷ 0x67
    ∷ 0x68 ∷ 0x69 ∷ 0x6a ∷ 0x6b ∷ 0x6c ∷ 0x6d ∷ 0x6e ∷ 0x6f ∷ 0x70 ∷ 0x71 ∷ 0x72 ∷ 0x73 ∷ 0x74
    ∷ 0x75 ∷ 0x76 ∷ 0x77 ∷ 0x78 ∷ 0x79 ∷ 0x7a ∷ 0xe4 ∷ 0xf6 ∷ 0xf1 ∷ 0xfc ∷ 0xe0 ∷ []

-- gsm7ExtensionTable: what a septet stands for behind ESC.
abbrev pub gsm7_extension_table : List (ℕ × ℕ)
gsm7_extension_table =
    (0xa, 0xc)
    ∷ (0x14, 0x5e)
    ∷ (0x28, 0x7b)
    ∷ (0x29, 0x7d)
    ∷ (0x2f, 0x5c)
    ∷ (0x3c, 0x5b)
    ∷ (0x3d, 0x7e)
    ∷ (0x3e, 0x5d)
    ∷ (0x40, 0x7c)
    ∷ (0x65, 0x20ac)
    ∷ []

-- The loop that fills runeToGSM7Basic, seen from one rune: the last index wins, ESC is left out.
unfoldable pub basic_index : ℕ → ℕ → Option ℕ → List ℕ → Option ℕ
basic_index rune i found [] = found
basic_index rune i found (r ∷ table) =
    basic_index rune (suc i) (if not (i == 0x1B) && (r == rune) then some i else found) table

unfoldable pub rune_to_gsm7_basic : ℕ → Option ℕ
rune_to_gsm7_basic rune = basic_index rune 0 none gsm7_basic_table

-- The loop that fills runeToGSM7Ext, seen from one rune.
unfoldable pub ext_code : ℕ → Option ℕ → List (ℕ × ℕ) → Option ℕ
ext_code rune found [] = found
ext_code rune found ((code, r) ∷ table) =
    ext_code rune (if r == rune then some code else found) table

unfoldable pub rune_to_gsm7_ext : ℕ → Option ℕ
rune_to_gsm7_ext rune = ext_code rune none gsm7_extension_table

-- A read of gsm7ExtensionTable.
pub ext_rune : List (ℕ × ℕ) → ℕ → Option ℕ
ext_rune [] code = none
ext_rune ((c, r) ∷ table) code = if c == code then some r else ext_rune table code

unfoldable pub is_gsm7 : List ℕ → Bool
is_gsm7 [] = true
is_gsm7 (r ∷ s) = elim (rune_to_gsm7_basic r) [
  | some b ↦ is_gsm7 s
  | none ↦ elim (rune_to_gsm7_ext r) [ some e ↦ is_gsm7 s | none ↦ false ]
]

-- What the loop of EncodeGSM7 appends for one rune.
unfoldable pub rune_septets : ℕ → List ℕ
rune_septets r = elim (rune_to_gsm7_basic r) [
  | some b ↦ b ∷ []
  | none ↦ elim (rune_to_gsm7_ext r) [ some ext ↦ 0x1B ∷ ext ∷ [] | none ↦ 0x3F ∷ [] ]
]

unfoldable pub encode_gsm7 : List ℕ → List ℕ
encode_gsm7 [] = []
encode_gsm7 (r ∷ s) = rune_septets r ++ encode_gsm7 s

-- What DecodeGSM7 appends for a septet that it reads from the basic table.
abbrev pub basic_rune : ℕ → List ℕ
basic_rune s = if ltb s (length gsm7_basic_table) then get_or gsm7_basic_table s 0 ∷ [] else []

-- Behind ESC the next septet is taken too, also where it stands for nothing: then the rune of ESC
-- itself is appended.
pub decode_gsm7 : List ℕ → List ℕ
decode_gsm7 [] = []
decode_gsm7 (s ∷ []) = basic_rune s
decode_gsm7 (s ∷ next ∷ septets) =
    let behind = decode_gsm7 septets in
    let rest = decode_gsm7 (next ∷ septets) in
    if s == 0x1B
    then elim (ext_rune gsm7_extension_table next) [
      | some r ↦ r ∷ behind
      | none ↦ basic_rune s ++ behind
    ]
    else basic_rune s ++ rest
