-- ===== src/Sms/Translit/Laws.antt =====
-- internal/sms/translit.go: the text that comes out, as GSM 7-bit.
use gsm2mqtt.Base.{
  ℕ, ◌&&◌, Bool, true, not, none, some, List, [], ◌∷◌, ◌++◌, ◌==◌, ==_iff, Bool-cases, Option-cases,
  ◌≡◌, ◌⊎◌, refl, sym, ◌∙◌, inl, inr, arith, all_by, All,
}
use gsm2mqtt.Pdu.Alphabet.{is_gsm7, rune_to_gsm7_basic, rune_to_gsm7_ext, basic_index, ext_code}
use gsm2mqtt.Sms.Translit.{translit_map, translit_of, write_or, transliterate}

replacements : all_by (λ (e : ℕ × List ℕ). is_gsm7 e.1) translit_map ≡ true
unfolding is_gsm7 rune_to_gsm7_basic rune_to_gsm7_ext basic_index ext_code
replacements = refl

letters : all_by (λ (e : ℕ × List ℕ). not (is_gsm7 (e.0 ∷ []))) translit_map ≡ true
unfolding is_gsm7 rune_to_gsm7_basic rune_to_gsm7_ext basic_index ext_code
letters = refl

is_gsm7-cons : (r : ℕ) (s : List ℕ) → is_gsm7 (r ∷ s) ≡ (is_gsm7 (r ∷ []) && is_gsm7 s)
unfolding is_gsm7
is_gsm7-cons r s = elim (Option-cases (rune_to_gsm7_basic r)) [
  | inl e ↦ elim (Option-cases (rune_to_gsm7_ext r)) [
    | inl f ↦ rw (is_gsm7, e, f) refl
    | inr f ↦ rw (is_gsm7, e, f.1) refl
  ]
  | inr e ↦ rw (is_gsm7, e.1) refl
]

is_gsm7-append :
    (xs ys : List ℕ) → is_gsm7 xs ≡ true → is_gsm7 ys ≡ true → is_gsm7 (xs ++ ys) ≡ true
is_gsm7-append [] ys h k = k
is_gsm7-append (x ∷ xs) ys h k =
    let parts = sym (is_gsm7-cons x xs) ∙ h in
    let first : is_gsm7 (x ∷ []) ≡ true = ground (arith, parts) in
    let rest : is_gsm7 xs ≡ true = ground (arith, parts) in
    is_gsm7-cons x (xs ++ ys) ∙ rw (first, is_gsm7-append xs ys rest k) refl

module _ (r : ℕ) where
  translit_of-all :
      (p : ℕ × List ℕ → Bool) (m : List (ℕ × List ℕ)) (repl : List ℕ)
      → all_by p m ≡ true
      → translit_of r m ≡ some repl
      → p (r, repl) ≡ true
  unfolding translit_of
  translit_of-all p [] repl h e = cc
  translit_of-all p ((letter, s) ∷ m) repl h e = elim (Bool-cases (p (letter, s))) [
    | inl a ↦ elim (Bool-cases (letter == r)) [
      | inl b ↦
          let found : some s ≡ some repl = (rw b at e) in
          let same : s ≡ repl = cc in
          let here : letter ≡ r = (==_iff letter r).0 b in rw (sym same, sym here) a
      | inr b ↦ translit_of-all p m repl (rw a at h) (rw b at e)
    ]
    | inr a ↦ let off = (rw a at h) in cc
  ]

-- A letter that GSM 7-bit can write, or that the table replaces.
abbrev pub Covered : ℕ → Type 0
Covered r = (is_gsm7 (r ∷ []) ≡ true) ⊎ ((repl : List ℕ) × (translit_of r translit_map ≡ some repl))

one-gsm7 : (r : ℕ) → Covered r → is_gsm7 (write_or (translit_of r translit_map) r) ≡ true
unfolding write_or
one-gsm7 r c = elim (Option-cases (translit_of r translit_map)) [
  | inl e ↦ elim c [ inl plain ↦ rw e plain | inr found ↦ absurd (cc (e, found.1)) ]
  | inr found ↦ rw found.1 (
      translit_of-all r (λ (e : ℕ × List ℕ). is_gsm7 e.1) translit_map found.0 replacements found.1)
]

-- A text of letters that GSM 7-bit can write or that the table replaces becomes one that GSM 7-bit
-- can write.
pub is_gsm7-transliterate : (text : List ℕ) → All Covered text → is_gsm7 (transliterate text) ≡ true
unfolding transliterate
is_gsm7-transliterate [] h = unfold is_gsm7 in refl
is_gsm7-transliterate (r ∷ text) h =
    is_gsm7-append (write_or (translit_of r translit_map) r) (transliterate text) (one-gsm7 r h.0)
      (is_gsm7-transliterate text h.1)

plain-none : (r : ℕ) → is_gsm7 (r ∷ []) ≡ true → translit_of r translit_map ≡ none
plain-none r h = elim (Option-cases (translit_of r translit_map)) [
  | inl e ↦ e
  | inr found ↦
      let off =
        translit_of-all r (λ (e : ℕ × List ℕ). not (is_gsm7 (e.0 ∷ []))) translit_map found.0
          letters found.1 in
      absurd (ground (arith, off, h))
]

-- A text that GSM 7-bit can write is unchanged.
pub transliterate-gsm7 : (text : List ℕ) → is_gsm7 text ≡ true → transliterate text ≡ text
unfolding transliterate write_or
transliterate-gsm7 [] h = refl
transliterate-gsm7 (r ∷ text) h =
    let parts = sym (is_gsm7-cons r text) ∙ h in
    let first : is_gsm7 (r ∷ []) ≡ true = ground (arith, parts) in
    let rest : is_gsm7 text ≡ true = ground (arith, parts) in
    rw (plain-none r first, transliterate-gsm7 text rest) refl
