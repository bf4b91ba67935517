-- ===== src/Sms/Validator/Laws.antt =====
-- internal/sms/validator.go: the form of a normalized number, and of a text that passes.
use gsm2mqtt.Base.{
  ℕ, ◌≤◌, Bool, true, false, ◌&&◌, Option, none, some, List, [], ◌∷◌, ◌++◌, ltb, leb, ◌==◌,
  if◌then◌else◌, length, get_or, drop, length-drop, all_by, Bool-cases, ◌≡◌, ◌⊎◌, inl, inr, refl,
  subst, arith,
}
use gsm2mqtt.Base.Text.{codes, is_empty, is_digit, trim_space}
use gsm2mqtt.Sms.Validator.{
  Normalized, normalized, invalid, phone_number_too_long, is_formatting, add_plus, add_digit, scan,
  format_digits, format_scanned, normalize_phone_number,
}

-- 2 to 15 digits, behind a plus or not.
abbrev pub Dialable : List ℕ → Type 0
Dialable n =
    (d : List ℕ) × ((n ≡ d) ⊎ (n ≡ b'+' ∷ d))
    × (all_by is_digit d ≡ true)
    × (2 ≤ length d)
    × (length d ≤ 15)

-- The digits that the loop collects.
abbrev Digits : Option (Bool × List ℕ) → Type 0
Digits none = Unit {0}
Digits (some (has_plus, digits)) = all_by is_digit digits ≡ true

add_plus-Digits : (o : Option (Bool × List ℕ)) → Digits o → Digits (add_plus o)
add_plus-Digits none h = tt
add_plus-Digits (some (has_plus, digits)) h = h

add_digit-Digits :
    (r : ℕ) (o : Option (Bool × List ℕ)) → is_digit r ≡ true → Digits o → Digits (add_digit r o)
add_digit-Digits r none d h = tt
add_digit-Digits r (some (has_plus, digits)) d h = rw d h

scan-Digits : (first : Bool) (s : List ℕ) → Digits (scan first s)
unfolding scan
scan-Digits first [] = refl
scan-Digits first (r ∷ s) =
    let rest = scan-Digits false s in
    elim (Bool-cases (r == b'+')) [
      | inl a ↦ rw a (elim (Bool-cases first) [
        | inl f ↦ rw f (add_plus-Digits (scan false s) rest)
        | inr f ↦ rw f tt
      ])
      | inr a ↦ elim (Bool-cases (is_digit r)) [
        | inl b ↦ rw (a, b) (add_digit-Digits r (scan false s) b rest)
        | inr b ↦ elim (Bool-cases (is_formatting r)) [
          | inl c ↦ rw (a, b, c) rest
          | inr c ↦ rw (a, b, c) tt
        ]
      ]
    ]

drop-digits : (d : List ℕ) → all_by is_digit d ≡ true → all_by is_digit (drop 1 d) ≡ true
drop-digits [] h = refl
drop-digits (r ∷ d) h = elim (Bool-cases (is_digit r)) [
  | inl e ↦ (rw e at h)
  | inr e ↦ let off = (rw e at h) in cc
]

abbrev IsDialable : Normalized → Type 0
IsDialable (normalized n) = Dialable n
IsDialable (invalid e) = Unit {0}

plus-Dialable :
    (d : List ℕ)
    → all_by is_digit d ≡ true
    → 2 ≤ length d
    → IsDialable
        (if ltb 15 (length d) then invalid phone_number_too_long else normalized (b'+' ∷ d))
plus-Dialable d h l = elim (Bool-cases (ltb 15 (length d))) [
  | inl e ↦ rw e tt
  | inr e ↦ rw e (d, inr refl, h, l, ground (arith, e))
]

-- Digits without a plus.
national-Dialable :
    (d : List ℕ)
    → all_by is_digit d ≡ true
    → 2 ≤ length d
    → IsDialable (
        if (length d == 11) && (get_or d 0 0 == b'8')
        then normalized (codes "+7" ++ drop 1 d)
        else (if leb (length d) 6
            then normalized d
            else (if ltb 15 (length d)
                then invalid phone_number_too_long
                else normalized (b'+' ∷ d))))
national-Dialable d h l = elim (Bool-cases ((length d == 11) && (get_or d 0 0 == b'8'))) [
  | inl e ↦
      let eleven : length d ≡ 11 = ground (arith, e) in
      rw e (
        b'7' ∷ drop 1 d,
        inr refl,
        drop-digits d h,
        omega (arith, eleven, length-drop 1 d),
        omega (arith, eleven, length-drop 1 d),
      )
  | inr e ↦ rw e (elim (Bool-cases (leb (length d) 6)) [
    | inl f ↦ rw f (d, inl refl, h, l, ground (arith, f))
    | inr f ↦ rw f (plus-Dialable d h l)
  ])
]

format_digits-Dialable :
    (has_plus : Bool) (d : List ℕ)
    → all_by is_digit d ≡ true
    → IsDialable (format_digits [] has_plus d)
unfolding format_digits
format_digits-Dialable has_plus d h = elim (Bool-cases (length d == 0)) [
  | inl a ↦ rw a tt
  | inr a ↦ elim (Bool-cases (ltb (length d) 2)) [
    | inl b ↦ rw (a, b) tt
    | inr b ↦
        let l : 2 ≤ length d = ground (arith, b) in
        elim (Bool-cases has_plus) [
          | inl c ↦
              rw (a, b, c)
                (elim (Bool-cases (ltb (length d) 3)) [
                  | inl e ↦ rw e tt
                  | inr e ↦ rw e (plus-Dialable d h l)
                ])
          | inr c ↦
              let no_prefix : ((length d == 10) && false) ≡ false = ground arith in
              rw (a, b, c, no_prefix) (national-Dialable d h l)
        ]
  ]
]

format_scanned-Dialable : (o : Option (Bool × List ℕ)) → Digits o → IsDialable (format_scanned [] o)
unfolding format_scanned
format_scanned-Dialable none h = tt
format_scanned-Dialable (some (has_plus, d)) h = format_digits-Dialable has_plus d h

-- Without a default country prefix, a number that NormalizePhoneNumber returns has 2 to 15 digits,
-- behind a plus or not, and nothing else.
pub normalize_phone_number-Dialable :
    (raw n : List ℕ) → normalize_phone_number raw [] ≡ normalized n → Dialable n
unfolding normalize_phone_number
normalize_phone_number-Dialable raw n h =
    subst IsDialable h (elim (Bool-cases (is_empty (trim_space raw))) [
      | inl e ↦ rw e tt
      | inr e ↦
          rw e (
            format_scanned-Dialable (scan true (trim_space raw))
              (scan-Digits true (trim_space raw)))
    ])
