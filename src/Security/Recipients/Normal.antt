-- ===== src/Security/Recipients/Normal.antt =====
-- internal/security/recipients.go: what NormalizeNumber answers.
use gsm2mqtt.Base.{
  ℕ, ◌≤◌, Bool, true, not, ◌&&◌, ◌||◌, List, [], ◌∷◌, ◌++◌, ltb, ◌==◌, if◌then◌else◌, length, drop,
  all_by, filter_by, Bool-cases, ◌≡◌, inl, inr, arith,
}
use gsm2mqtt.Base.Text.{codes, is_empty, is_digit, has_prefix, trim_space, trim_prefix}
use gsm2mqtt.Security.Recipients.{invalid_format, invalid_length, normalize_number, is_punctuation}

-- A plus and four to sixteen digits.
abbrev pub E164 : List ℕ → Type 0
E164 number =
    (digits : List ℕ) × (number ≡ b'+' ∷ digits)
    × (all_by is_digit digits ≡ true)
    × (4 ≤ length digits)
    × (length digits ≤ 16)

-- The number that the digits give, behind the tests of the text.
format_lem :
    (has_plus : Bool) (digits norm : List ℕ)
    → (if is_empty digits || not (all_by is_digit digits)
        then inl invalid_format
        else (if ltb (length digits) 4 || ltb 16 (length digits)
            then inl invalid_length
            else (if not has_plus && (length digits == 11) && has_prefix digits (codes "8")
                then inr (codes "+7" ++ drop 1 digits)
                else inr (codes "+" ++ digits))))
      ≡ inr norm
    → E164 norm
format_lem has_plus [] norm h = absurd (cc h)
format_lem has_plus (d ∷ digits) norm h = elim (Bool-cases (all_by is_digit (d ∷ digits))) [
  | inr e ↦ absurd (cc (rw e at h))
  | inl e ↦ elim (Bool-cases (ltb (length (d ∷ digits)) 4 || ltb 16 (length (d ∷ digits)))) [
    | inl f ↦ absurd (cc (rw (e, f) at h))
    | inr f ↦
        elim (Bool-cases
          (not has_plus && (length (d ∷ digits) == 11) && has_prefix (d ∷ digits) (codes "8"))) [
            | inl g ↦
                let same = (rw (e, f, g) at h) in
                (b'7' ∷ digits, cc same, ground (arith, e), ground (arith, f), ground (arith, f))
            | inr g ↦
                let same = (rw (e, f, g) at h) in
                (d ∷ digits, cc same, e, ground (arith, f), ground (arith, f))
          ]
  ]
]

pub normalize_number-E164 : (raw norm : List ℕ) → normalize_number raw ≡ inr norm → E164 norm
unfolding normalize_number
normalize_number-E164 raw norm h = elim (Bool-cases (is_empty (trim_space raw))) [
  | inl e ↦ absurd (cc (rw e at h))
  | inr e ↦
      let cleaned = filter_by (λ (r : ℕ). not (is_punctuation r)) (trim_space raw) in
      format_lem (has_prefix cleaned (codes "+")) (trim_prefix cleaned (codes "+")) norm (rw e at h)
]
