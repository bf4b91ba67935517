-- ===== src/Security/Sanitizer/Spec.antt =====
-- internal/security/sanitizer.go: which commands the allowlist lets through.
use gsm2mqtt.Base.{
  ℕ, Bool, true, false, not, none, some, List, [], ◌∷◌, ◌++◌, ◌≡◌, refl, ap, ◌∙◌, ◌↔◌, ◌⊎◌, inl,
  inr, if◌then◌else◌, any_by, text_eq, text_eq_iff, length, get_or, get_or-append, Bool-cases,
  append-nil, arith, subst,
}
use gsm2mqtt.Base.Search.{any_by_iff, collect, CleanOf, collect_iff, has_prefix_iff}
use gsm2mqtt.Base.Text.{trim_space, is_empty, has_prefix}
use gsm2mqtt.Security.Unicode.{Unicode}
use gsm2mqtt.Security.Errors.{dangerous_chars, empty_command, raw_at_disabled, command_blocked}
use gsm2mqtt.Security.Sanitizer.{
  is_dangerous, ends_token, matches_allowed, canonicalize_command, allowed_entries, new_sanitizer,
  validate,
}

-- The command is the entry, or goes on after it with a character that ends the token.
abbrev pub StartsWithToken : List ℕ → List ℕ → Type 0
StartsWithToken cmd entry =
    (cmd ≡ entry) ⊎ ((c : ℕ) × (rest : List ℕ) × (cmd ≡ entry ++ c ∷ rest) × (ends_token c ≡ true))

next_char :
    (entry : List ℕ) (c : ℕ) (rest : List ℕ) → get_or (entry ++ c ∷ rest) (length entry) 0 ≡ c
next_char entry c rest =
    ap (λ (i : ℕ). get_or (entry ++ c ∷ rest) i 0) (omega arith)
    ∙ get_or-append 0 entry (c ∷ rest) 0

goes_on :
    (cmd entry rest : List ℕ)
    → cmd ≡ entry ++ rest
    → ends_token (get_or cmd (length entry) 0) ≡ true
    → StartsWithToken cmd entry
goes_on cmd entry [] e t = inl (e ∙ append-nil entry)
goes_on cmd entry (c ∷ rest) e t = inr (
  c,
  rest,
  e,
  subst (λ (r : ℕ). ends_token r ≡ true) (next_char entry c rest)
      (subst (λ (s : List ℕ). ends_token (get_or s (length entry) 0) ≡ true) e t),
)

matched : (cmd entry : List ℕ) → matches_allowed cmd entry ≡ true → StartsWithToken cmd entry
unfolding matches_allowed
matched cmd entry h = elim (Bool-cases (text_eq cmd entry)) [
  | inl same ↦ inl ((text_eq_iff cmd entry).0 same)
  | inr other ↦ elim (Bool-cases (has_prefix cmd entry)) [
    | inl p ↦
        let t = (has_prefix_iff cmd entry).0 p in goes_on cmd entry t.0 t.1 (rw (other, p) at h)
    | inr p ↦ let h2 = (rw (other, p) at h) in cc
  ]
]

matches : (cmd entry : List ℕ) → StartsWithToken cmd entry → matches_allowed cmd entry ≡ true
unfolding matches_allowed
matches cmd entry (inl e) = rw ((text_eq_iff cmd entry).1 e) refl
matches cmd entry (inr (c, rest, e, t)) = elim (Bool-cases (text_eq cmd entry)) [
  | inl same ↦ rw same refl
  | inr other ↦ rw (other, (has_prefix_iff cmd entry).1 (c ∷ rest, e), e, next_char entry c rest) t
]

-- The tests of Validate in their order.
accepted :
    (danger blank raw ok : Bool)
    → (if danger
        then some dangerous_chars
        else (if blank
            then some empty_command
            else (if not raw
                then some raw_at_disabled
                else (if ok then none else some command_blocked))))
      ≡ none
    → (danger ≡ false) × (blank ≡ false) × (raw ≡ true) × (ok ≡ true)
accepted true blank raw ok h = cc
accepted false true raw ok h = cc
accepted false false false ok h = cc
accepted false false true true h = (refl, refl, refl, refl)
accepted false false true false h = cc

module _ (unicode : Unicode) where
  -- What Validate lets through, in terms of the entries as they were given.
  abbrev pub Authorised : Bool → List (List ℕ) → List ℕ → Type 0
  Authorised allow_raw allowed_commands cmd =
      (any_by is_dangerous cmd ≡ false)
      × (is_empty (trim_space cmd) ≡ false)
      × (allow_raw ≡ true)
      × ((entry : List ℕ) × CleanOf (canonicalize_command unicode) allowed_commands entry
          × StartsWithToken (canonicalize_command unicode (trim_space cmd)) entry)

  allowed_entries-collect :
      (cmds : List (List ℕ))
      → allowed_entries unicode cmds ≡ collect (canonicalize_command unicode) cmds
  unfolding allowed_entries
  allowed_entries-collect [] = refl
  allowed_entries-collect (cmd ∷ cmds) = rw (allowed_entries-collect cmds) refl

  allowed_iff :
      (cmd : List ℕ) (cmds : List (List ℕ))
      → (any_by (matches_allowed cmd) (allowed_entries unicode cmds) ≡ true) ↔ (
          (entry : List ℕ) × CleanOf (canonicalize_command unicode) cmds entry
          × StartsWithToken cmd entry)
  allowed_iff cmd cmds = rw (allowed_entries-collect cmds) (
    λ h.
        let t =
          (any_by_iff (matches_allowed cmd) (collect (canonicalize_command unicode) cmds)).0 h in
        (t.0, (collect_iff (canonicalize_command unicode) cmds t.0).0 t.1, matched cmd t.0 t.2),
    λ t.
        (any_by_iff (matches_allowed cmd) (collect (canonicalize_command unicode) cmds)).1
          (t.0, (collect_iff (canonicalize_command unicode) cmds t.0).1 t.1, matches cmd t.0 t.2),
  )

  -- Validate of a new sanitizer accepts a command exactly if it has none of the dangerous
  -- characters, is not blank, raw commands are on, and in canonical form it is an entry of the
  -- allowlist that is not blank, or goes on after one with a character that ends a token.
  pub validate_iff :
      (allow_raw : Bool) (allowed_commands : List (List ℕ)) (cmd : List ℕ)
      → (validate unicode (new_sanitizer unicode allow_raw allowed_commands) cmd ≡ none)
        ↔ Authorised allow_raw allowed_commands cmd
  unfolding validate new_sanitizer
  validate_iff allow_raw allowed_commands cmd = (
    λ h.
        let t = accepted _ _ _ _ h in
        (
          t.0,
          t.1,
          t.2,
          (allowed_iff (canonicalize_command unicode (trim_space cmd)) allowed_commands).0 t.3,
        ),
    λ t.
        rw
          (
            t.0,
            t.1,
            t.2,
            (allowed_iff (canonicalize_command unicode (trim_space cmd)) allowed_commands).1 t.3,
          )
          refl,
  )
