-- ===== src/Security/Filter/Laws.antt =====
-- internal/security/filter.go: which numbers the two lists let through.
use gsm2mqtt.Base.{
  ℕ, Bool, true, false, Option, none, some, List, [], ◌∷◌, ◌≡◌, refl, sym, ◌↔◌, inl, inr, Memᴰ,
  if◌then◌else◌, any_by, text_eq, text_eq_iff, Bool-cases, subst,
}
use gsm2mqtt.Base.Search.{any_by_iff, collect, CleanOf, collect_iff}
use gsm2mqtt.Base.Text.{codes, trim_space, is_empty}
use gsm2mqtt.Security.Unicode.{Unicode}
use gsm2mqtt.Security.Errors.{
  Error, number_blocked, number_not_whitelisted, empty_phone_number, dangerous_chars,
}
use gsm2mqtt.Security.Filter.{
  contains, normalize_number, normalized_set, new_filter, check_mode, is_line_break, check,
}

-- A number that Check looks up in the lists.
abbrev pub Plain : List ℕ → Type 0
Plain number = (is_empty (trim_space number) ≡ false) × (any_by is_line_break number ≡ false)

-- The tests of Check before the mode.
checked :
    (blank broken : Bool) (d : Option Error)
    → ((if blank then some empty_phone_number else (if broken then some dangerous_chars else d))
        ≡ none)
      ↔ ((blank ≡ false) × (broken ≡ false) × (d ≡ none))
checked true broken d = (λ h. cc, λ t. cc)
checked false true d = (λ h. cc, λ t. cc)
checked false false d = (λ h. (refl, refl, h), λ t. t.2)

listed : (b : Bool) → ((if b then none else some number_not_whitelisted) ≡ none) ↔ (b ≡ true)
listed true = (λ h. refl, λ h. refl)
listed false = (λ h. cc, λ h. cc)

not_listed : (b : Bool) → ((if b then some number_blocked else none) ≡ none) ↔ (b ≡ false)
not_listed true = (λ h. cc, λ h. cc)
not_listed false = (λ h. refl, λ h. refl)

module _ (unicode : Unicode) where
  -- Some entry of the list, not blank, has this normal form.
  abbrev pub Listed : List (List ℕ) → List ℕ → Type 0
  Listed numbers normalized = CleanOf (normalize_number unicode) numbers normalized

  normalized_set-collect :
      (numbers : List (List ℕ))
      → normalized_set unicode numbers ≡ collect (normalize_number unicode) numbers
  unfolding normalized_set
  normalized_set-collect [] = refl
  normalized_set-collect (n ∷ numbers) = rw (normalized_set-collect numbers) refl

  contains_iff :
      (x : List ℕ) (numbers : List (List ℕ))
      → (contains x (normalized_set unicode numbers) ≡ true) ↔ Listed numbers x
  contains_iff x numbers =
      let found = any_by_iff (text_eq x) (collect (normalize_number unicode) numbers) in
      rw (normalized_set-collect numbers) (
        λ h.
            let t = found.0 h in
            (collect_iff (normalize_number unicode) numbers x).0 (
              subst (λ (s : List ℕ). Memᴰ s (collect (normalize_number unicode) numbers))
                (sym ((text_eq_iff x t.0).0 t.2)) t.1),
        λ t.
            found.1
              (x, (collect_iff (normalize_number unicode) numbers x).1 t, (text_eq_iff x x).1 refl),
      )

  contains-false :
      (x : List ℕ) (numbers : List (List ℕ))
      → (¬ Listed numbers x)
      → contains x (normalized_set unicode numbers) ≡ false
  contains-false x numbers n = elim (Bool-cases (contains x (normalized_set unicode numbers))) [
    | inl h ↦ absurd (n ((contains_iff x numbers).0 h))
    | inr h ↦ h
  ]

  module _ (lower : List ℕ → List ℕ) (mode : List ℕ) (whitelist blacklist : List (List ℕ))
      (number : List ℕ) where
    abbrev verdict : Option Error
    verdict = check unicode (new_filter unicode lower mode whitelist blacklist) number

    -- In mode "whitelist", Check lets a number through exactly if it is not blank, has no NUL or
    -- line break, and its normal form is that of an entry of the whitelist.
    pub check-whitelist_iff :
        lower (trim_space mode) ≡ codes "whitelist"
        → (verdict ≡ none)
          ↔ (Plain number × Listed whitelist (normalize_number unicode (trim_space number)))
    unfolding check new_filter check_mode
    check-whitelist_iff m = rw m (
      λ h.
          let c = (checked (is_empty (trim_space number)) (any_by is_line_break number) _).0 h in
          ((c.0, c.1), (contains_iff _ whitelist).0 ((listed _).0 c.2)),
      λ t.
          (checked (is_empty (trim_space number)) (any_by is_line_break number) _).1
            (t.0.0, t.0.1, (listed _).1 ((contains_iff _ whitelist).1 t.1)),
    )

    -- In mode "blacklist", Check lets a number through exactly if it is not blank, has no NUL or
    -- line break, and its normal form is that of no entry of the blacklist.
    pub check-blacklist_iff :
        lower (trim_space mode) ≡ codes "blacklist"
        → (verdict ≡ none)
          ↔ (Plain number × (¬ Listed blacklist (normalize_number unicode (trim_space number))))
    unfolding check new_filter check_mode
    check-blacklist_iff m = rw m (
      λ h.
          let c = (checked (is_empty (trim_space number)) (any_by is_line_break number) _).0 h in
          (
            (c.0, c.1),
            λ l. let on = (contains_iff _ blacklist).1 l in let off = (not_listed _).0 c.2 in cc,
          ),
      λ t.
          let off = contains-false _ blacklist t.1 in
          (checked (is_empty (trim_space number)) (any_by is_line_break number) _).1
            (t.0.0, t.0.1, (not_listed _).1 off),
    )
