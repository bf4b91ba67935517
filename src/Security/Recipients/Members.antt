-- ===== src/Security/Recipients/Members.antt =====
-- internal/security/recipients.go: the members of a list of numbers without repetition.
use gsm2mqtt.Base.{
  ℕ, true, false, List, [], ◌∷◌, ◌++◌, if◌then◌else◌, text_eq, text_eq_iff, All, All-append,
  Bool-cases, ◌≡◌, refl, sym, ap, ◌∙◌, subst, inl, inr, arith,
}
use gsm2mqtt.Security.Recipients.{is_member, add_number_in_memory, remove_first}

abbrev pub Distinct : List (List ℕ) → Type 0
Distinct [] = Unit {0}
Distinct (n ∷ numbers) = (is_member n numbers ≡ false) × Distinct numbers

text_eq_sym : (x y : List ℕ) → text_eq x y ≡ text_eq y x
text_eq_sym x y = ground (arith, text_eq_iff x y, text_eq_iff y x)

is_member-append :
    (x n : List ℕ) (numbers : List (List ℕ))
    → is_member x (numbers ++ n ∷ []) ≡ (if text_eq n x then true else is_member x numbers)
is_member-append x n [] = refl
is_member-append x n (y ∷ numbers) = elim (Bool-cases (text_eq y x)) [
  | inl e ↦ rw e (ground arith)
  | inr e ↦ rw e (is_member-append x n numbers)
]

-- Membership behind an addition.
pub is_member-add_number_in_memory :
    (x n : List ℕ) (numbers : List (List ℕ))
    → is_member x (add_number_in_memory n numbers)
      ≡ (if text_eq n x then true else is_member x numbers)
is_member-add_number_in_memory x n numbers = elim (Bool-cases (is_member n numbers)) [
  | inl e ↦ elim (Bool-cases (text_eq n x)) [
    | inl f ↦
        rw (e, f) (subst (λ (y : List ℕ). is_member y numbers ≡ true) ((text_eq_iff n x).0 f) e)
    | inr f ↦ rw (e, f) refl
  ]
  | inr e ↦ rw e (is_member-append x n numbers)
]

Distinct-append :
    (n : List ℕ) (numbers : List (List ℕ))
    → is_member n numbers ≡ false
    → Distinct numbers
    → Distinct (numbers ++ n ∷ [])
Distinct-append n [] h d = (refl, tt)
Distinct-append n (y ∷ numbers) h d = elim (Bool-cases (text_eq y n)) [
  | inl e ↦ let on = (rw e at h) in absurd (cc on)
  | inr e ↦
      let off : text_eq n y ≡ false = text_eq_sym n y ∙ e in
      (is_member-append y n numbers ∙ rw off d.0, Distinct-append n numbers (rw e at h) d.1)
]

pub add_number_in_memory-Distinct :
    (n : List ℕ) (numbers : List (List ℕ))
    → Distinct numbers
    → Distinct (add_number_in_memory n numbers)
add_number_in_memory-Distinct n numbers d = elim (Bool-cases (is_member n numbers)) [
  | inl e ↦ rw e d
  | inr e ↦ rw e (Distinct-append n numbers e d)
]

pub add_number_in_memory-All {κ} :
    (P : List ℕ → Type κ) (n : List ℕ) (numbers : List (List ℕ))
    → P n
    → All P numbers
    → All P (add_number_in_memory n numbers)
add_number_in_memory-All P n numbers p h = elim (Bool-cases (is_member n numbers)) [
  | inl e ↦ rw e h
  | inr e ↦ rw e (All-append P numbers (n ∷ []) h (p, tt))
]

not_member-remove_first :
    (x n : List ℕ) (numbers : List (List ℕ))
    → is_member x numbers ≡ false
    → is_member x (remove_first n numbers) ≡ false
unfolding remove_first
not_member-remove_first x n [] h = refl
not_member-remove_first x n (y ∷ numbers) h = elim (Bool-cases (text_eq y x)) [
  | inl e ↦ let on = (rw e at h) in absurd (cc on)
  | inr e ↦ elim (Bool-cases (text_eq y n)) [
    | inl f ↦ rw f (rw e at h)
    | inr f ↦ rw (f, e) (not_member-remove_first x n numbers (rw e at h))
  ]
]

pub remove_first-Distinct :
    (n : List ℕ) (numbers : List (List ℕ)) → Distinct numbers → Distinct (remove_first n numbers)
unfolding remove_first
remove_first-Distinct n [] d = tt
remove_first-Distinct n (y ∷ numbers) d = elim (Bool-cases (text_eq y n)) [
  | inl f ↦ rw f d.1
  | inr f ↦ rw f (not_member-remove_first y n numbers d.0, remove_first-Distinct n numbers d.1)
]

pub remove_first-All {κ} :
    (P : List ℕ → Type κ) (n : List ℕ) (numbers : List (List ℕ))
    → All P numbers
    → All P (remove_first n numbers)
unfolding remove_first
remove_first-All P n [] h = h
remove_first-All P n (y ∷ numbers) h = elim (Bool-cases (text_eq y n)) [
  | inl f ↦ rw f h.1
  | inr f ↦ rw f (h.0, remove_first-All P n numbers h.1)
]

-- Membership behind a removal from a list without repetition.
pub is_member-remove_first :
    (x n : List ℕ) (numbers : List (List ℕ))
    → Distinct numbers
    → is_member x (remove_first n numbers) ≡ (if text_eq n x then false else is_member x numbers)
unfolding remove_first
is_member-remove_first x n [] d = ground arith
is_member-remove_first x n (y ∷ numbers) d = elim (Bool-cases (text_eq y n)) [
  | inl f ↦
      let same : y ≡ n = (text_eq_iff y n).0 f in
      elim (Bool-cases (text_eq n x)) [
        | inl g ↦
            rw (f, g)
              (subst (λ (z : List ℕ). is_member z numbers ≡ false) (same ∙ (text_eq_iff n x).0 g)
                d.0)
        | inr g ↦
            let off : text_eq y x ≡ false = ap (λ (z : List ℕ). text_eq z x) same ∙ g in
            rw (f, g, off) refl
      ]
  | inr f ↦ elim (Bool-cases (text_eq y x)) [
    | inl g ↦
        let off : text_eq n x ≡ false =
          text_eq_sym n x ∙ ap (λ (z : List ℕ). text_eq z n) (sym ((text_eq_iff y x).0 g)) ∙ f in
        rw (f, g, off) refl
    | inr g ↦ rw (f, g) (is_member-remove_first x n numbers d.1)
  ]
]

pub remove_first_absent :
    (n : List ℕ) (numbers : List (List ℕ))
    → is_member n numbers ≡ false
    → remove_first n numbers ≡ numbers
unfolding remove_first
remove_first_absent n [] h = refl
remove_first_absent n (y ∷ numbers) h = elim (Bool-cases (text_eq y n)) [
  | inl e ↦ let on = (rw e at h) in absurd (cc on)
  | inr e ↦ rw e (ap (λ (l : List (List ℕ)). y ∷ l) (remove_first_absent n numbers (rw e at h)))
]
