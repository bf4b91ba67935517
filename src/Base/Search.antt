-- ===== src/Base/Search.antt =====
-- What a search through a list by a test finds.
use mathlib.Core.Path.{◌≡◌, refl, subst, sym, ap₂}
use mathlib.Core.Logic.{◌↔◌, inl, inr}
use mathlib.Core.Bool.{Bool, true, false}
use mathlib.Core.List.{List, [], ◌∷◌, ◌++◌, Memᴰ}
use mathlib.Core.List.Memᴰ
use Prim.Native.Nat.{ℕ}
use gsm2mqtt.Base.Tests.{◌==◌, if◌then◌else◌, Bool-cases, ==_iff}
use gsm2mqtt.Base.Lists.{All, any_by}
use gsm2mqtt.Base.Text.{is_empty, has_prefix}

module _ {ℓ} {A : Type ℓ} (p : A → Bool) where
  found : (xs : List A) → any_by p xs ≡ true → (x : A) × Memᴰ x xs × (p x ≡ true)
  found [] h = cc
  found (x ∷ xs) h = elim (Bool-cases (p x)) [
    | inl e ↦ (x, Memᴰ.head refl, e)
    | inr e ↦ let r = found xs (rw e at h) in (r.0, Memᴰ.tail r.1, r.2)
  ]

  finds : (xs : List A) (x : A) → Memᴰ x xs → p x ≡ true → any_by p xs ≡ true
  finds [] x m e = absurd (Memᴰ.not-nil m)
  finds (y ∷ xs) x m e = elim (Memᴰ.cases_cons m) [
    | inl same ↦ let h : p y ≡ true = rw (sym same) e in rw h refl
    | inr later ↦
        let rest = finds xs x later e in
        elim (Bool-cases (p y)) [ inl h ↦ rw h refl | inr h ↦ rw h rest ]
  ]

  pub any_by_iff : (xs : List A) → (any_by p xs ≡ true) ↔ ((x : A) × Memᴰ x xs × (p x ≡ true))
  any_by_iff xs = (found xs, λ t. finds xs t.0 t.1 t.2)

-- The texts that `clean` gives of a list, without the empty ones.
abbrev pub collect : (List ℕ → List ℕ) → List (List ℕ) → List (List ℕ)
collect clean [] = []
collect clean (s ∷ ss) =
    let rest = collect clean ss in if is_empty (clean s) then rest else clean s ∷ rest

module _ (clean : List ℕ → List ℕ) where
  abbrev pub CleanOf : List (List ℕ) → List ℕ → Type 0
  CleanOf ss e = (s : List ℕ) × Memᴰ s ss × (clean s ≡ e) × (is_empty e ≡ false)

  collected : (ss : List (List ℕ)) (e : List ℕ) → Memᴰ e (collect clean ss) → CleanOf ss e
  collected [] e m = absurd (Memᴰ.not-nil m)
  collected (s ∷ ss) e m = elim (Bool-cases (is_empty (clean s))) [
    | inl h ↦
        let same : collect clean (s ∷ ss) ≡ collect clean ss = rw h refl in
        let r = collected ss e (subst (Memᴰ e) same m) in (r.0, Memᴰ.tail r.1, r.2, r.3)
    | inr h ↦
        let same : collect clean (s ∷ ss) ≡ clean s ∷ collect clean ss = rw h refl in
        elim (Memᴰ.cases_cons (subst (Memᴰ e) same m)) [
          | inl here ↦ (s, Memᴰ.head refl, sym here, rw here h)
          | inr later ↦ let r = collected ss e later in (r.0, Memᴰ.tail r.1, r.2, r.3)
        ]
  ]

  collects : (ss : List (List ℕ)) (e : List ℕ) → CleanOf ss e → Memᴰ e (collect clean ss)
  collects [] e t = absurd (Memᴰ.not-nil t.1)
  collects (s ∷ ss) e (x, m, same, full) = elim (Memᴰ.cases_cons m) [
    | inl here ↦ let eq : clean s ≡ e = rw (sym here) same in rw (eq, full) (Memᴰ.head refl)
    | inr later ↦
        let rest = collects ss e (x, later, same, full) in
        elim (Bool-cases (is_empty (clean s))) [ inl h ↦ rw h rest | inr h ↦ rw h (Memᴰ.tail rest) ]
  ]

  pub collect_iff : (ss : List (List ℕ)) (e : List ℕ) → Memᴰ e (collect clean ss) ↔ CleanOf ss e
  collect_iff ss e = (collected ss e, collects ss e)

prefix_rest : (s p : List ℕ) → has_prefix s p ≡ true → (rest : List ℕ) × (s ≡ p ++ rest)
prefix_rest s [] h = (s, refl)
prefix_rest [] (p ∷ ps) h = cc
prefix_rest (r ∷ s) (p ∷ ps) h = elim (Bool-cases (r == p)) [
  | inl e ↦
      let t = prefix_rest s ps (rw e at h) in
      (t.0, ap₂ (λ (a : ℕ) (b : List ℕ). a ∷ b) ((==_iff r p).0 e) t.1)
  | inr e ↦ let h2 = (rw e at h) in cc
]

has_prefix-append : (p rest : List ℕ) → has_prefix (p ++ rest) p ≡ true
has_prefix-append [] rest = refl
has_prefix-append (p ∷ ps) rest = rw ((==_iff p p).1 refl) (has_prefix-append ps rest)

pub has_prefix_iff : (s p : List ℕ) → (has_prefix s p ≡ true) ↔ ((rest : List ℕ) × (s ≡ p ++ rest))
has_prefix_iff s p = (prefix_rest s p, λ t. rw t.1 (has_prefix-append p t.0))

pub All-Memᴰ {ℓ κ} :
    {A : Type ℓ} (P : A → Type κ) (x : A) (xs : List A) → All P xs → Memᴰ x xs → P x
All-Memᴰ P x [] h m = absurd (Memᴰ.not-nil m)
All-Memᴰ P x (y ∷ xs) h m = elim (Memᴰ.cases_cons m) [
  | inl e ↦ subst P (sym e) h.0
  | inr later ↦ All-Memᴰ P x xs h.1 later
]
