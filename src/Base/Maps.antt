-- ===== src/Base/Maps.antt =====
-- Go's maps as association lists: a key is stored at most once.
use mathlib.Core.Path.{◌≡◌, refl}
use mathlib.Core.Logic.{◌↔◌, ◌≢◌, inl, inr}
use mathlib.Core.Bool.{Bool, true, false}
use mathlib.Core.Option.{Option, none, some}
use mathlib.Core.List.{List, [], ◌∷◌}
use gsm2mqtt.Base.Tests.{if◌then◌else◌, Bool-cases}

module _ {ℓ κ} {K : Type ℓ} {V : Type κ} (eq : K → K → Bool) where
  -- `m[k]`
  abbrev pub lookup : K → List (K × V) → Option V
  lookup k [] = none
  lookup k ((j, v) ∷ m) = if eq j k then some v else lookup k m

  -- `delete(m, k)`
  abbrev pub delete : K → List (K × V) → List (K × V)
  delete k [] = []
  delete k ((j, v) ∷ m) = let rest = delete k m in if eq j k then rest else (j, v) ∷ rest

  -- `m[k] = v`
  abbrev pub insert : K → V → List (K × V) → List (K × V)
  insert k v m = (k, v) ∷ delete k m

-- The loop that deletes the entries that fail a test.
abbrev pub keep {ℓ κ} : {K : Type ℓ} {V : Type κ} → (V → Bool) → List (K × V) → List (K × V)
keep p [] = []
keep p ((j, v) ∷ m) = let rest = keep p m in if p v then (j, v) ∷ rest else rest

module _ {ℓ} {K : Type ℓ} (eq : K → K → Bool) (eq_iff : (a b : K) → (eq a b ≡ true) ↔ (a ≡ b)) where
  pub eq_same : (k : K) → eq k k ≡ true
  eq_same k = (eq_iff k k).1 refl

  pub eq_other : (a b : K) → a ≢ b → eq a b ≡ false
  eq_other a b ne = elim (Bool-cases (eq a b)) [
    | inl h ↦ absurd (ne ((eq_iff a b).0 h))
    | inr h ↦ h
  ]

module _ {ℓ κ} {K : Type ℓ} {V : Type κ} (eq : K → K → Bool)
    (eq_iff : (a b : K) → (eq a b ≡ true) ↔ (a ≡ b)) where
  pub lookup-delete_same : (k : K) (m : List (K × V)) → lookup eq k (delete eq k m) ≡ none
  lookup-delete_same k [] = refl
  lookup-delete_same k ((j, v) ∷ m) = elim (Bool-cases (eq j k)) [
    | inl h ↦ rw h (lookup-delete_same k m)
    | inr h ↦ rw (h, h) (lookup-delete_same k m)
  ]

  pub lookup-delete_other :
      (k d : K) (m : List (K × V)) → d ≢ k → lookup eq k (delete eq d m) ≡ lookup eq k m
  lookup-delete_other k d [] ne = refl
  lookup-delete_other k d ((j, v) ∷ m) ne = elim (Bool-cases (eq j d)) [
    | inl h ↦
        let same : j ≡ d = (eq_iff j d).0 h in
        let off : eq j k ≡ false = rw same (eq_other eq eq_iff d k ne) in
        rw (h, off) (lookup-delete_other k d m ne)
    | inr h ↦ rw (h, lookup-delete_other k d m ne) refl
  ]

  pub lookup-insert_same :
      (k : K) (v : V) (m : List (K × V)) → lookup eq k (insert eq k v m) ≡ some v
  lookup-insert_same k v m = rw (eq_same eq eq_iff k) refl

  pub lookup-insert_other :
      (k d : K) (v : V) (m : List (K × V)) → d ≢ k → lookup eq k (insert eq d v m) ≡ lookup eq k m
  lookup-insert_other k d v m ne = rw (eq_other eq eq_iff d k ne) (lookup-delete_other k d m ne)

  -- Nothing is deleted where the key is not there.
  pub delete_absent : (k : K) (m : List (K × V)) → lookup eq k m ≡ none → delete eq k m ≡ m
  delete_absent k [] h = refl
  delete_absent k ((j, v) ∷ m) h = elim (Bool-cases (eq j k)) [
    | inl e ↦ let found = (rw e at h) in cc
    | inr e ↦ rw (e, delete_absent k m (rw e at h)) refl
  ]

  -- An entry that passes the test is kept, and a key that is not there does not appear.
  pub lookup-keep-some :
      (p : V → Bool) (k : K) (v : V) (m : List (K × V))
      → lookup eq k m ≡ some v
      → p v ≡ true
      → lookup eq k (keep p m) ≡ some v
  lookup-keep-some p k v [] h t = h
  lookup-keep-some p k v ((j, w) ∷ m) h t = elim (Bool-cases (eq j k)) [
    | inl e ↦
        let found : some w ≡ some v = (rw e at h) in
        let same : w ≡ v = cc in let pass : p w ≡ true = rw same t in rw (pass, e, same) refl
    | inr e ↦
        let rest = lookup-keep-some p k v m (rw e at h) t in
        elim (Bool-cases (p w)) [ inl f ↦ rw (f, e) rest | inr f ↦ rw f rest ]
  ]

  pub lookup-keep-none :
      (p : V → Bool) (k : K) (m : List (K × V))
      → lookup eq k m ≡ none
      → lookup eq k (keep p m) ≡ none
  lookup-keep-none p k [] h = refl
  lookup-keep-none p k ((j, w) ∷ m) h = elim (Bool-cases (eq j k)) [
    | inl e ↦ let found = (rw e at h) in cc
    | inr e ↦
        let rest = lookup-keep-none p k m (rw e at h) in
        elim (Bool-cases (p w)) [ inl f ↦ rw (f, e) rest | inr f ↦ rw f rest ]
  ]
