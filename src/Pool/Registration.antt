-- ===== src/Pool/Registration.antt =====
-- internal/pool/pool.go: Register and Unregister keep one modem per identifier.
use gsm2mqtt.Base.{
  ℕ, Bool, true, false, List, [], ◌∷◌, any_by, text_eq, text_eq_iff, Memᴰ, Bool-cases, ◌≡◌, ◌⊎◌,
  refl, sym, ap, ◌∙◌, inl, inr, arith, subst,
}
use gsm2mqtt.Base.Search.{any_by_iff}
use gsm2mqtt.Pool.{ModemMember, Pool, register_in, register, unregister_in, unregister}
use gsm2mqtt.Pool.Candidates.{Distinct}
use mathlib.Core.List.Memᴰ

abbrev has_id : List ℕ → List ModemMember → Bool
has_id id ms = any_by (λ x. text_eq x.id id) ms

abbrev UniqueIds : List ModemMember → Type 0
UniqueIds [] = Unit {0}
UniqueIds (m ∷ ms) = (has_id m.id ms ≡ false) × UniqueIds ms

has_id-register_in :
    (id : List ℕ) (m : ModemMember) (ms : List ModemMember)
    → has_id id ms ≡ false
    → text_eq m.id id ≡ false
    → has_id id (register_in m ms) ≡ false
unfolding register_in
has_id-register_in id m [] h k = rw k refl
has_id-register_in id m (x ∷ ms) h k = elim (Bool-cases (text_eq x.id m.id)) [
  | inl e ↦ elim (Bool-cases (text_eq x.id id)) [
    | inl f ↦ let off = (rw f at h) in cc
    | inr f ↦ rw (e, k) (rw f at h)
  ]
  | inr e ↦ elim (Bool-cases (text_eq x.id id)) [
    | inl f ↦ let off = (rw f at h) in cc
    | inr f ↦ rw (e, f) (has_id-register_in id m ms (rw f at h) k)
  ]
]

register_in-UniqueIds :
    (m : ModemMember) (ms : List ModemMember) → UniqueIds ms → UniqueIds (register_in m ms)
unfolding register_in
register_in-UniqueIds m [] h = (refl, tt)
register_in-UniqueIds m (x ∷ ms) h = elim (Bool-cases (text_eq x.id m.id)) [
  | inl e ↦
      let same : x.id ≡ m.id = (text_eq_iff x.id m.id).0 e in
      rw e (subst (λ (id : List ℕ). has_id id ms ≡ false) same h.0, h.1)
  | inr e ↦
      let other : text_eq m.id x.id ≡ false =
        ground (arith, text_eq_iff x.id m.id, text_eq_iff m.id x.id, e) in
      rw e (has_id-register_in x.id m ms h.0 other, register_in-UniqueIds m ms h.1)
]

has_id-unregister_in :
    (id gone : List ℕ) (ms : List ModemMember)
    → has_id id ms ≡ false
    → has_id id (unregister_in gone ms) ≡ false
unfolding unregister_in
has_id-unregister_in id gone [] h = refl
has_id-unregister_in id gone (x ∷ ms) h = elim (Bool-cases (text_eq x.id id)) [
  | inl f ↦ let off = (rw f at h) in cc
  | inr f ↦ elim (Bool-cases (text_eq x.id gone)) [
    | inl e ↦ rw e (rw f at h)
    | inr e ↦ rw (e, f) (has_id-unregister_in id gone ms (rw f at h))
  ]
]

unregister_in-UniqueIds :
    (gone : List ℕ) (ms : List ModemMember) → UniqueIds ms → UniqueIds (unregister_in gone ms)
unfolding unregister_in
unregister_in-UniqueIds gone [] h = tt
unregister_in-UniqueIds gone (x ∷ ms) h = elim (Bool-cases (text_eq x.id gone)) [
  | inl e ↦ rw e h.1
  | inr e ↦ rw e (has_id-unregister_in x.id gone ms h.0, unregister_in-UniqueIds gone ms h.1)
]

has_id-Mem :
    (x : ModemMember) (id : List ℕ) (ms : List ModemMember)
    → Memᴰ x ms
    → x.id ≡ id
    → has_id id ms ≡ true
has_id-Mem x id ms h e =
    (any_by_iff (λ (y : ModemMember). text_eq y.id id) ms).1 (x, h, (text_eq_iff x.id id).1 e)

UniqueIds-Distinct : (ms : List ModemMember) → UniqueIds ms → Distinct ms
UniqueIds-Distinct [] u x y h k e = absurd (Memᴰ.not-nil h)
UniqueIds-Distinct (m ∷ ms) u x y h k e = elim (Memᴰ.cases_cons h) [
  | inl a ↦ elim (Memᴰ.cases_cons k) [
    | inl b ↦ a ∙ sym b
    | inr b ↦
        let on = has_id-Mem y m.id ms b (sym e ∙ ap (λ (n : ModemMember). n.id) a) in
        absurd (cc (u.0, on))
  ]
  | inr a ↦ elim (Memᴰ.cases_cons k) [
    | inl b ↦
        let on = has_id-Mem x m.id ms a (e ∙ ap (λ (n : ModemMember). n.id) b) in
        absurd (cc (u.0, on))
    | inr b ↦ UniqueIds-Distinct ms u.1 x y a b e
  ]
]

-- Calls of Register and Unregister.
abbrev pub Calls : Type 0
Calls = List (ModemMember ⊎ List ℕ)

abbrev pub built : Pool → Calls → Pool
built p [] = p
built p (inl m ∷ calls) = built (register m p) calls
built p (inr id ∷ calls) = built (unregister id p) calls

built-UniqueIds : (p : Pool) (calls : Calls) → UniqueIds p.modems → UniqueIds (built p calls).modems
unfolding register unregister
built-UniqueIds p [] h = h
built-UniqueIds p (inl m ∷ calls) h =
    built-UniqueIds (register m p) calls (register_in-UniqueIds m p.modems h)
built-UniqueIds p (inr id ∷ calls) h =
    built-UniqueIds (unregister id p) calls (unregister_in-UniqueIds id p.modems h)

-- After any calls of Register and Unregister on a pool without modems, two modems of the pool with
-- one identifier are the same modem.
pub built-Distinct : (p : Pool) (calls : Calls) → p.modems ≡ [] → Distinct (built p calls).modems
built-Distinct p calls e =
    UniqueIds-Distinct (built p calls).modems (built-UniqueIds p calls (rw e tt))
