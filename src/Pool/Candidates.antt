-- ===== src/Pool/Candidates.antt =====
-- internal/pool/pool.go: the candidates are the ready modems.
use gsm2mqtt.Base.{
  ℕ, zero, suc, ◌+◌, ◌-◌, ◌*◌, ◌%◌, ◌≤◌, ◌<◌, Bool, true, false, List, [], ◌∷◌, ltb, ◌==◌, length,
  get_or, filter_by, text_eq, text_eq_iff, Memᴰ, Bool-cases, ◌≡◌, refl, sym, ap, ◌∙◌, ◌↔◌, inl, inr,
  arith, subst,
}
use gsm2mqtt.Pool.{ModemMember, ltz, pick_best_signal, without_id, prepend_candidate, rotate}
use mathlib.Core.List.Memᴰ
use native.Mathlib.Nat.{mod-lt, mod-eq_of_lt, add-mul-mod_self_left}

-- No two modems of the list with one identifier.
abbrev pub Distinct : List ModemMember → Type 0
Distinct ms = (x y : ModemMember) → Memᴰ x ms → Memᴰ y ms → x.id ≡ y.id → x ≡ y

-- The modems of the one list are those of the other.
abbrev pub SameModems : List ModemMember → List ModemMember → Type 0
SameModems xs ys = (m : ModemMember) → Memᴰ m xs ↔ Memᴰ m ys

pub best-Mem :
    (best : ModemMember) (ms : List ModemMember) → Memᴰ (pick_best_signal best ms) (best ∷ ms)
unfolding pick_best_signal
best-Mem best [] = Memᴰ.head refl
best-Mem best (m ∷ ms) = elim (Bool-cases (ltz best.signal m.signal)) [
  | inl e ↦ rw e (Memᴰ.tail (best-Mem m ms))
  | inr e ↦ rw e (elim (Memᴰ.cases_cons (best-Mem best ms)) [
    | inl same ↦ Memᴰ.head same
    | inr later ↦ Memᴰ.tail (Memᴰ.tail later)
  ])
]

without_id-Mem :
    (id : List ℕ) (ms : List ModemMember) (m : ModemMember)
    → Memᴰ m (without_id id ms) ↔ (Memᴰ m ms × (text_eq m.id id ≡ false))
unfolding without_id
without_id-Mem id [] m = (λ h. absurd (Memᴰ.not-nil h), λ h. absurd (Memᴰ.not-nil h.0))
without_id-Mem id (x ∷ ms) m =
    let rest = without_id-Mem id ms m in
    elim (Bool-cases (text_eq x.id id)) [
      | inl e ↦ rw e (
        λ h. (Memᴰ.tail (rest.0 h).0, (rest.0 h).1),
        λ h. elim (Memᴰ.cases_cons h.0) [
          | inl same ↦ let on : text_eq m.id id ≡ true = rw same e in let off = h.1 in cc
          | inr later ↦ rest.1 (later, h.1)
        ],
      )
      | inr e ↦ rw e (
        λ h. elim (Memᴰ.cases_cons h) [
          | inl same ↦ (Memᴰ.head same, rw same e)
          | inr later ↦ (Memᴰ.tail (rest.0 later).0, (rest.0 later).1)
        ],
        λ h. elim (Memᴰ.cases_cons h.0) [
          | inl same ↦ Memᴰ.head same
          | inr later ↦ Memᴰ.tail (rest.1 (later, h.1))
        ],
      )
    ]

-- A modem of the list moved to its front.
pub prepend-SameModems :
    (ms : List ModemMember) (first : ModemMember)
    → Distinct ms
    → Memᴰ first ms
    → SameModems (prepend_candidate ms first) ms
unfolding prepend_candidate
prepend-SameModems ms first distinct here m = (
  λ h. elim (Memᴰ.cases_cons h) [
    | inl same ↦ Memᴰ.cast same here
    | inr later ↦ ((without_id-Mem first.id ms m).0 later).0
  ],
  λ h. elim (Bool-cases (text_eq m.id first.id)) [
    | inl e ↦ Memᴰ.head (distinct m first h here ((text_eq_iff m.id first.id).0 e))
    | inr e ↦ Memᴰ.tail ((without_id-Mem first.id ms m).1 (h, e))
  ],
)

module _ (d : ModemMember) where
  get_or-Mem : (ms : List ModemMember) (i : ℕ) → i < length ms → Memᴰ (get_or ms i d) ms
  get_or-Mem [] i h = absurd (omega arith)
  get_or-Mem (m ∷ ms) zero h = Memᴰ.head refl
  get_or-Mem (m ∷ ms) (suc i) h = Memᴰ.tail (get_or-Mem ms i (omega arith))

  Mem-index :
      (ms : List ModemMember) (x : ModemMember)
      → Memᴰ x ms
      → (j : ℕ) × (j < length ms) × (get_or ms j d ≡ x)
  Mem-index [] x h = absurd (Memᴰ.not-nil h)
  Mem-index (m ∷ ms) x h = elim (Memᴰ.cases_cons h) [
    | inl same ↦ (0, omega arith, sym same)
    | inr later ↦ let r = Mem-index ms x later in (suc r.0, omega (arith, r.1), r.2)
  ]

  module _ (ms : List ModemMember) (start : ℕ) (filled : 0 < length ms) where
    rotate-Mem : (i n : ℕ) (x : ModemMember) → Memᴰ x (rotate d ms start i n) → Memᴰ x ms
    unfolding rotate
    rotate-Mem i zero x h = absurd (Memᴰ.not-nil h)
    rotate-Mem i (suc n) x h = elim (Memᴰ.cases_cons h) [
      | inl same ↦
          Memᴰ.cast same (get_or-Mem ms ((start + i) % length ms) (mod-lt (start + i) filled))
      | inr later ↦ rotate-Mem (i + 1) n x later
    ]

    Mem-rotate :
        (i n k : ℕ)
        → i ≤ k
        → k < i + n
        → Memᴰ (get_or ms ((start + k) % length ms) d) (rotate d ms start i n)
    unfolding rotate
    Mem-rotate i zero k h l = absurd (omega arith)
    Mem-rotate i (suc n) k h l = elim (Bool-cases (i == k)) [
      | inl e ↦ let same : k ≡ i = ground arith in rw same (Memᴰ.head refl)
      | inr e ↦ Memᴰ.tail (Mem-rotate (i + 1) n k (ground arith) (omega arith))
    ]

    -- The round reaches every index.
    reach :
        (j : ℕ)
        → start < length ms
        → j < length ms
        → (k : ℕ) × (k < length ms) × ((start + k) % length ms ≡ j)
    reach j s h = elim (Bool-cases (ltb j start)) [
      | inl e ↦
          let k : ℕ = j + length ms - start in
          let sum : start + k ≡ j + length ms * 1 = ground arith in
          (
            k,
            ground arith,
            ap (λ (t : ℕ). t % length ms) sum
                ∙ add-mul-mod_self_left j (length ms) 1
                ∙ mod-eq_of_lt h,
          )
      | inr e ↦
          let sum : start + (j - start) ≡ j = ground arith in
          (j - start, omega (arith, h), ap (λ (t : ℕ). t % length ms) sum ∙ mod-eq_of_lt h)
    ]

    pub rotate-SameModems : start < length ms → SameModems (rotate d ms start 0 (length ms)) ms
    rotate-SameModems s x = (
      rotate-Mem 0 (length ms) x,
      λ h.
          let at = Mem-index ms x h in
          let k = reach at.0 s at.1 in
          subst (λ (m : ModemMember). Memᴰ m (rotate d ms start 0 (length ms)))
            (ap (λ (i : ℕ). get_or ms i d) k.2 ∙ at.2)
            (Mem-rotate 0 (length ms) k.0 (omega arith) (omega (arith, k.1))),
    )

pub filter_by-Mem :
    (p : ModemMember → Bool) (ms : List ModemMember) (m : ModemMember)
    → Memᴰ m (filter_by p ms) ↔ (Memᴰ m ms × (p m ≡ true))
filter_by-Mem p [] m = (λ h. absurd (Memᴰ.not-nil h), λ h. absurd (Memᴰ.not-nil h.0))
filter_by-Mem p (x ∷ ms) m =
    let rest = filter_by-Mem p ms m in
    elim (Bool-cases (p x)) [
      | inl e ↦ rw e (
        λ h. elim (Memᴰ.cases_cons h) [
          | inl same ↦ (Memᴰ.head same, rw same e)
          | inr later ↦ (Memᴰ.tail (rest.0 later).0, (rest.0 later).1)
        ],
        λ h. elim (Memᴰ.cases_cons h.0) [
          | inl same ↦ Memᴰ.head same
          | inr later ↦ Memᴰ.tail (rest.1 (later, h.1))
        ],
      )
      | inr e ↦ rw e (
        λ h. (Memᴰ.tail (rest.0 h).0, (rest.0 h).1),
        λ h. elim (Memᴰ.cases_cons h.0) [
          | inl same ↦ let off : p m ≡ false = rw same e in let on = h.1 in cc
          | inr later ↦ rest.1 (later, h.1)
        ],
      )
    ]
