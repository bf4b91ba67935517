-- ===== src/Pdu/Septets/Pack.antt =====
-- Packing adds each septet to the number that the octets stand for, above all earlier ones.
use gsm2mqtt.Base.{
  ℕ, zero, suc, ◌+◌, ◌-◌, ◌*◌, ◌/◌, ◌%◌, ◌^◌, ◌≤◌, ◌<◌, bit_and, bit_or, List, [], ◌∷◌, length,
  get_or, set, replicate, ltb, All, ◌≡◌, refl, ap, ◌∙◌, arith, drop, length-set, length-replicate,
  get_or-All, subst, Bool-cases, inl, inr,
}
use gsm2mqtt.Base.Bits.{pow-add, bit_or_disjoint, bit_and_mask, bit_or_lt}
use gsm2mqtt.Pdu.Septets.{IsByte, pack_step, pack_loop, pack_septets, or_at, octets_for}
use gsm2mqtt.Pdu.Septets.Value.{value, value-drop, pow_split, shifted, shifted_byte}
use gsm2mqtt.Pdu.Septets.Unpack.{value-div, pow_bytes}
use native.Mathlib.Nat.{
  pow-succ', one-le-pow, pow-le-pow_right, div-lt_iff_lt-mul, mul_comm, mod-eq_of_lt, mod-lt,
  div-le_self, div-eq_of_lt, mul-le-mul_right,
}
use native.Mathlib.Numerals.{add-one}

-- The number of the septets, lowest first.
abbrev pub septets_value : List ℕ → ℕ
septets_value [] = 0
septets_value (s ∷ ss) = s % 128 + 128 * septets_value ss

value-set :
    (xs : List ℕ) (i y : ℕ)
    → i < length xs
    → value (set xs i y) + get_or xs i 0 * 256 ^ i ≡ value xs + y * 256 ^ i
value-set [] i y h = absurd (omega arith)
value-set (x ∷ xs) zero y h = omega arith
value-set (x ∷ xs) (suc i) y h = omega (
  arith,
  value-set xs i y (omega arith),
  ap (λ (t : ℕ). get_or xs i 0 * t) (pow-succ' 256 i),
  ap (λ (t : ℕ). y * t) (pow-succ' 256 i),
)

set-IsByte : (xs : List ℕ) (i y : ℕ) → All IsByte xs → y < 256 → All IsByte (set xs i y)
set-IsByte [] i y h hy = tt
set-IsByte (x ∷ xs) zero y h hy = (hy, h.1)
set-IsByte (x ∷ xs) (suc i) y h hy = (h.0, set-IsByte xs i y h.1 hy)

-- Where the octet has nothing from bit `k` on, `|=` adds.
or_at-value :
    (xs : List ℕ) (i k q : ℕ)
    → i < length xs
    → get_or xs i 0 < 2 ^ k
    → value (or_at xs i (q * 2 ^ k)) ≡ value xs + q * 2 ^ k * 256 ^ i
or_at-value xs i k q h low = omega (
  arith,
  value-set xs i (bit_or (get_or xs i 0) (q * 2 ^ k)) h,
  ap (λ (t : ℕ). t * 256 ^ i) (bit_or_disjoint k (get_or xs i 0) q low),
)

get_or-set_next : (xs : List ℕ) (i y : ℕ) → get_or (set xs i y) (suc i) 0 ≡ get_or xs (suc i) 0
get_or-set_next [] i y = refl
get_or-set_next (x ∷ xs) zero y = refl
get_or-set_next (x ∷ xs) (suc i) y = get_or-set_next xs i y

-- What lies under 2 ^ pos fills the octets below bit `pos` only.
clear_above :
    (xs : List ℕ) (i off : ℕ)
    → All IsByte xs
    → off < 8
    → value xs < 256 ^ i * 2 ^ off
    → (get_or xs i 0 < 2 ^ off) × (get_or xs (suc i) 0 ≡ 0)
clear_above xs i off h ho hv =
    let x : ℕ = get_or xs i 0 in
    let fits : value (drop i xs) < 2 ^ off = rw (← value-div i xs h) (
      (div-lt_iff_lt-mul (one-le-pow i 256 (omega arith))).1
        (omega (arith, mul_comm (256 ^ i) (2 ^ off)))) in
    let small : 2 ^ off ≤ 128 = pow-le-pow_right (omega arith) {j = 7} (omega arith) in
    (omega (arith, value-drop xs i), omega (arith, value-drop xs i, value-drop xs (suc i)))

or_at_shape :
    (xs : List ℕ) (i y : ℕ)
    → All IsByte xs
    → y < 256
    → All IsByte (or_at xs i y) × (length (or_at xs i y) ≡ length xs)
or_at_shape xs i y h hy = (
  set-IsByte xs i _ h (bit_or_lt 8 (get_or xs i 0) y (get_or-All 0 IsByte xs i (omega arith) h) hy),
  length-set xs i _,
)

mod_16_8 : (x : ℕ) → x % 2 ^ 16 % 256 ≡ x % 256
mod_16_8 x = omega arith

pow_pos : (pos : ℕ) → 2 ^ pos ≡ 256 ^ (pos / 8) * 2 ^ (pos % 8)
pow_pos pos =
    let e : pos ≡ 8 * (pos / 8) + pos % 8 = omega arith in
    ap (λ (t : ℕ). 2 ^ t) e
    ∙ pow-add 2 (8 * (pos / 8)) (pos % 8)
    ∙ ap (λ (t : ℕ). t * 2 ^ (pos % 8)) (pow_bytes (pos / 8))

module _ (s pos : ℕ) where
  -- What the first `|=` adds: the bits of the septet that fit the octet.
  first_byte :
      bit_and s 0x7F * 2 ^ (pos % 8) % 2 ^ 16 % 256 ≡ s % 128 % 2 ^ (8 - pos % 8) * 2 ^ (pos % 8)
  first_byte =
      let off : ℕ = pos % 8 in
      let e : 2 ^ off * 2 ^ (8 - off) ≡ 256 =
        mul_comm (2 ^ off) (2 ^ (8 - off)) ∙ pow_split off (omega arith) in
      ap (λ (t : ℕ). t * 2 ^ off % 2 ^ 16 % 256) (bit_and_mask 7 s)
      ∙ mod_16_8 (s % 128 * 2 ^ off)
      ∙ shifted_byte 0 (s % 128) (2 ^ (8 - off)) (2 ^ off) off e refl (omega arith)

  -- What the second one adds: the rest of the septet.
  second_byte : bit_and s 0x7F / 2 ^ (8 - pos % 8) % 256 ≡ s % 128 / 2 ^ (8 - pos % 8)
  second_byte =
      ap (λ (t : ℕ). t / 2 ^ (8 - pos % 8) % 256) (bit_and_mask 7 s)
      ∙ mod-eq_of_lt (omega (arith, div-le_self (s % 128) (2 ^ (8 - pos % 8))))

module _ (n pos s : ℕ) (xs : List ℕ) (bytes : All IsByte xs) (len : length xs ≡ n) where
  pack_step_shape : All IsByte (pack_step n pos s xs) × (length (pack_step n pos s xs) ≡ n)
  unfolding pack_step
  pack_step_shape =
      let first =
        or_at_shape xs (pos / 8) _ bytes
          (mod-lt (bit_and s 0x7F * 2 ^ (pos % 8) % 2 ^ 16) {m = 256} (omega arith)) in
      let second =
        or_at_shape _ (pos / 8 + 1) _ first.0
          (mod-lt (bit_and s 0x7F / 2 ^ (8 - pos % 8)) {m = 256} (omega arith)) in
      elim (Bool-cases (ltb (pos / 8 + 1) n)) [
        | inl e ↦ rw e (second.0, second.1 ∙ first.1 ∙ len)
        | inr e ↦ rw e (first.0, first.1 ∙ len)
      ]

  module _ (room : pos + 7 ≤ 8 * n) (low : value xs < 2 ^ pos) where
    clear : (get_or xs (pos / 8) 0 < 2 ^ (pos % 8)) × (get_or xs (suc (pos / 8)) 0 ≡ 0)
    clear =
        clear_above xs (pos / 8) (pos % 8) bytes (omega arith)
          (subst (λ (t : ℕ). value xs < t) (pow_pos pos) low)

    abbrev once : List ℕ
    once = or_at xs (pos / 8) (bit_and s 0x7F * 2 ^ (pos % 8) % 2 ^ 16 % 256)

    once-value :
        value once ≡ value xs + s % 128 % 2 ^ (8 - pos % 8) * 2 ^ (pos % 8) * 256 ^ (pos / 8)
    once-value =
        ap (λ (t : ℕ). value (or_at xs (pos / 8) t)) (first_byte s pos)
        ∙ or_at-value xs (pos / 8) (pos % 8) (s % 128 % 2 ^ (8 - pos % 8)) (omega arith) clear.0

    twice-value :
        suc (pos / 8) < n
        → value (or_at once (suc (pos / 8)) (bit_and s 0x7F / 2 ^ (8 - pos % 8) % 256))
          ≡ value once + s % 128 / 2 ^ (8 - pos % 8) * 256 ^ suc (pos / 8)
    twice-value inside =
        let rest : ℕ = s % 128 / 2 ^ (8 - pos % 8) in
        let e : bit_and s 0x7F / 2 ^ (8 - pos % 8) % 256 ≡ rest * 2 ^ 0 =
          omega (arith, second_byte s pos) in
        ap (λ (t : ℕ). value (or_at once (suc (pos / 8)) t)) e
        ∙ or_at-value once (suc (pos / 8)) 0 rest (omega (arith, length-set xs (pos / 8) _))
            (omega (arith, get_or-set_next xs (pos / 8) _, clear.1))
        ∙ omega arith

    -- The two writes together add the septet at bit `pos`.
    both_parts :
        s % 128 * 2 ^ pos
        ≡ s % 128 % 2 ^ (8 - pos % 8) * 2 ^ (pos % 8) * 256 ^ (pos / 8)
          + s % 128 / 2 ^ (8 - pos % 8) * 256 ^ suc (pos / 8)
    both_parts =
        let off : ℕ = pos % 8 in
        let p : ℕ = 2 ^ (8 - off) in
        let e : 2 ^ off * p ≡ 256 = mul_comm (2 ^ off) p ∙ pow_split off (omega arith) in
        omega (
          arith,
          ap (λ (t : ℕ). s % 128 * t) (pow_pos pos),
          ap (λ (t : ℕ). t * 256 ^ (pos / 8))
              (shifted 0 (s % 128) p (2 ^ off) off e refl (omega arith)),
          ap (λ (t : ℕ). s % 128 / p * t) (pow-succ' 256 (pos / 8)),
        )

    -- At the last octet nothing of the septet is left over.
    nothing_left : n ≤ suc (pos / 8) → s % 128 / 2 ^ (8 - pos % 8) ≡ 0
    nothing_left last =
        let wide : 2 ^ 7 ≤ 2 ^ (8 - pos % 8) =
          pow-le-pow_right (omega arith) {i = 7} (omega arith) in
        div-eq_of_lt (omega arith)

    pack_step-value : value (pack_step n pos s xs) ≡ value xs + s % 128 * 2 ^ pos
    unfolding pack_step
    pack_step-value = elim (Bool-cases (ltb (pos / 8 + 1) n)) [
      | inl e ↦
          rw (e, add-one (pos / 8))
            (omega (arith, twice-value (ground arith), once-value, both_parts))
      | inr e ↦ rw e (
          omega (
            arith,
            once-value,
            both_parts,
            ap (λ (t : ℕ). t * 256 ^ suc (pos / 8)) (nothing_left (ground arith)),
          ))
    ]

    pack_step-lt : value (pack_step n pos s xs) < 2 ^ (pos + 7)
    pack_step-lt =
        let step : s % 128 * 2 ^ pos ≤ 127 * 2 ^ pos = mul-le-mul_right (2 ^ pos) (omega arith) in
        omega (arith, pack_step-value, pow-add 2 pos 7)

-- The loop adds all its septets above the bits that are there.
pack_loop-value :
    (n pos : ℕ) (ss xs : List ℕ)
    → All IsByte xs
    → length xs ≡ n
    → pos + 7 * length ss ≤ 8 * n
    → value xs < 2 ^ pos
    → value (pack_loop n pos ss xs) ≡ value xs + septets_value ss * 2 ^ pos
unfolding pack_loop
pack_loop-value n pos [] xs bytes len room low = omega arith
pack_loop-value n pos (s ∷ ss) xs bytes len room low =
    let shape = pack_step_shape n pos s xs bytes len in
    let here : pos + 7 ≤ 8 * n = omega arith in
    omega (
      arith,
      pack_loop-value n (pos + 7) ss (pack_step n pos s xs) shape.0 shape.1 (omega arith)
          (pack_step-lt n pos s xs bytes len here low),
      pack_step-value n pos s xs bytes len here low,
      ap (λ (t : ℕ). septets_value ss * t) (pow-add 2 pos 7),
    )

pack_loop_shape :
    (n pos : ℕ) (ss xs : List ℕ)
    → All IsByte xs
    → length xs ≡ n
    → All IsByte (pack_loop n pos ss xs) × (length (pack_loop n pos ss xs) ≡ n)
unfolding pack_loop
pack_loop_shape n pos [] xs bytes len = (bytes, len)
pack_loop_shape n pos (s ∷ ss) xs bytes len =
    let shape = pack_step_shape n pos s xs bytes len in
    pack_loop_shape n (pos + 7) ss (pack_step n pos s xs) shape.0 shape.1

zeros-value : (n : ℕ) → (value (replicate n 0) ≡ 0) × All IsByte (replicate n 0)
zeros-value zero = (refl, tt)
zeros-value (suc n) = let ih = zeros-value n in (omega arith, (omega arith, ih.1))

-- `pack_septets` yields bytes, as many as the bits need, whose number is that of the septets
-- shifted by `start_bit`.
pub pack_septets-value :
    (ss : List ℕ) (start_bit : ℕ)
    → (value (pack_septets ss start_bit) ≡ septets_value ss * 2 ^ start_bit)
      × All IsByte (pack_septets ss start_bit)
unfolding pack_septets
pack_septets-value [] start_bit = (omega arith, tt)
pack_septets-value (s ∷ ss) start_bit =
    let n : ℕ = octets_for start_bit (length (s ∷ ss)) in
    let zeros : (value (replicate n 0) ≡ 0) × All IsByte (replicate n 0) = zeros-value n in
    (
      pack_loop-value n start_bit (s ∷ ss) (replicate n 0) zeros.1 (length-replicate n 0)
            (omega arith) (omega (arith, zeros.0, one-le-pow start_bit 2))
          ∙ omega (arith, zeros.0),
      (pack_loop_shape n start_bit (s ∷ ss) (replicate n 0) zeros.1 (length-replicate n 0)).0,
    )

pub length-pack_septets :
    (s : ℕ) (ss : List ℕ) (start_bit : ℕ)
    → length (pack_septets (s ∷ ss) start_bit) ≡ octets_for start_bit (length (s ∷ ss))
unfolding pack_septets
length-pack_septets s ss start_bit =
    let n : ℕ = octets_for start_bit (length (s ∷ ss)) in
    (pack_loop_shape n start_bit (s ∷ ss) (replicate n 0) (zeros-value n).1
      (length-replicate n 0)).1
