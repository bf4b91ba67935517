-- ===== src/Pdu/Septets/Value.antt =====
-- The octets as one number, lowest octet first, and how one septet is written to it and read back.
use gsm2mqtt.Base.{
  ℕ, zero, suc, ◌+◌, ◌-◌, ◌*◌, ◌/◌, ◌%◌, ◌^◌, ◌<◌, bit_and, bit_or, List, [], ◌∷◌, length, get_or,
  get_or_beyond, get_or-All, lt→ltb, Bool-cases, inl, inr, ltb, if◌then◌else◌, ◌&&◌, All, ◌≡◌, refl,
  sym, ap, ◌∙◌, arith, drop,
}
use gsm2mqtt.Base.Bits.{bit_or-zero, pow-add, bit_or_disjoint, bit_and_mask}
use gsm2mqtt.Pdu.Types.{ok, index}
use gsm2mqtt.Pdu.Septets.{IsByte, septet_at}
use native.Mathlib.Numerals.{add-one}
use native.Mathlib.Nat.{mod-lt}
use native.Mathlib.Nat.{
  zero-div, zero-mul, mul-lt-mul_of_pos_right, div-add-mod, div-lt_iff_lt-mul, add-mul-div_left,
}

abbrev pub value : List ℕ → ℕ
value [] = 0
value (b ∷ bs) = b + 256 * value bs

-- A power of two below 256 and the one that completes it.
pub pow_split : (off : ℕ) → off < 9 → 2 ^ (8 - off) * 2 ^ off ≡ 256
pow_split off h =
    let whole : 8 - off + off ≡ 8 = omega arith in
    sym (pow-add 2 (8 - off) off) ∙ ap (λ (t : ℕ). 2 ^ t) whole

-- `b << (8 - off)` in a byte keeps the low bits of `b`, above those of `a >> off`.
module _ (a b p q k : ℕ) (e : q * p ≡ 256) (power : 2 ^ k ≡ q) (ha : a < 256) where
  positive : (0 < p) × (0 < q)
  positive = (grind arith, grind arith)

  pub shifted : b * q ≡ 256 * (b / p) + b % p * q
  shifted = omega (arith, ap (λ (t : ℕ). t * q) (div-add-mod b p), ap (λ (t : ℕ). t * (b / p)) e)

  low_part : b % p * q < 256
  low_part = omega (arith, e, mul-lt-mul_of_pos_right (mod-lt b positive.0) positive.1)

  pub shifted_byte : b * q % 256 ≡ b % p * q
  shifted_byte = omega (arith, shifted, low_part)

  joined : bit_or (a / p) (b * q % 256) ≡ a / p + b % p * q
  joined =
      ap (bit_or (a / p)) (shifted_byte ∙ ap (λ (t : ℕ). b % p * t) (sym power))
      ∙ bit_or_disjoint k (a / p) (b % p)
          (rw power ((div-lt_iff_lt-mul positive.0).1 (omega arith)))
      ∙ ap (λ (t : ℕ). a / p + b % p * t) power

  divided : (w : ℕ) → (a + 256 * (b + 256 * w)) / p ≡ a / p + b % p * q + 256 * (b / p + q * w)
  divided w =
      ap (λ (t : ℕ). t / p) (omega (arith, ap (λ (t : ℕ). t * (b + 256 * w)) e))
      ∙ add-mul-div_left a (q * (b + 256 * w)) positive.0
      ∙ omega (arith, shifted)

-- Reading two octets, in arithmetic.
read_pair :
    (a b w off : ℕ)
    → a < 256
    → off < 8
    → bit_and
        (if ltb 1 off then bit_or (a / 2 ^ off) (b * 2 ^ (8 - off) % 256) else a / 2 ^ off)
        0x7F
      ≡ (a + 256 * (b + 256 * w)) / 2 ^ off % 128
read_pair a b w zero ha ho = omega (arith, bit_and_mask 7 (a / 2 ^ 0))
read_pair a b w (suc zero) ha ho = omega (arith, bit_and_mask 7 (a / 2 ^ 1))
read_pair a b w (suc (suc m)) ha ho =
    let off : ℕ = suc (suc m) in
    let p : ℕ = 2 ^ off in
    let q : ℕ = 2 ^ (8 - off) in
    let e : q * p ≡ 256 = pow_split off (omega arith) in
    rw (lt→ltb 1 (suc (suc m)) (omega arith)) (
      omega (
        arith,
        bit_and_mask 7 (bit_or (a / p) (b * q % 256)),
        joined a b p q (8 - off) e refl ha,
        divided a b p q (8 - off) e refl ha w,
      ))

pub value-drop :
    (xs : List ℕ) (i : ℕ) → value (drop i xs) ≡ get_or xs i 0 + 256 * value (drop (suc i) xs)
value-drop [] zero = omega arith
value-drop [] (suc i) = omega arith
value-drop (x ∷ xs) zero = omega arith
value-drop (x ∷ xs) (suc i) = value-drop xs i

module _ (xs : List ℕ) (i off : ℕ) where
  low_guard : (if ltb i (length xs) then get_or xs i 0 / 2 ^ off else 0) ≡ get_or xs i 0 / 2 ^ off
  low_guard = elim (Bool-cases (ltb i (length xs))) [
    | inl e ↦ rw e
    | inr e ↦ rw e (
        sym
          (ap (λ (t : ℕ). t / 2 ^ off) (get_or_beyond 0 xs i (ground arith)) ∙ zero-div (2 ^ off)))
  ]

  high_guard :
      (v : ℕ)
      → (if ltb 1 off && ltb (i + 1) (length xs)
          then bit_or v (get_or xs (i + 1) 0 * 2 ^ (8 - off) % 256)
          else v)
        ≡ (if ltb 1 off then bit_or v (get_or xs (i + 1) 0 * 2 ^ (8 - off) % 256) else v)
  high_guard v = elim (Bool-cases (ltb (i + 1) (length xs))) [
    | inl e ↦ ground arith
    | inr e ↦
        let beyond : get_or xs (i + 1) 0 ≡ 0 = get_or_beyond 0 xs (i + 1) (ground arith) in
        rw (e, beyond) (ground (arith, bit_or-zero v, zero-mul (2 ^ (8 - off))))
  ]

-- What septet_at reads, for guards that hold.
abbrev septet_read : List ℕ → ℕ → ℕ → ℕ
septet_read octets byte_idx bit_offset =
    let val =
      if ltb byte_idx (length octets) then get_or octets byte_idx 0 / 2 ^ bit_offset else 0 in
    let val' =
      if ltb 1 bit_offset && ltb (byte_idx + 1) (length octets)
      then bit_or val (get_or octets (byte_idx + 1) 0 * 2 ^ (8 - bit_offset) % 256)
      else val in
    bit_and val' 0x7F

-- The guards keep both reads of a septet in range.
septet_at-septet_read :
    (octets : List ℕ) (byte_idx bit_offset : ℕ)
    → septet_at octets byte_idx bit_offset ≡ ok (septet_read octets byte_idx bit_offset)
unfolding septet_at index
septet_at-septet_read octets byte_idx bit_offset = ground arith

-- A septet is read without a panic.
pub septet_at-ok :
    (octets : List ℕ) (byte_idx bit_offset : ℕ)
    → (s : ℕ) × (septet_at octets byte_idx bit_offset ≡ ok s)
septet_at-ok octets byte_idx bit_offset =
    (septet_read octets byte_idx bit_offset, septet_at-septet_read octets byte_idx bit_offset)

septet_read-value :
    (xs : List ℕ) (i off : ℕ)
    → All IsByte xs
    → off < 8
    → septet_read xs i off ≡ value (drop i xs) / 2 ^ off % 128
septet_read-value xs i off bytes h =
    let a : ℕ = get_or xs i 0 in
    let b : ℕ = get_or xs (i + 1) 0 in
    let w : ℕ = value (drop (suc (suc i)) xs) in
    let split : value (drop i xs) ≡ a + 256 * (b + 256 * w) =
      rw (add-one i) (omega (arith, value-drop xs i, value-drop xs (suc i))) in
    rw (low_guard xs i off, high_guard xs i off (a / 2 ^ off), split)
      (read_pair a b w off (get_or-All 0 IsByte xs i (omega arith) bytes) h)

-- The loop's own tests on the index change nothing: past the end there are zeros.
pub septet_at-value :
    (xs : List ℕ) (i off : ℕ)
    → All IsByte xs
    → off < 8
    → septet_at xs i off ≡ ok (value (drop i xs) / 2 ^ off % 128)
septet_at-value xs i off bytes h =
    septet_at-septet_read xs i off ∙ ap (λ (n : ℕ). ok n) (septet_read-value xs i off bytes h)
