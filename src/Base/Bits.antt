-- ===== src/Base/Bits.antt =====
-- `&`, `|` and shifts as arithmetic: the native bit operations mean a recursion on binary digits.
use Prim.Native.Nat.{
  ℕ, zero, suc, ◌+◌, ◌-◌, ◌*◌, ◌/◌, ◌%◌, ◌^◌, ◌≤◌, ◌<◌, min, max, bit_and, bit_or, digits, bitwise,
  bit_and-bitwise, bit_or-bitwise,
}
use mathlib.Core.Path.{◌≡◌, refl, ap, ◌∙◌}
use native.Mathlib.Nat.{add-suc, pow-suc, pow-succ', one-le-pow, mod-lt}
use native.Mathlib.Nat.{div-add-mod, mul-add-mod_self_left, mod-eq_of_lt}
use native.Mathlib.Numerals.{unary_clauses}
use native.Mathlib.Omega.{arith}

-- Fuel that is spare does not count: one unit of it, then any number of them.
module _ (low : ℕ → ℕ) (join : ℕ → ℕ → ℕ) where
  digits-suc : (fuel a b : ℕ) → a ≤ fuel → digits low join (suc fuel) a b ≡ digits low join fuel a b
  digits-suc zero zero b h = refl
  digits-suc (suc fuel) zero b h = refl
  digits-suc zero (suc a) b h = absurd (omega arith)
  digits-suc (suc fuel) (suc a) b h =
      let half = digits-suc fuel (suc a / 2) (b / 2) (omega arith) in rw half refl

  digits_spare :
      (k fuel a b : ℕ) → a ≤ fuel → digits low join (k + fuel) a b ≡ digits low join fuel a b
  digits_spare zero fuel a b h = ap (λ (n : ℕ). digits low join n a b) (omega arith)
  digits_spare (suc k) fuel a b h =
      let spare : suc k + fuel ≡ suc (k + fuel) = omega arith in
      ap (λ (n : ℕ). digits low join n a b) spare
      ∙ digits-suc (k + fuel) a b (omega arith)
      ∙ digits_spare k fuel a b h

  bitwise_halves :
      (a b : ℕ)
      → bitwise low join (suc a) b
        ≡ bitwise low join (suc a / 2) (b / 2) * 2 + join (suc a % 2) (b % 2)
  bitwise_halves a b =
      let half : ℕ = suc a / 2 in
      let fuel : a ≡ (a - half) + half = omega arith in
      let first =
        ap (λ (n : ℕ). digits low join n half (b / 2)) fuel
        ∙ digits_spare (a - half) half half (b / 2) (omega arith) in
      omega (arith, first)

pub bit_or_halves : (a b : ℕ) → bit_or a b ≡ bit_or (a / 2) (b / 2) * 2 + max (a % 2) (b % 2)
bit_or_halves zero b = simp bit_or-bitwise (omega arith)
bit_or_halves (suc a) b = simp bit_or-bitwise (bitwise_halves (λ y. y) max a b)

pub bit_and_halves : (a b : ℕ) → bit_and a b ≡ bit_and (a / 2) (b / 2) * 2 + min (a % 2) (b % 2)
bit_and_halves zero b = simp bit_and-bitwise (omega arith)
bit_and_halves (suc a) b = simp bit_and-bitwise (bitwise_halves (λ y. 0) min a b)

pub zero-bit_or : (b : ℕ) → bit_or 0 b ≡ b
zero-bit_or b = bit_or-bitwise 0 b

bit_and-zero_below : (n a : ℕ) → a ≤ n → bit_and a 0 ≡ 0
bit_and-zero_below n zero h = refl
bit_and-zero_below zero (suc a) h = absurd (omega arith)
bit_and-zero_below (suc n) (suc a) h =
    omega (arith, bit_and_halves (suc a) 0, bit_and-zero_below n (suc a / 2) (omega arith))

pub bit_and-zero : (a : ℕ) → bit_and a 0 ≡ 0
bit_and-zero a = bit_and-zero_below a a (omega arith)

bit_or-zero_below : (n a : ℕ) → a ≤ n → bit_or a 0 ≡ a
bit_or-zero_below n zero h = zero-bit_or 0
bit_or-zero_below zero (suc a) h = absurd (omega arith)
bit_or-zero_below (suc n) (suc a) h =
    omega (arith, bit_or_halves (suc a) 0, bit_or-zero_below n (suc a / 2) (omega arith))

pub bit_or-zero : (a : ℕ) → bit_or a 0 ≡ a
bit_or-zero a = bit_or-zero_below a a (omega arith)

double_pow : (q k : ℕ) → q * 2 ^ suc k ≡ 2 * (q * 2 ^ k)
double_pow q k = omega (arith, ap (λ (t : ℕ). q * t) (pow-suc 2 k))

-- Bits below k and bits from k on do not meet, so `|` adds them.
pub bit_or_disjoint : (k r q : ℕ) → r < 2 ^ k → bit_or r (q * 2 ^ k) ≡ r + q * 2 ^ k
bit_or_disjoint zero r q h = ground (arith, zero-bit_or (q * 2 ^ 0))
bit_or_disjoint (suc k) r q h = ground (
  arith,
  bit_or_halves r (q * 2 ^ suc k),
  double_pow q k,
  pow-suc 2 k,
  bit_or_disjoint k (r / 2) q (omega (arith, pow-suc 2 k)),
)

-- n = 2 q + r leaves r + 2 (q % d) modulo 2 d.
mod_double : (n d : ℕ) → 0 < d → n % (2 * d) ≡ 2 * (n / 2 % d) + n % 2
mod_double n d h =
    let whole : n ≡ 2 * d * (n / 2 / d) + (2 * (n / 2 % d) + n % 2) =
      omega (arith, div-add-mod (n / 2) d) in
    ap (λ (t : ℕ). t % (2 * d)) whole
    ∙ mul-add-mod_self_left (2 * d) (n / 2 / d) (2 * (n / 2 % d) + n % 2)
    ∙ mod-eq_of_lt (omega (arith, mod-lt (n / 2) h))

halved_mask : (k : ℕ) → (2 ^ suc k - 1) / 2 ≡ 2 ^ k - 1
halved_mask k = omega (arith, pow-suc 2 k, one-le-pow k 2)

-- A mask of k ones keeps what is below 2 ^ k.
pub bit_and_mask : (k a : ℕ) → bit_and a (2 ^ k - 1) ≡ a % 2 ^ k
bit_and_mask zero a = omega (arith, bit_and-zero a)
bit_and_mask (suc k) a = omega (
  arith,
  bit_and_halves a (2 ^ suc k - 1),
  ap (bit_and (a / 2)) (halved_mask k),
  bit_and_mask k (a / 2),
  one-le-pow k 2,
  pow-suc 2 k,
  ap (λ (t : ℕ). a % t) (pow-succ' 2 k),
  mod_double a (2 ^ k) (one-le-pow k 2 (omega arith)),
)

pub pow-add : (n j k : ℕ) → n ^ (j + k) ≡ n ^ j * n ^ k
pow-add n j zero = simp unary_clauses (omega arith)
pow-add n j (suc k) = omega (
  arith,
  ap (λ (t : ℕ). n ^ t) (add-suc j k),
  pow-suc n (j + k),
  ap (λ (t : ℕ). t * n) (pow-add n j k),
  ap (λ (t : ℕ). n ^ j * t) (pow-suc n k),
)

pub bit_or_lt : (k a b : ℕ) → a < 2 ^ k → b < 2 ^ k → bit_or a b < 2 ^ k
bit_or_lt zero zero zero h e = omega (arith, zero-bit_or 0)
bit_or_lt zero zero (suc b) h e = absurd (omega arith)
bit_or_lt zero (suc a) b h e = absurd (omega arith)
bit_or_lt (suc k) a b h e = omega (
  arith,
  pow-suc 2 k,
  bit_or_halves a b,
  bit_or_lt k (a / 2) (b / 2) (omega (arith, pow-suc 2 k)) (omega (arith, pow-suc 2 k)),
)

pub bit_or_fields : (k q r : ℕ) → r < 2 ^ k → bit_or (q * 2 ^ k) r ≡ q * 2 ^ k + r
bit_or_fields zero q r h = ground (arith, bit_or-zero (q * 2 ^ 0))
bit_or_fields (suc k) q r h = ground (
  arith,
  bit_or_halves (q * 2 ^ suc k) r,
  double_pow q k,
  pow-suc 2 k,
  bit_or_fields k q (r / 2) (omega (arith, pow-suc 2 k)),
)
