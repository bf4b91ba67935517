-- ===== src/Pdu/Septets/Unpack.antt =====
-- Unpacking reads base-128 digits of the number that the octets stand for.
use gsm2mqtt.Base.{
  ℕ, zero, suc, ◌+◌, ◌*◌, ◌/◌, ◌%◌, ◌^◌, List, [], ◌∷◌, All, ◌≡◌, refl, sym, ap, ◌∙◌, arith, drop,
}
use gsm2mqtt.Base.Bits.{pow-add}
use gsm2mqtt.Pdu.Types.{ok}
use gsm2mqtt.Pdu.Septets.{IsByte, septet_at, unpack_loop, unpack_septets}
use gsm2mqtt.Pdu.Septets.Value.{value, septet_at-value, septet_at-ok}
use native.Mathlib.Nat.{div-div-eq-div-mul, pow-succ', div-one, zero-div}

-- The first `n` digits to the base 128, lowest first.
abbrev pub digits_of : ℕ → ℕ → List ℕ
digits_of zero v = []
digits_of (suc n) v = v % 128 ∷ digits_of n (v / 128)

pub value-div : (i : ℕ) (xs : List ℕ) → All IsByte xs → value xs / 256 ^ i ≡ value (drop i xs)
value-div zero xs h = div-one (value xs)
value-div (suc i) [] h = zero-div (256 ^ suc i)
value-div (suc i) (x ∷ xs) h =
    ap (λ (t : ℕ). value (x ∷ xs) / t) (pow-succ' 256 i)
    ∙ sym (div-div-eq-div-mul (value (x ∷ xs)) 256 (256 ^ i))
    ∙ ap (λ (t : ℕ). t / 256 ^ i) (omega (arith, h.0))
    ∙ value-div i xs h.1

pub pow_bytes : (i : ℕ) → 2 ^ (8 * i) ≡ 256 ^ i
pow_bytes zero = refl
pow_bytes (suc i) =
    let e : 8 * suc i ≡ 8 * i + 8 = omega arith in
    ap (λ (t : ℕ). 2 ^ t) e ∙ pow-add 2 (8 * i) 8 ∙ omega (arith, pow_bytes i, pow-succ' 256 i)

-- A shift by `pos` is a shift by whole octets and one within an octet.
value-shift :
    (xs : List ℕ) (pos : ℕ)
    → All IsByte xs
    → value xs / 2 ^ pos ≡ value (drop (pos / 8) xs) / 2 ^ (pos % 8)
value-shift xs pos h =
    let i : ℕ = pos / 8 in
    let off : ℕ = pos % 8 in
    let e : pos ≡ 8 * i + off = omega arith in
    ap (λ (t : ℕ). value xs / 2 ^ t) e
    ∙ ap (λ (t : ℕ). value xs / t) (pow-add 2 (8 * i) off)
    ∙ ap (λ (t : ℕ). value xs / (t * 2 ^ off)) (pow_bytes i)
    ∙ sym (div-div-eq-div-mul (value xs) (256 ^ i) (2 ^ off))
    ∙ ap (λ (t : ℕ). t / 2 ^ off) (value-div i xs h)

-- The septet that the loop reads at bit `pos`.
pub window :
    (xs : List ℕ) (pos : ℕ)
    → All IsByte xs
    → septet_at xs (pos / 8) (pos % 8) ≡ ok (value xs / 2 ^ pos % 128)
window xs pos h =
    septet_at-value xs (pos / 8) (pos % 8) h (omega arith)
    ∙ ap (λ (t : ℕ). ok (t % 128)) (sym (value-shift xs pos h))

next_digit : (v pos : ℕ) → v / 2 ^ (pos + 7) ≡ v / 2 ^ pos / 128
next_digit v pos =
    ap (λ (t : ℕ). v / t) (pow-add 2 pos 7) ∙ sym (div-div-eq-div-mul v (2 ^ pos) 128)

unpack_loop-digits_of :
    (xs : List ℕ) (n pos : ℕ)
    → All IsByte xs
    → unpack_loop xs n pos ≡ ok (digits_of n (value xs / 2 ^ pos))
unfolding unpack_loop
unpack_loop-digits_of xs zero pos h = refl
unpack_loop-digits_of xs (suc n) pos h =
    rw (window xs pos h, unpack_loop-digits_of xs n (pos + 7) h, next_digit (value xs) pos) refl

-- On any octets `unpack_septets` gives the base-128 digits of their number above `start_bit`.
pub unpack_septets-digits_of :
    (octets : List ℕ) (n start_bit : ℕ)
    → All IsByte octets
    → unpack_septets octets n start_bit ≡ ok (digits_of n (value octets / 2 ^ start_bit))
unfolding unpack_septets
unpack_septets-digits_of octets n start_bit h = unpack_loop-digits_of octets n start_bit h

unpack_loop-ok : (octets : List ℕ) (n pos : ℕ) → (ss : List ℕ) × (unpack_loop octets n pos ≡ ok ss)
unfolding unpack_loop
unpack_loop-ok octets zero pos = ([], refl)
unpack_loop-ok octets (suc n) pos =
    let first = septet_at-ok octets (pos / 8) (pos % 8) in
    let rest = unpack_loop-ok octets n (pos + 7) in (first.0 ∷ rest.0, rw (first.1, rest.1) refl)

-- Unpacking reads no octet out of range, whatever the number of septets.
pub unpack_septets-ok :
    (octets : List ℕ) (n start_bit : ℕ)
    → (ss : List ℕ) × (unpack_septets octets n start_bit ≡ ok ss)
unfolding unpack_septets
unpack_septets-ok octets n start_bit = unpack_loop-ok octets n start_bit
