-- ===== src/Base/Text.antt =====
-- What the program uses of Go's strings, strconv, fmt and encoding/hex, over lists of code points.
use Prim.Native.Nat.{ℕ, zero, suc, ◌+◌, ◌-◌, ◌*◌, ◌/◌, ◌%◌, ◌<◌}
use Prim.Native.Char.{code}
use Prim.Native.String.{String}
use mathlib.Core.Path.{◌≡◌, refl, ap}
use mathlib.Core.Bool.{Bool, true, false, ◌&&◌, ◌||◌}
use mathlib.Core.List.{List, [], ◌∷◌, ◌++◌}
use mathlib.Core.Option.{Option, none, some}
use native.Mathlib.Omega.{arith}
use mathlib.Core.Logic.{inl, inr}
use gsm2mqtt.Base.Tests.{◌==◌, ltb, leb, if◌then◌else◌, Bool-cases}
use gsm2mqtt.Base.Lists.{All, length}

-- The code points of a literal. `String` has its own `[]` and `∷`.
abbrev pub codes : String → List ℕ
codes String.[] = []
codes (String.◌∷◌ c s) = code c ∷ codes s

-- unicode.IsSpace.
abbrev pub is_space : ℕ → Bool
is_space r =
    (leb 0x09 r && leb r 0x0D)
    || (r == 0x20)
    || (r == 0x85)
    || (r == 0xA0)
    || (r == 0x1680)
    || (leb 0x2000 r && leb r 0x200A)
    || (r == 0x2028)
    || (r == 0x2029)
    || (r == 0x202F)
    || (r == 0x205F)
    || (r == 0x3000)

abbrev pub is_empty : List ℕ → Bool
is_empty [] = true
is_empty (r ∷ s) = false

unfoldable pub trim_left : List ℕ → List ℕ
trim_left [] = []
trim_left (r ∷ s) = let rest = trim_left s in if is_space r then rest else r ∷ s

unfoldable pub trim_right : List ℕ → List ℕ
trim_right [] = []
trim_right (r ∷ s) = let rest = trim_right s in if is_empty rest && is_space r then [] else r ∷ rest

-- strings.TrimSpace.
unfoldable pub trim_space : List ℕ → List ℕ
unfolding trim_left trim_right
trim_space s = trim_right (trim_left s)

-- strings.HasPrefix.
abbrev pub has_prefix : List ℕ → List ℕ → Bool
has_prefix s [] = true
has_prefix [] (p ∷ ps) = false
has_prefix (r ∷ s) (p ∷ ps) = (r == p) && has_prefix s ps

abbrev pub is_digit : ℕ → Bool
is_digit r = leb b'0' r && leb r b'9'

-- One digit of `%02X`.
abbrev pub hex_digit : ℕ → ℕ
hex_digit d = if ltb d 10 then b'0' + d else b'A' + (d - 10)

-- `%02X` of each byte; the same as strings.ToUpper(hex.EncodeToString(b)).
unfoldable pub hex_string : List ℕ → List ℕ
hex_string [] = []
hex_string (b ∷ bs) = hex_digit (b / 16) ∷ hex_digit (b % 16) ∷ hex_string bs

abbrev pub from_hex_char : ℕ → Option ℕ
from_hex_char c =
    if leb b'0' c && leb c b'9'
    then some (c - b'0')
    else (if leb b'a' c && leb c b'f'
        then some (c - b'a' + 10)
        else (if leb b'A' c && leb c b'F' then some (c - b'A' + 10) else none))

abbrev pub hex_cons : Option ℕ → Option ℕ → Option (List ℕ) → Option (List ℕ)
hex_cons (some h) (some l) (some bs) = some ((h * 16 + l) ∷ bs)
hex_cons _ _ _ = none

-- hex.DecodeString; `none` for an odd length or a character that is no hex digit.
unfoldable pub decode_hex : List ℕ → Option (List ℕ)
decode_hex [] = some []
decode_hex (c ∷ []) = none
decode_hex (h ∷ l ∷ s) = hex_cons (from_hex_char h) (from_hex_char l) (decode_hex s)

from_hex_char-hex_digit : (d : ℕ) → d < 16 → from_hex_char (hex_digit d) ≡ some d
from_hex_char-hex_digit d h = ground arith

-- The hex text of bytes reads back as those bytes.
pub decode_hex-hex_string :
    (bs : List ℕ) → All (λ b. b < 256) bs → decode_hex (hex_string bs) ≡ some bs
unfolding decode_hex hex_string
decode_hex-hex_string [] h = refl
decode_hex-hex_string (b ∷ bs) h =
    rw
      (
        from_hex_char-hex_digit (b / 16) (omega arith),
        from_hex_char-hex_digit (b % 16) (omega arith),
        decode_hex-hex_string bs h.1,
      )
      (ap (λ (t : ℕ). some (t ∷ bs)) (omega arith))

pub length-hex_string : (bs : List ℕ) → length (hex_string bs) ≡ 2 * length bs
unfolding hex_string
length-hex_string [] = refl
length-hex_string (b ∷ bs) = omega (arith, length-hex_string bs)

pub hex_string-append : (xs ys : List ℕ) → hex_string (xs ++ ys) ≡ hex_string xs ++ hex_string ys
unfolding hex_string
hex_string-append [] ys = refl
hex_string-append (x ∷ xs) ys = rw (hex_string-append xs ys)

-- `%d` of a number that is not negative: the digits from the last on, for `fuel` above the number.
unfoldable pub decimal_with : ℕ → ℕ → List ℕ
decimal_with zero n = []
decimal_with (suc fuel) n = elim (ltb n 10) [
  | true ↦ (b'0' + n) ∷ []
  | false ↦ decimal_with fuel (n / 10) ++ (b'0' + n % 10) ∷ []
]

unfoldable pub decimal : ℕ → List ℕ
unfolding decimal_with
decimal n = decimal_with (suc n) n

-- strings.Join.
abbrev pub join : List ℕ → List (List ℕ) → List ℕ
join separator [] = []
join separator (s ∷ []) = s
join separator (s ∷ t ∷ ss) = s ++ separator ++ join separator (t ∷ ss)

abbrev pub cons_head : ℕ → List (List ℕ) → List (List ℕ)
cons_head r [] = (r ∷ []) ∷ []
cons_head r (s ∷ ss) = (r ∷ s) ∷ ss

-- strings.Split with a separator of one character.
abbrev pub split_on : ℕ → List ℕ → List (List ℕ)
split_on c [] = [] ∷ []
split_on c (r ∷ s) = let rest = split_on c s in if r == c then [] ∷ rest else cons_head r rest

-- strings.TrimPrefix.
abbrev pub drop_same : List ℕ → List ℕ → List ℕ
drop_same s [] = s
drop_same [] (p ∷ ps) = []
drop_same (r ∷ s) (p ∷ ps) = drop_same s ps

abbrev pub trim_prefix : List ℕ → List ℕ → List ℕ
trim_prefix s p = if has_prefix s p then drop_same s p else s

-- A character that is no space is kept, with all before it.
pub trim_right-append :
    (xs : List ℕ) (r : ℕ) (rest : List ℕ)
    → is_space r ≡ false
    → trim_right (xs ++ r ∷ rest) ≡ xs ++ r ∷ trim_right rest
unfolding trim_right
trim_right-append [] r rest h = elim (Bool-cases (is_empty (trim_right rest))) [
  | inl e ↦ rw (e, h) refl
  | inr e ↦ rw e refl
]
trim_right-append (x ∷ xs) r rest h = rw (trim_right-append xs r rest h) (kept xs)
  where
    kept :
        (ys : List ℕ)
        → (if is_empty (ys ++ r ∷ trim_right rest) && is_space x
            then []
            else x ∷ (ys ++ r ∷ trim_right rest))
          ≡ x ∷ (ys ++ r ∷ trim_right rest)
    kept [] = refl
    kept (y ∷ ys) = refl

-- strings.Index for one character, with the parts before and behind it.
abbrev pub cut_at : ℕ → List ℕ → Option (List ℕ × List ℕ)
cut_at sep [] = none
cut_at sep (r ∷ s) = if r == sep then some ([], s) else longer (cut_at sep s)
  where
    longer : Option (List ℕ × List ℕ) → Option (List ℕ × List ℕ)
    longer none = none
    longer (some (before, behind)) = some (r ∷ before, behind)

-- strings.LastIndexByte, in the same way.
abbrev pub cut_at_last : ℕ → List ℕ → Option (List ℕ × List ℕ)
cut_at_last sep [] = none
cut_at_last sep (r ∷ s) = longer (cut_at_last sep s)
  where
    longer : Option (List ℕ × List ℕ) → Option (List ℕ × List ℕ)
    longer none = if r == sep then some ([], s) else none
    longer (some (before, behind)) = some (r ∷ before, behind)

-- strings.HasSuffix for one character.
abbrev pub ends_with : ℕ → List ℕ → Bool
ends_with r [] = false
ends_with r (q ∷ []) = q == r
ends_with r (q ∷ t ∷ s) = ends_with r (t ∷ s)
