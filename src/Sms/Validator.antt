-- ===== src/Sms/Validator.antt =====
-- internal/sms/validator.go: numbers and texts before they are sent.
pub mod Laws
mod Runs
use gsm2mqtt.Base.{
  ℕ, Bool, true, false, not, ◌&&◌, ◌||◌, Option, none, some, List, [], ◌∷◌, ◌++◌, ltb, leb, ◌==◌,
  if◌then◌else◌, length, get_or, drop,
}
use gsm2mqtt.Base.Text.{codes, is_empty, is_digit, has_prefix, trim_space}

pub data Error : Type 0 where
  empty_phone_number phone_number_too_short phone_number_too_long : Error
  invalid_phone_characters empty_text null_byte_in_text modem_escape_char : Error

pub data Normalized : Type 0 where
  normalized : List ℕ → Normalized
  invalid : Error → Normalized

abbrev pub is_formatting : ℕ → Bool
is_formatting r = (r == b' ') || (r == b'-') || (r == b'(') || (r == b')') || (r == b'.')

abbrev pub add_plus : Option (Bool × List ℕ) → Option (Bool × List ℕ)
add_plus none = none
add_plus (some (has_plus, digits)) = some (true, digits)

abbrev pub add_digit : ℕ → Option (Bool × List ℕ) → Option (Bool × List ℕ)
add_digit r none = none
add_digit r (some (has_plus, digits)) = some (has_plus, r ∷ digits)

-- The loop over the number: whether it starts with a plus, and its digits; `none` is
-- ErrInvalidPhoneCharacters. `first` is the test of index 0.
unfoldable pub scan : Bool → List ℕ → Option (Bool × List ℕ)
scan first [] = some (false, [])
scan first (r ∷ s) =
    let rest = scan false s in
    if r == b'+'
    then (if first then add_plus rest else none)
    else (if is_digit r then add_digit r rest else (if is_formatting r then rest else none))

abbrev pub with_plus : List ℕ → List ℕ
with_plus prefix = if has_prefix prefix (codes "+") then prefix else b'+' ∷ prefix

-- NormalizePhoneNumber behind the loop.
unfoldable pub format_digits : List ℕ → Bool → List ℕ → Normalized
format_digits default_country_prefix has_plus digits =
    if length digits == 0
    then invalid empty_phone_number
    else (if ltb (length digits) 2
        then invalid phone_number_too_short
        else (if has_plus
            then (if ltb (length digits) 3
                then invalid phone_number_too_short
                else (if ltb 15 (length digits)
                    then invalid phone_number_too_long
                    else normalized (b'+' ∷ digits)))
            else (if (length digits == 11) && (get_or digits 0 0 == b'8')
                then normalized (codes "+7" ++ drop 1 digits)
                else (if leb (length digits) 6
                    then normalized digits
                    else (if (length digits == 10) && not (is_empty default_country_prefix)
                        then normalized (with_plus (trim_space default_country_prefix) ++ digits)
                        else (if ltb 15 (length digits)
                            then invalid phone_number_too_long
                            else normalized (b'+' ∷ digits)))))))

unfoldable pub format_scanned : List ℕ → Option (Bool × List ℕ) → Normalized
format_scanned default_country_prefix none = invalid invalid_phone_characters
format_scanned default_country_prefix (some (has_plus, digits)) =
    format_digits default_country_prefix has_plus digits

unfoldable pub normalize_phone_number : List ℕ → List ℕ → Normalized
normalize_phone_number raw default_country_prefix =
    if is_empty (trim_space raw)
    then invalid empty_phone_number
    else format_scanned default_country_prefix (scan true (trim_space raw))

-- The loop of ValidateMessageText.
unfoldable pub check_runes : List ℕ → Option Error
check_runes [] = none
check_runes (r ∷ text) =
    if r == 0x00
    then some null_byte_in_text
    else (if r == 0x1A then some modem_escape_char else check_runes text)

unfoldable pub validate_message_text : List ℕ → Option Error
validate_message_text text = if is_empty text then some empty_text else check_runes text
