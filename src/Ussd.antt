-- ===== src/Ussd.antt =====
-- internal/ussd/parser.go, types.go, errors.go: USSD codes and the network's responses.
pub mod RoundTrip
mod Runs
use gsm2mqtt.Base.{
  ℕ, ◌+◌, ◌-◌, ◌*◌, ◌%◌, ◌^◌, Bool, true, false, not, ◌&&◌, ◌||◌, Option, none, some, List, [], ◌∷◌,
  ◌++◌, ltb, leb, ◌==◌, if◌then◌else◌, length, any_by, all_by,
}
use gsm2mqtt.Base.Int.{ℤ, pos, negsuc, neg}
use gsm2mqtt.Base.Text.{
  codes, cut_at, cut_at_last, ends_with, is_empty, is_digit, has_prefix, trim_space, trim_prefix,
  decode_hex,
}
use gsm2mqtt.Pdu.Ucs2.{decode_ucs2}

pub data Error : Type 0 where
  empty_code invalid_format timeout terminated not_supported malformed : Error

-- Status, of the values that ParseResponse lets pass.
pub data Status : Type 0 where
  completed action_required terminated_status other_client : Status

pub record Response : Type 0 where
  pub status : Status
  pub message : List ℕ
  pub dcs : ℤ
  pub action_required_now : Bool

abbrev pub is_code_char : ℕ → Bool
is_code_char r = is_digit r || (r == b'*') || (r == b'#')

unfoldable pub validate_code : List ℕ → Option Error
validate_code code =
    let trimmed = trim_space code in
    if is_empty trimmed
    then some empty_code
    else (if ltb (length trimmed) 3
        then some invalid_format
        else (if (not (has_prefix trimmed (codes "*")) && not (has_prefix trimmed (codes "#")))
              || not (ends_with b'#' trimmed)
            then some invalid_format
            else (if all_by is_code_char trimmed then none else some invalid_format)))

-- strconv.Atoi: an optional sign and digits, within 64 bits.
abbrev pub digits_value : ℕ → List ℕ → Option ℕ
digits_value n [] = some n
digits_value n (r ∷ s) =
    let rest = digits_value (n * 10 + (r - b'0')) s in if is_digit r then rest else none

abbrev pub unsigned_value : List ℕ → Option ℕ
unsigned_value [] = none
unsigned_value (r ∷ s) = digits_value 0 (r ∷ s)

abbrev pub positive : Option ℕ → Option ℤ
positive none = none
positive (some n) = if ltb n (2 ^ 63) then some (pos n) else none

abbrev pub negative : Option ℕ → Option ℤ
negative none = none
negative (some n) = if leb n (2 ^ 63) then some (neg n) else none

abbrev pub atoi : List ℕ → Option ℤ
atoi [] = none
atoi (r ∷ s) =
    if r == b'-'
    then negative (unsigned_value s)
    else positive (unsigned_value (if r == b'+' then s else r ∷ s))

-- The status and the text behind it.
abbrev pub split_body : List ℕ → List ℕ × List ℕ
split_body body = parts (cut_at b',' body)
  where
    parts : Option (List ℕ × List ℕ) → List ℕ × List ℕ
    parts none = (body, [])
    parts (some (status_raw, rest)) = (trim_space status_raw, trim_space rest)

-- The switch on the status.
abbrev pub status_of : Option ℤ → List ℕ → Error × Option Status
status_of none rest = (malformed, none)
status_of (some (negsuc n)) rest = (malformed, none)
status_of (some (pos n)) rest =
    if n == 0
    then (malformed, some completed)
    else (if n == 1
        then (malformed, some action_required)
        else (if n == 2
            then (if any_by (λ r. r == b'"') rest
                then (malformed, some terminated_status)
                else (terminated, none))
            else (if n == 3
                then (malformed, some other_client)
                else (if n == 4
                    then (not_supported, none)
                    else (if n == 5 then (timeout, none) else (malformed, none))))))

-- The coding scheme behind the quoted text, 15 where there is none.
abbrev pub dcs_after : List ℕ → ℤ
dcs_after after =
    let after_quote = trim_space after in
    if has_prefix after_quote (codes ",")
    then or_default (atoi (trim_space (trim_prefix after_quote (codes ","))))
    else pos 15
  where
    or_default : Option ℤ → ℤ
    or_default none = pos 15
    or_default (some dcs) = dcs

-- The text between the first quote and the last one, and the coding scheme.
abbrev pub quoted_message : List ℕ → List ℕ × ℤ
quoted_message rest = opened (cut_at b'"' rest)
  where
    closed : Option (List ℕ × List ℕ) → List ℕ × ℤ
    closed none = ([], pos 15)
    closed (some (message, after)) = (message, dcs_after after)

    opened : Option (List ℕ × List ℕ) → List ℕ × ℤ
    opened none = ([], pos 15)
    opened (some (before, behind)) = closed (cut_at_last b'"' behind)

abbrev pub is_printable : List ℕ → Bool
is_printable s =
    all_by (λ r. not (ltb r 32 && not (r == 0x0A) && not (r == 0x0D) && not (r == 0x09))) s

abbrev pub is_hex_char : ℕ → Bool
is_hex_char r =
    (leb b'0' r && leb r b'9') || (leb b'a' r && leb r b'f') || (leb b'A' r && leb r b'F')

abbrev pub is_hex : List ℕ → Bool
is_hex s = if is_empty s then false else all_by is_hex_char s

-- strings.ReplaceAll of a backslash and `c` by `d`.
abbrev pub unescape : ℕ → ℕ → List ℕ → List ℕ
unescape c d [] = []
unescape c d (r ∷ []) = r ∷ []
unescape c d (r ∷ q ∷ s) = elim ((r == 0x5C) && (q == c)) [
  | true ↦ d ∷ unescape c d s
  | false ↦ r ∷ unescape c d (q ∷ s)
]

abbrev pub is_ucs2_dcs : ℤ → Bool
is_ucs2_dcs (pos n) = n == 72
is_ucs2_dcs (negsuc n) = false

-- The message from its hexadecimal digits.
abbrev pub decoded_or : List ℕ → Option (List ℕ) → List ℕ
decoded_or message none = message
decoded_or message (some raw_bytes) =
    let decoded = decode_ucs2 raw_bytes in
    if not (is_empty decoded) && is_printable decoded then decoded else message

unfoldable pub decode_message : List ℕ → ℤ → List ℕ
decode_message message dcs =
    if (is_ucs2_dcs dcs || (length message % 4 == 0)) && leb 4 (length message) && is_hex message
    then decoded_or message (decode_hex message)
    else unescape b'r' 0x0D (unescape b'n' 0x0A message)

abbrev pub is_action : Status → Bool
is_action action_required = true
is_action _ = false

-- What ParseResponse answers: an error, or a response.
pub data Parsed : Type 0 where
  failed : Error → Parsed
  parsed : Response → Parsed

abbrev pub respond : Error × Option Status → List ℕ × ℤ → Parsed
respond (e, none) (message, dcs) = failed e
respond (e, some status) (message, dcs) = parsed (record {
  status = status;
  message = decode_message message dcs;
  dcs = dcs;
  action_required_now = is_action status;
})

unfoldable pub parse_response : List ℕ → Parsed
parse_response urc =
    let trimmed = trim_space urc in
    let body = trim_space (trim_prefix trimmed (codes "+CUSD:")) in
    let parts = split_body body in
    if not (has_prefix trimmed (codes "+CUSD:"))
    then failed malformed
    else (if is_empty body
        then failed malformed
        else respond (status_of (atoi parts.0) parts.1) (quoted_message parts.1))
