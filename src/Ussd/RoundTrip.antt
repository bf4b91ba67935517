-- ===== src/Ussd/RoundTrip.antt =====
-- internal/ussd/parser.go: a response in UCS-2.
use gsm2mqtt.Base.{
  ℕ, ◌/◌, ◌%◌, ◌<◌, true, false, none, some, List, [], ◌∷◌, ◌++◌, leb, All, length, all_by,
  append_assoc, ◌≡◌, refl, sym, ap, ◌∙◌, arith,
}
use gsm2mqtt.Base.Int.{pos}
use gsm2mqtt.Base.Text.{
  codes, cut_at_last, is_empty, hex_digit, hex_string, decode_hex-hex_string, length-hex_string,
  trim_left, trim_right, trim_space, trim_right-append,
}
use gsm2mqtt.Pdu.Ucs2.{encode_ucs2}
use gsm2mqtt.Pdu.Ucs2.RoundTrip.{
  IsScalar, decode_ucs2-encode_ucs2, encode_ucs2-IsByte, length-encode_ucs2-cons,
}
use gsm2mqtt.Ussd.{parsed, completed, is_hex_char, is_printable, decode_message, parse_response}

-- The response with a message and the coding scheme of UCS-2.
abbrev pub ucs2_response : List ℕ → List ℕ
ucs2_response message = codes "+CUSD: 0,\"" ++ (message ++ codes "\",72")

-- The last quote is the one behind the message.
cut_at_last-append :
    (message after : List ℕ)
    → cut_at_last b'"' after ≡ none
    → cut_at_last b'"' (message ++ b'"' ∷ after) ≡ some (message, after)
cut_at_last-append [] after h = rw h refl
cut_at_last-append (r ∷ message) after h = rw (cut_at_last-append message after h) refl

-- What stands behind the first character that is no space ends with the coding scheme, and is kept.
trim_space-quoted :
    (text before message : List ℕ)
    → trim_left text ≡ before ++ (message ++ codes "\",72")
    → trim_space text ≡ before ++ (message ++ codes "\",72")
unfolding trim_space trim_right
trim_space-quoted text before message h =
    ap trim_right (h ∙ sym (append_assoc before message (codes "\",72")))
    ∙ trim_right-append (before ++ message) b'"' (codes ",72") refl
    ∙ append_assoc before message (codes "\",72")

trim_space-status : trim_space (codes "0") ≡ codes "0"
unfolding trim_space trim_left trim_right
trim_space-status = refl

trim_space-scheme :
    (trim_space (codes ",72") ≡ codes ",72") × (trim_space (codes "72") ≡ codes "72")
unfolding trim_space trim_left trim_right
trim_space-scheme = (refl, refl)

parse_response-ucs2_response :
    (message : List ℕ)
    → parse_response (ucs2_response message)
      ≡ parsed (record {
        status = completed;
        message = decode_message message (pos 72);
        dcs = pos 72;
        action_required_now = false;
      })
unfolding parse_response trim_left
parse_response-ucs2_response message =
    rw
      (
        trim_space-quoted (ucs2_response message) (codes "+CUSD: 0,\"") message refl,
        trim_space-quoted (codes " 0,\"" ++ (message ++ codes "\",72")) (codes "0,\"") message refl,
        trim_space-quoted (codes "\"" ++ (message ++ codes "\",72")) (codes "\"") message refl,
        trim_space-status,
        cut_at_last-append message (codes ",72") refl,
        trim_space-scheme.0,
        trim_space-scheme.1,
      )
      refl

is_hex_char-hex_digit : (d : ℕ) → d < 16 → is_hex_char (hex_digit d) ≡ true
is_hex_char-hex_digit d h = ground arith

all_by_hex : (bs : List ℕ) → All (λ b. b < 256) bs → all_by is_hex_char (hex_string bs) ≡ true
unfolding hex_string
all_by_hex [] h = refl
all_by_hex (b ∷ bs) h =
    rw
      (
        is_hex_char-hex_digit (b / 16) (omega (arith, h.0)),
        is_hex_char-hex_digit (b % 16) (omega arith),
      )
      (all_by_hex bs h.1)

is_empty-length : (s : List ℕ) → 0 < length s → is_empty s ≡ false
is_empty-length [] h = absurd (omega (arith, h))
is_empty-length (r ∷ s) h = refl

-- A text of printable Unicode scalar values, with a character or more, that the network sends in UCS-2, as
-- hexadecimal digits with the coding scheme 72, is the message of the response.
pub parse_response-encode_ucs2 :
    (text : List ℕ)
    → All IsScalar text
    → is_printable text ≡ true
    → 0 < length text
    → parse_response (ucs2_response (hex_string (encode_ucs2 text)))
      ≡ parsed
          (record { status = completed; message = text; dcs = pos 72; action_required_now = false })
unfolding decode_message
parse_response-encode_ucs2 [] scalar printable h = absurd (omega (arith, h))
parse_response-encode_ucs2 (r ∷ s) scalar printable h =
    let text = r ∷ s in
    let hex = hex_string (encode_ucs2 text) in
    let enough : leb 4 (length hex) ≡ true =
      ground (arith, length-hex_string (encode_ucs2 text), length-encode_ucs2-cons r s scalar.0) in
    let digits = all_by_hex (encode_ucs2 text) (encode_ucs2-IsByte text) in
    let some_ : is_empty hex ≡ false = is_empty-length hex (
      ground (arith, length-hex_string (encode_ucs2 text), length-encode_ucs2-cons r s scalar.0)) in
    parse_response-ucs2_response hex
    ∙ rw
        (
          enough,
          some_,
          digits,
          decode_hex-hex_string (encode_ucs2 text) (encode_ucs2-IsByte text),
          decode_ucs2-encode_ucs2 text scalar,
          printable,
        )
        refl
