-- ===== src/Modem/Lines.antt =====
-- internal/modem/at/urc.go: the lines that a modem sends, told apart. strings.ToUpper is by the tables of
-- Security/Unicode.
mod Runs
use gsm2mqtt.Base.{
  ℕ, Bool, true, false, ◌&&◌, ◌||◌, Option, none, some, List, [], ◌∷◌, ◌++◌, ◌==◌, if◌then◌else◌,
  any_by, text_eq, map,
}
use gsm2mqtt.Base.Text.{codes, cut_at, is_empty, has_prefix, trim_space, trim_prefix}
use gsm2mqtt.Security.Unicode.{Unicode}

abbrev pub upper : Unicode → List ℕ → List ℕ
upper unicode s = map unicode.to_upper s

unfoldable pub is_call_termination_response : Unicode → List ℕ → List ℕ → Bool
is_call_termination_response unicode cmd line =
    let upper_cmd = upper unicode (trim_space cmd) in
    (has_prefix upper_cmd (codes "ATD")
      || text_eq upper_cmd (codes "ATA")
      || text_eq upper_cmd (codes "ATH"))
    && (text_eq line (codes "NO CARRIER")
        || text_eq line (codes "BUSY")
        || text_eq line (codes "NO ANSWER")
        || text_eq line (codes "NO DIALTONE"))

-- The text before a character, or all of it.
abbrev pub before : ℕ → List ℕ → List ℕ
before stop s = cut (cut_at stop s)
  where
    cut : Option (List ℕ × List ℕ) → List ℕ
    cut none = s
    cut (some (head, rest)) = head

unfoldable pub is_command_response : Unicode → List ℕ → List ℕ → Bool
is_command_response unicode cmd line =
    let upper_cmd = upper unicode (trim_space cmd) in
    let upper_line = upper unicode (trim_space line) in
    let clean =
      before 0x0A (before 0x0D (before b'=' (before b'?' (trim_prefix upper_cmd (codes "AT"))))) in
    if has_prefix upper_cmd (codes "AT")
    then (if is_empty clean then false else has_prefix upper_line (clean ++ codes ":"))
    else false

abbrev pub urc_prefixes : List (List ℕ)
urc_prefixes =
    codes "+CLIP:"
    ∷ codes "+CMTI:"
    ∷ codes "+CMT:"
    ∷ codes "+CDS:"
    ∷ codes "+DTMF:"
    ∷ codes "+CUSD:"
    ∷ codes "RING"
    ∷ codes "+CRING:"
    ∷ codes "+CREG:"
    ∷ codes "+CGREG:"
    ∷ codes "+CEREG:"
    ∷ codes "NO CARRIER"
    ∷ codes "+COLP:"
    ∷ codes "^ORIG:"
    ∷ codes "^CONN:"
    ∷ codes "^CEND:"
    ∷ codes "^RSSI:"
    ∷ codes "^MODE:"
    ∷ codes "^DSFLOWRPT:"
    ∷ codes "^BOOT:"
    ∷ codes "^SRVST:"
    ∷ codes "RDY"
    ∷ codes "Call Ready"
    ∷ codes "SMS Ready"
    ∷ codes "NORMAL POWER DOWN"
    ∷ codes "UNDER-VOLTAGE WARNNING"
    ∷ codes "UNDER-VOLTAGE POWER DOWN"
    ∷ codes "OVER-VOLTAGE WARNNING"
    ∷ codes "OVER-VOLTAGE POWER DOWN"
    ∷ codes "MODEM:STARTUP"
    ∷ codes "+PBREADY"
    ∷ codes "+ZUSIMR:"
    ∷ []

unfoldable pub is_urc : List ℕ → Bool
is_urc line = any_by (λ p. has_prefix line p) urc_prefixes
