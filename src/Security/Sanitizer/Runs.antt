-- ===== src/Security/Sanitizer/Runs.antt =====
-- internal/security/sanitizer.go: the allowlist on concrete commands.
use gsm2mqtt.Base.{ℕ, true, none, some, List, [], ◌∷◌, ◌≡◌, refl, ◌↔◌}
use gsm2mqtt.Base.Text.{codes, trim_space, trim_left, trim_right}
use gsm2mqtt.Security.Unicode.{ascii}
use gsm2mqtt.Security.Errors.{command_blocked}
use gsm2mqtt.Security.Sanitizer.{
  new_sanitizer, validate, allowed_entries, canonicalize_command, matches_allowed,
}
use gsm2mqtt.Security.Sanitizer.Spec.{Authorised, validate_iff}

abbrev signal_and_operator : List (List ℕ)
signal_and_operator = codes "AT+CSQ" ∷ codes "at+cops" ∷ codes " " ∷ []

signal : validate ascii (new_sanitizer ascii true signal_and_operator) (codes "at+csq") ≡ none
unfolding validate new_sanitizer allowed_entries canonicalize_command matches_allowed trim_space
    trim_left trim_right
signal = refl

power_off :
    validate ascii (new_sanitizer ascii true signal_and_operator) (codes "AT+CFUN=0")
    ≡ some command_blocked
unfolding validate new_sanitizer allowed_entries canonicalize_command matches_allowed trim_space
    trim_left trim_right
power_off = refl

-- A second command after the semicolon rides along.
chained :
    validate ascii (new_sanitizer ascii true signal_and_operator) (codes "AT+CSQ;+CFUN=0") ≡ none
unfolding validate new_sanitizer allowed_entries canonicalize_command matches_allowed trim_space
    trim_left trim_right
chained = refl

validate_iff_example :
    (validate ascii (new_sanitizer ascii true signal_and_operator) (codes "AT+CSQ?") ≡ none)
    ↔ Authorised ascii true signal_and_operator (codes "AT+CSQ?")
validate_iff_example = validate_iff ascii true signal_and_operator (codes "AT+CSQ?")
