-- ===== src/Sms/Validator/Runs.antt =====
-- internal/sms/validator.go: a national number.
use gsm2mqtt.Base.{[], ◌≡◌, refl}
use gsm2mqtt.Base.Text.{codes, trim_space, trim_left, trim_right}
use gsm2mqtt.Sms.Validator.{normalized, normalize_phone_number, format_digits, format_scanned, scan}
use gsm2mqtt.Sms.Validator.Laws.{Dialable, normalize_phone_number-Dialable}

national : normalize_phone_number (codes "8 (900) 123-45-67") [] ≡ normalized (codes "+79001234567")
unfolding normalize_phone_number format_digits format_scanned scan trim_space trim_left trim_right
national = refl

normalize_phone_number-Dialable_example : Dialable (codes "+79001234567")
unfolding normalize_phone_number format_digits format_scanned scan trim_space trim_left trim_right
normalize_phone_number-Dialable_example =
    normalize_phone_number-Dialable (codes "8 (900) 123-45-67") (codes "+79001234567") refl
