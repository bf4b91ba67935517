-- ===== src/Security/Mask.antt =====
-- internal/security/mask.go: phone numbers in logs, as bytes.
use gsm2mqtt.Base.{
  ℕ, ◌-◌, not, List, ◌++◌, ltb, leb, ◌==◌, if◌then◌else◌, length, get_or, take, drop,
}
use gsm2mqtt.Base.Text.{codes}

unfoldable pub mask_phone : List ℕ → List ℕ
mask_phone number =
    let start = if not (get_or number 0 0 == b'+') then 4 else 5 in
    let end = length number - 4 in
    if ltb (length number) 6
    then codes "***"
    else (if leb end start
        then take 2 number ++ codes "***" ++ drop (length number - 2) number
        else take start number ++ codes "***" ++ drop end number)
