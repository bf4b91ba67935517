-- ===== src/Security/Filter/Runs.antt =====
-- internal/security/filter.go: the lists on concrete numbers.
use gsm2mqtt.Base.{ℕ, ◌+◌, ◌&&◌, none, some, List, [], ◌∷◌, map, leb, if◌then◌else◌, ◌≡◌, refl, ◌↔◌}
use gsm2mqtt.Base.Text.{codes, trim_space, trim_left, trim_right}
use gsm2mqtt.Security.Unicode.{ascii}
use gsm2mqtt.Security.Errors.{number_blocked}
use gsm2mqtt.Security.Filter.{
  new_filter, check, check_mode, normalize_number, strip, normalized_set,
}
use gsm2mqtt.Security.Filter.Laws.{Plain, Listed, check-whitelist_iff, check-blacklist_iff}

abbrev lower : List ℕ → List ℕ
lower s = map (λ r. if leb b'A' r && leb r b'Z' then r + 32 else r) s

abbrev some_numbers : List (List ℕ)
some_numbers = codes "+49 (170) 1" ∷ codes "Bank" ∷ []

blocked :
    check ascii (new_filter ascii lower (codes " Blacklist") [] some_numbers) (codes "BANK")
    ≡ some number_blocked
unfolding check check_mode new_filter normalize_number strip normalized_set trim_space trim_left
    trim_right
blocked = refl

check-whitelist_iff_example :
    (check ascii (new_filter ascii lower (codes "Whitelist ") some_numbers []) (codes "+49-170-1")
      ≡ none)
    ↔ (Plain (codes "+49-170-1")
        × Listed ascii some_numbers (normalize_number ascii (trim_space (codes "+49-170-1"))))
unfolding trim_space trim_left trim_right
check-whitelist_iff_example =
    check-whitelist_iff ascii lower (codes "Whitelist ") some_numbers [] (codes "+49-170-1") refl

check-blacklist_iff_example :
    (check ascii (new_filter ascii lower (codes "blacklist") [] some_numbers) (codes "BANK") ≡ none)
    ↔ (Plain (codes "BANK")
        × (¬ Listed ascii some_numbers (normalize_number ascii (trim_space (codes "BANK")))))
unfolding trim_space trim_left trim_right
check-blacklist_iff_example =
    check-blacklist_iff ascii lower (codes "blacklist") [] some_numbers (codes "BANK") refl
