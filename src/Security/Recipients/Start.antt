-- ===== src/Security/Recipients/Start.antt =====
-- internal/security/recipients.go: the numbers that a manager starts with.
use gsm2mqtt.Base.{
  ℕ, false, Option, none, some, List, [], ◌∷◌, All, Bool-cases, ◌≡◌, ◌⊎◌, refl, inl, inr,
}
use gsm2mqtt.Base.Text.{is_empty}
use gsm2mqtt.Security.Recipients.{
  NumberError, normalize_number, add_normal, add_all, save_defaults, load, or_default,
}
use gsm2mqtt.Security.Recipients.Normal.{E164, normalize_number-E164}
use gsm2mqtt.Security.Recipients.Members.{
  Distinct, add_number_in_memory-Distinct, add_number_in_memory-All,
}

-- No number twice, and only normal forms.
abbrev pub IsSound : List (List ℕ) → Type 0
IsSound numbers = Distinct numbers × All E164 numbers

add_normal-IsSound :
    (n : NumberError ⊎ List ℕ) (numbers : List (List ℕ))
    → ((norm : List ℕ) → n ≡ inr norm → E164 norm)
    → IsSound numbers
    → IsSound (add_normal n numbers)
add_normal-IsSound (inl e) numbers normal h = h
add_normal-IsSound (inr norm) numbers normal h = (
  add_number_in_memory-Distinct norm numbers h.0,
  add_number_in_memory-All E164 norm numbers (normal norm refl) h.1,
)

add_all-IsSound : (raws numbers : List (List ℕ)) → IsSound numbers → IsSound (add_all raws numbers)
unfolding add_all
add_all-IsSound [] numbers h = h
add_all-IsSound (raw ∷ raws) numbers h =
    add_all-IsSound raws (add_normal (normalize_number raw) numbers) (
      add_normal-IsSound (normalize_number raw) numbers (λ norm e. normalize_number-E164 raw norm e)
        h)

save_defaults-IsSound :
    (file_path : List ℕ) (numbers : List (List ℕ))
    → IsSound numbers
    → IsSound (save_defaults file_path numbers).1
save_defaults-IsSound file_path [] h = h
save_defaults-IsSound file_path (n ∷ numbers) h = h

pub or_default-IsSound :
    (file_path : List ℕ) (file : Option (List (List ℕ))) (default_numbers : List (List ℕ))
    → IsSound (or_default file_path default_numbers (load file_path file)).1
or_default-IsSound file_path file default_numbers = elim (Bool-cases (is_empty file_path)) [
  | inl e ↦ rw e defaults
  | inr e ↦ read file e
]
  where
    defaults : IsSound (save_defaults file_path (add_all default_numbers [])).1
    defaults =
        save_defaults-IsSound file_path (add_all default_numbers [])
          (add_all-IsSound default_numbers [] (tt, tt))

    found :
        (numbers : List (List ℕ))
        → IsSound numbers
        → IsSound (or_default file_path default_numbers (some numbers)).1
    found [] h = defaults
    found (n ∷ numbers) h = h

    read :
        (file : Option (List (List ℕ)))
        → is_empty file_path ≡ false
        → IsSound (or_default file_path default_numbers (load file_path file)).1
    read none e = rw e defaults
    read (some nums) e = rw e (found (add_all nums []) (add_all-IsSound nums [] (tt, tt)))
