-- ===== src/Security/Recipients.antt =====
-- internal/security/recipients.go: the recipients of alerts. The file is a parameter: the numbers that
-- it holds when the manager starts, or none where it cannot be read. What is written to it, and what
-- onChange is called with, are effects.
pub mod Normal
pub mod Members
pub mod Spec
pub mod Start
pub mod Refinement
mod Runs
use gsm2mqtt.Base.{
  ℕ, ◌-◌, Bool, true, false, not, ◌&&◌, ◌||◌, Option, none, some, List, [], ◌∷◌, ◌++◌, ltb, leb,
  ◌==◌, if◌then◌else◌, length, get_or, drop, filter_by, any_by, all_by, text_eq, ◌⊎◌, inl, inr,
}
use gsm2mqtt.Base.Text.{codes, is_empty, is_digit, has_prefix, trim_space, trim_prefix}

pub data NumberError : Type 0 where
  empty_number invalid_format invalid_length : NumberError

-- The characters that strings.Map takes out.
abbrev pub is_punctuation : ℕ → Bool
is_punctuation r =
    (r == b' ')
    || (r == b'-')
    || (r == b'(')
    || (r == b')')
    || (r == b'.')
    || (r == 0x09)
    || (r == 0x0D)
    || (r == 0x0A)

pub normalize_number : List ℕ → NumberError ⊎ List ℕ
normalize_number raw =
    let trimmed = trim_space raw in
    let cleaned = filter_by (λ r. not (is_punctuation r)) trimmed in
    let has_plus = has_prefix cleaned (codes "+") in
    let digits = trim_prefix cleaned (codes "+") in
    if is_empty trimmed
    then inl empty_number
    else (if is_empty digits || not (all_by is_digit digits)
        then inl invalid_format
        else (if ltb (length digits) 4 || ltb 16 (length digits)
            then inl invalid_length
            else (if not has_plus && (length digits == 11) && has_prefix digits (codes "8")
                then inr (codes "+7" ++ drop 1 digits)
                else inr (codes "+" ++ digits))))

pub record RecipientsManager : Type 0 where
  pub file_path : List ℕ
  pub numbers : List (List ℕ)
  pub has_on_change : Bool

pub data RecipientsEffect : Type 0 where
  saved changed : List (List ℕ) → RecipientsEffect

-- The loops that look for a number.
abbrev pub is_member : List ℕ → List (List ℕ) → Bool
is_member number numbers = any_by (λ n. text_eq n number) numbers

abbrev pub add_number_in_memory : List ℕ → List (List ℕ) → List (List ℕ)
add_number_in_memory norm numbers = if is_member norm numbers then numbers else numbers ++ norm ∷ []

abbrev pub add_normal : NumberError ⊎ List ℕ → List (List ℕ) → List (List ℕ)
add_normal (inl e) numbers = numbers
add_normal (inr norm) numbers = add_number_in_memory norm numbers

-- The loops of load and NewRecipientsManager, which pass over numbers without a normal form.
pub add_all : List (List ℕ) → List (List ℕ) → List (List ℕ)
add_all [] numbers = numbers
add_all (raw ∷ raws) numbers = add_all raws (add_normal (normalize_number raw) numbers)

-- saveLocked.
abbrev pub save_locked : List ℕ → List (List ℕ) → List RecipientsEffect
save_locked file_path numbers = if is_empty file_path then [] else saved numbers ∷ []

-- load: the numbers of the file, `none` for an error.
abbrev pub load : List ℕ → Option (List (List ℕ)) → Option (List (List ℕ))
load file_path file = if is_empty file_path then some [] else loaded file
  where
    loaded : Option (List (List ℕ)) → Option (List (List ℕ))
    loaded none = none
    loaded (some nums) = some (add_all nums [])

-- The default numbers, which are saved if there is one.
abbrev pub save_defaults : List ℕ → List (List ℕ) → List RecipientsEffect × List (List ℕ)
save_defaults file_path [] = ([], [])
save_defaults file_path (n ∷ numbers) = (save_locked file_path (n ∷ numbers), n ∷ numbers)

-- The numbers to start with: the default ones if the file could not be read or has none.
abbrev pub or_default :
    List ℕ → List (List ℕ) → Option (List (List ℕ)) → List RecipientsEffect × List (List ℕ)
or_default file_path default_numbers none = save_defaults file_path (add_all default_numbers [])
or_default file_path default_numbers (some []) =
    save_defaults file_path (add_all default_numbers [])
or_default file_path default_numbers (some (n ∷ numbers)) = ([], n ∷ numbers)

pub new_recipients_manager :
    List ℕ → Option (List (List ℕ)) → List (List ℕ) → List RecipientsEffect × RecipientsManager
new_recipients_manager file_path file default_numbers =
    let start = or_default file_path default_numbers (load file_path file) in
    (start.0, record { file_path = file_path; numbers = start.1; has_on_change = false })

pub set_on_change : RecipientsManager → RecipientsManager
set_on_change m = record m { has_on_change = true }

pub contains : List ℕ → RecipientsManager → Bool
contains raw m = contained (normalize_number raw)
  where
    contained : NumberError ⊎ List ℕ → Bool
    contained (inl e) = false
    contained (inr norm) = is_member norm m.numbers

-- The manager with new numbers, which are saved and announced.
abbrev pub store : List (List ℕ) → RecipientsManager → List RecipientsEffect × RecipientsManager
store numbers m = (
  save_locked m.file_path numbers ++ (if m.has_on_change then changed numbers ∷ [] else []),
  record m { numbers = numbers },
)

-- Add behind the normal form.
abbrev pub add_norm :
    NumberError ⊎ List ℕ
    → RecipientsManager
    → Option NumberError × List RecipientsEffect × RecipientsManager
add_norm (inl e) m = (some e, [], m)
add_norm (inr norm) m =
    let stored = store (m.numbers ++ norm ∷ []) m in
    if is_member norm m.numbers then (none, [], m) else (none, stored.0, stored.1)

pub add :
    List ℕ → RecipientsManager → Option NumberError × List RecipientsEffect × RecipientsManager
add raw m = add_norm (normalize_number raw) m

-- The list without the first entry that is the number.
pub remove_first : List ℕ → List (List ℕ) → List (List ℕ)
remove_first norm [] = []
remove_first norm (n ∷ numbers) =
    let rest = remove_first norm numbers in if text_eq n norm then numbers else n ∷ rest

abbrev pub remove_norm :
    NumberError ⊎ List ℕ → RecipientsManager → Bool × List RecipientsEffect × RecipientsManager
remove_norm (inl e) m = (false, [], m)
remove_norm (inr norm) m =
    let stored = store (remove_first norm m.numbers) m in
    if is_member norm m.numbers then (true, stored.0, stored.1) else (false, [], m)

pub remove : List ℕ → RecipientsManager → Bool × List RecipientsEffect × RecipientsManager
remove raw m = remove_norm (normalize_number raw) m

-- The loop of Set, with the numbers seen before.
pub normalized_list : List (List ℕ) → List (List ℕ) → NumberError ⊎ List (List ℕ)
normalized_list [] seen = inr seen
normalized_list (raw ∷ raws) seen = elim (normalize_number raw) [
  | inl e ↦ inl e
  | inr norm ↦ normalized_list raws (add_number_in_memory norm seen)
]

abbrev pub set_normal :
    NumberError ⊎ List (List ℕ)
    → RecipientsManager
    → Option NumberError × List RecipientsEffect × RecipientsManager
set_normal (inl e) m = (some e, [], m)
set_normal (inr numbers) m = let stored = store numbers m in (none, stored.0, stored.1)

pub set :
    List (List ℕ)
    → RecipientsManager
    → Option NumberError × List RecipientsEffect × RecipientsManager
set raws m = set_normal (normalized_list raws []) m
