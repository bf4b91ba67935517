-- ===== src/Security/Filter.antt =====
-- internal/security/filter.go: which phone numbers are allowed.
pub mod Laws
mod Runs
use gsm2mqtt.Base.{
  ℕ, Bool, true, false, not, ◌&&◌, ◌||◌, Option, none, some, List, [], ◌∷◌, ◌==◌, if◌then◌else◌,
  any_by, text_eq, map,
}
use gsm2mqtt.Base.Text.{trim_space, is_empty, codes}
use gsm2mqtt.Security.Unicode.{Unicode}
use gsm2mqtt.Security.Errors.{
  Error, number_blocked, number_not_whitelisted, invalid_filter_mode, empty_phone_number,
  dangerous_chars,
}

abbrev pub is_separator : ℕ → Bool
is_separator r = (r == b' ') || (r == b'-') || (r == b'(') || (r == b')') || (r == b'.')

abbrev pub is_line_break : ℕ → Bool
is_line_break r = (r == 0x00) || (r == 0x0D) || (r == 0x0A)

abbrev pub contains : List ℕ → List (List ℕ) → Bool
contains number numbers = any_by (text_eq number) numbers

pub record Filter : Type 0 where
  pub mode : List ℕ
  pub whitelist : List (List ℕ)
  pub blacklist : List (List ℕ)

module _ (unicode : Unicode) where
  open unicode use {is_letter, to_upper}

  -- The loop of normalizeNumber, `has_letters` known.
  unfoldable pub strip : Bool → List ℕ → List ℕ
  strip has_letters [] = []
  strip has_letters (r ∷ s) =
      let rest = strip has_letters s in
      if is_separator r then rest else (if has_letters then to_upper r else r) ∷ rest

  unfoldable pub normalize_number : List ℕ → List ℕ
  normalize_number number = strip (any_by is_letter number) number

  -- The loops that fill the two sets of NewFilter.
  pub normalized_set : List (List ℕ) → List (List ℕ)
  normalized_set [] = []
  normalized_set (n ∷ numbers) =
      let rest = normalized_set numbers in
      let cleaned = normalize_number n in if is_empty cleaned then rest else cleaned ∷ rest

  -- `lower` stands for strings.ToLower.
  pub new_filter : (List ℕ → List ℕ) → List ℕ → List (List ℕ) → List (List ℕ) → Filter
  new_filter lower mode whitelist blacklist = record {
    mode = lower (trim_space mode);
    whitelist = normalized_set whitelist;
    blacklist = normalized_set blacklist;
  }

  -- The switch of Check over the mode.
  pub check_mode : Filter → List ℕ → Option Error
  check_mode f normalized =
      if text_eq f.mode (codes "all")
      then none
      else (if text_eq f.mode (codes "whitelist")
          then (if contains normalized f.whitelist then none else some number_not_whitelisted)
          else (if text_eq f.mode (codes "blacklist")
              then (if contains normalized f.blacklist then some number_blocked else none)
              else some invalid_filter_mode))

  pub check : Filter → List ℕ → Option Error
  check f number =
      if is_empty (trim_space number)
      then some empty_phone_number
      else (if any_by is_line_break number
          then some dangerous_chars
          else check_mode f (normalize_number (trim_space number)))
