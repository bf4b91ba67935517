-- ===== src/Security/Sanitizer.antt =====
-- internal/security/sanitizer.go: the allowlist of raw AT commands.
pub mod Spec
mod Runs
use gsm2mqtt.Base.{
  ℕ, Bool, true, false, not, ◌&&◌, ◌||◌, Option, none, some, List, [], ◌∷◌, ◌==◌, leb,
  if◌then◌else◌, any_by, text_eq, length, get_or,
}
use gsm2mqtt.Base.Text.{trim_space, is_empty, is_space, has_prefix}
use gsm2mqtt.Security.Unicode.{Unicode}
use gsm2mqtt.Security.Errors.{
  Error, dangerous_chars, empty_command, raw_at_disabled, command_blocked,
}

pub record Sanitizer : Type 0 where
  pub allow_raw : Bool
  pub allowed_prefixes : List (List ℕ)

-- The characters of the set "\x00\x1A\x1B\x07\x0B\x0C\x7F\r\n".
abbrev pub is_dangerous : ℕ → Bool
is_dangerous r =
    (r == 0x00)
    || (r == 0x1A)
    || (r == 0x1B)
    || (r == 0x07)
    || (r == 0x0B)
    || (r == 0x0C)
    || (r == 0x7F)
    || (r == 0x0D)
    || (r == 0x0A)

-- The characters that end a token: ? = ; , " / : and the digits.
abbrev pub ends_token : ℕ → Bool
ends_token r =
    (r == b'?')
    || (r == b'=')
    || (r == b';')
    || (r == b',')
    || (r == 0x22)
    || (r == b'/')
    || (r == b':')
    || (leb b'0' r && leb r b'9')

pub matches_allowed : List ℕ → List ℕ → Bool
matches_allowed canonical_cmd allowed =
    if text_eq canonical_cmd allowed
    then true
    else (if not (has_prefix canonical_cmd allowed)
        then false
        else ends_token (get_or canonical_cmd (length allowed) 0))

module _ (unicode : Unicode) where
  open unicode use {to_upper}

  pub canonicalize_command : List ℕ → List ℕ
  canonicalize_command [] = []
  canonicalize_command (r ∷ cmd) =
      let rest = canonicalize_command cmd in if is_space r then rest else to_upper r ∷ rest

  pub allowed_entries : List (List ℕ) → List (List ℕ)
  allowed_entries [] = []
  allowed_entries (cmd ∷ cmds) =
      let rest = allowed_entries cmds in
      let cleaned = canonicalize_command cmd in if is_empty cleaned then rest else cleaned ∷ rest

  pub new_sanitizer : Bool → List (List ℕ) → Sanitizer
  new_sanitizer allow_raw allowed_commands = record {
    allow_raw = allow_raw;
    allowed_prefixes = allowed_entries allowed_commands;
  }

  pub validate : Sanitizer → List ℕ → Option Error
  validate s cmd =
      if any_by is_dangerous cmd
      then some dangerous_chars
      else (if is_empty (trim_space cmd)
          then some empty_command
          else (if not s.allow_raw
              then some raw_at_disabled
              else (if any_by (matches_allowed (canonicalize_command (trim_space cmd)))
                    s.allowed_prefixes
                  then none
                  else some command_blocked)))
