-- ===== src/Security/Unicode.antt =====
-- The tables of Go's package unicode that the program reads, as a parameter.
use gsm2mqtt.Base.{ℕ, ◌-◌, Bool, ◌&&◌, ◌||◌, leb, if◌then◌else◌}

pub record Unicode : Type 0 where
  pub is_letter : ℕ → Bool
  pub to_upper : ℕ → ℕ

-- The tables on ASCII.
abbrev pub ascii : Unicode
ascii = record {
  is_letter = λ r. (leb b'a' r && leb r b'z') || (leb b'A' r && leb r b'Z');
  to_upper = λ r. if leb b'a' r && leb r b'z' then r - 32 else r;
}
