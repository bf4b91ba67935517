-- ===== src/Config/Dotenv.antt =====
-- internal/config/dotenv.go: files of environment variables. A file is given by its lines, and the
-- files by the order of the candidates; the process's environment is a parameter.
mod Runs
use gsm2mqtt.Base.{
  ℕ, ◌-◌, Bool, true, false, not, ◌&&◌, ◌||◌, Option, none, some, List, [], ◌∷◌, ltb, leb, ◌==◌,
  if◌then◌else◌, length, get_or, take, drop, text_eq,
}
use gsm2mqtt.Base.Maps.{lookup, insert}
use gsm2mqtt.Base.Text.{codes, cut_at, ends_with, is_empty, has_prefix, trim_space, trim_prefix}

abbrev pub Env : Type 0
Env = List (List ℕ × List ℕ)

-- A value between two quotes of one kind.
abbrev pub is_quoted_by : ℕ → List ℕ → Bool
is_quoted_by quote v = (get_or v 0 0 == quote) && ends_with quote v

-- The value without its quotes, or without the comment behind it.
abbrev pub plain_value : List ℕ → List ℕ
plain_value v =
    if leb 2 (length v) && (is_quoted_by b'"' v || is_quoted_by 0x27 v)
    then take (length v - 2) (drop 1 v)
    else before_comment (cut_at b'#' v)
  where
    before_comment : Option (List ℕ × List ℕ) → List ℕ
    before_comment none = v
    before_comment (some (value, comment)) = trim_space value

-- The pair of a line that has a key.
abbrev pub assignment : Option (List ℕ × List ℕ) → Option (List ℕ × List ℕ)
assignment none = none
assignment (some (key, value)) =
    if is_empty key then none else some (trim_space key, plain_value (trim_space value))

abbrev pub without_export : List ℕ → List ℕ
without_export line =
    if has_prefix line (codes "export ")
    then trim_space (trim_prefix line (codes "export"))
    else line

pub parse_env_line : List ℕ → Option (List ℕ × List ℕ)
parse_env_line text =
    let line = trim_space text in
    if is_empty line || has_prefix line (codes "#")
    then none
    else assignment (cut_at b'=' (without_export line))

abbrev pub put_pair : Option (List ℕ × List ℕ) → Env → Env
put_pair none env = env
put_pair (some (key, value)) env = insert text_eq key value env

-- parseEnvFile, from the pairs of the lines before; a later line replaces an earlier one.
pub parse_env_file : List (List ℕ) → Env → Env
parse_env_file [] env = env
parse_env_file (line ∷ lines) env = parse_env_file lines (put_pair (parse_env_line line) env)

-- The pairs of a file that the files before do not have.
abbrev pub put_missing : Option (List ℕ) → List ℕ → List ℕ → Env → Env
put_missing none key value merged = insert text_eq key value merged
put_missing (some old) key value merged = merged

pub merge_file : Env → Env → Env
merge_file [] merged = merged
merge_file ((key, value) ∷ file) merged =
    merge_file file (put_missing (lookup text_eq key merged) key value merged)

-- loadDotEnv, behind the choice of the candidates.
pub load_dot_env : List (List (List ℕ)) → Env → Env
load_dot_env [] merged = merged
load_dot_env (lines ∷ files) merged =
    load_dot_env files (merge_file (parse_env_file lines []) merged)

abbrev pub value_in : Option (List ℕ) → List ℕ
value_in none = []
value_in (some v) = v

-- A loop of getHierarchicalValue: the first value that is not empty.
pub first_value : (List ℕ → List ℕ) → List (List ℕ) → List ℕ
first_value getenv [] = []
first_value getenv (key ∷ keys) =
    let rest = first_value getenv keys in if is_empty (getenv key) then rest else getenv key

pub get_hierarchical_value : (List ℕ → List ℕ) → Env → List (List ℕ) → List ℕ
get_hierarchical_value getenv dot_env keys =
    let v = first_value getenv keys in
    if is_empty v then first_value (λ key. value_in (lookup text_eq key dot_env)) keys else v
