-- ===== src/Sms/Translit.antt =====
-- internal/sms/translit.go: Cyrillic letters in Latin ones.
pub mod Laws
mod Runs
use gsm2mqtt.Base.{
  ℕ, ◌&&◌, ◌||◌, Bool, true, false, not, Option, none, some, List, [], ◌∷◌, ◌++◌, ◌==◌,
  if◌then◌else◌, ==_iff, Bool-cases, Option-cases, ◌≡◌, refl, ap, ◌∙◌, inl, inr, arith, all_by,
}
use gsm2mqtt.Base.Text.{codes}

abbrev pub translit_map : List (ℕ × List ℕ)
translit_map =
    (0x0410, codes "A")
    ∷ (0x0411, codes "B")
    ∷ (0x0412, codes "V")
    ∷ (0x0413, codes "G")
    ∷ (0x0414, codes "D")
    ∷ (0x0415, codes "E")
    ∷ (0x0401, codes "Yo")
    ∷ (0x0416, codes "Zh")
    ∷ (0x0417, codes "Z")
    ∷ (0x0418, codes "I")
    ∷ (0x0419, codes "J")
    ∷ (0x041A, codes "K")
    ∷ (0x041B, codes "L")
    ∷ (0x041C, codes "M")
    ∷ (0x041D, codes "N")
    ∷ (0x041E, codes "O")
    ∷ (0x041F, codes "P")
    ∷ (0x0420, codes "R")
    ∷ (0x0421, codes "S")
    ∷ (0x0422, codes "T")
    ∷ (0x0423, codes "U")
    ∷ (0x0424, codes "F")
    ∷ (0x0425, codes "Kh")
    ∷ (0x0426, codes "Ts")
    ∷ (0x0427, codes "Ch")
    ∷ (0x0428, codes "Sh")
    ∷ (0x0429, codes "Shch")
    ∷ (0x042A, codes "'")
    ∷ (0x042B, codes "Y")
    ∷ (0x042C, codes "'")
    ∷ (0x042D, codes "E")
    ∷ (0x042E, codes "Yu")
    ∷ (0x042F, codes "Ya")
    ∷ (0x0430, codes "a")
    ∷ (0x0431, codes "b")
    ∷ (0x0432, codes "v")
    ∷ (0x0433, codes "g")
    ∷ (0x0434, codes "d")
    ∷ (0x0435, codes "e")
    ∷ (0x0451, codes "yo")
    ∷ (0x0436, codes "zh")
    ∷ (0x0437, codes "z")
    ∷ (0x0438, codes "i")
    ∷ (0x0439, codes "j")
    ∷ (0x043A, codes "k")
    ∷ (0x043B, codes "l")
    ∷ (0x043C, codes "m")
    ∷ (0x043D, codes "n")
    ∷ (0x043E, codes "o")
    ∷ (0x043F, codes "p")
    ∷ (0x0440, codes "r")
    ∷ (0x0441, codes "s")
    ∷ (0x0442, codes "t")
    ∷ (0x0443, codes "u")
    ∷ (0x0444, codes "f")
    ∷ (0x0445, codes "kh")
    ∷ (0x0446, codes "ts")
    ∷ (0x0447, codes "ch")
    ∷ (0x0448, codes "sh")
    ∷ (0x0449, codes "shch")
    ∷ (0x044A, codes "'")
    ∷ (0x044B, codes "y")
    ∷ (0x044C, codes "'")
    ∷ (0x044D, codes "e")
    ∷ (0x044E, codes "yu")
    ∷ (0x044F, codes "ya")
    ∷ []

pub translit_of : ℕ → List (ℕ × List ℕ) → Option (List ℕ)
translit_of r [] = none
translit_of r ((letter, repl) ∷ m) =
    let rest = translit_of r m in if letter == r then some repl else rest

pub write_or : Option (List ℕ) → ℕ → List ℕ
write_or (some repl) r = repl
write_or none r = r ∷ []

pub transliterate : List ℕ → List ℕ
transliterate [] = []
transliterate (r ∷ text) = write_or (translit_of r translit_map) r ++ transliterate text
