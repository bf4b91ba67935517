-- ===== src/Sms/Assembler/Calls.antt =====
-- internal/sms/assembler.go: sequences of its calls, and what they hand on.
use gsm2mqtt.Base.{ℕ, Bool, false, Option, none, some, List, [], ◌∷◌, if◌then◌else◌, ◌≡◌}
use gsm2mqtt.Sms.Assembler.{
  IncomingPart, AssembledSms, Key, key_eq, Assembler, key_of, add_part, flush_pending,
}
use gsm2mqtt.Sms.Assembler.Parts.{has}

-- What the assembler is called with: a part that comes in, or a timer that runs out.
pub data Call : Type 0 where
  arrive : ℕ → IncomingPart → Call
  time_out : ℕ → Key → Call

abbrev pub take_call : Call → Assembler → Option AssembledSms × Assembler
take_call (arrive now part) a = add_part now part a
take_call (time_out now key) a = flush_pending now key a

abbrev pub is_arrival_of : Key → Call → Bool
is_arrival_of key (arrive now part) = key_eq (key_of part) key
is_arrival_of key (time_out now k) = false

abbrev pub with_answer : Option AssembledSms → List AssembledSms → List AssembledSms
with_answer none rest = rest
with_answer (some m) rest = m ∷ rest

-- What AddPart hands on for the parts under one key, over any calls.
abbrev pub answers : Key → List Call → Assembler → List AssembledSms
answers key [] a = []
answers key (call ∷ calls) a =
    let r = take_call call a in
    let rest = answers key calls r.1 in
    if is_arrival_of key call then with_answer r.0 rest else rest

abbrev pub number_of : Call → ℕ
number_of (arrive now part) = part.part_number
number_of (time_out now k) = 0

-- The part numbers that come in under one key.
abbrev pub numbers : Key → List Call → List ℕ
numbers key [] = []
numbers key (call ∷ calls) =
    let rest = numbers key calls in if is_arrival_of key call then number_of call ∷ rest else rest

-- No number twice, and none that has been seen.
abbrev pub AllNew : List ℕ → List ℕ → Type 0
AllNew seen [] = Unit {0}
AllNew seen (i ∷ nums) = (has i seen ≡ false) × AllNew (i ∷ seen) nums
