-- ===== src/Sms/Assembler/Parts.antt =====
-- internal/sms/assembler.go: the parts of one message as they gather.
use gsm2mqtt.Base.{
  ℕ, suc, ◌+◌, ◌-◌, ◌≤◌, ◌<◌, Bool, true, false, none, some, List, [], ◌∷◌, ◌++◌, ◌==◌, ==_iff,
  if◌then◌else◌, length, get_or, concat, any_by, Bool-cases, ◌≡◌, refl, sym, ap, ap₂, ◌∙◌, inl, inr,
  arith,
}
use gsm2mqtt.Base.Maps.{lookup, insert, delete_absent, eq_same}
use gsm2mqtt.Sms.Assembler.{IncomingPart, AssembledSms, Key, PartTexts, text_of, joined}

-- A message as its sender splits it.
pub record Message : Type 0 where
  pub from : List ℕ
  pub reference : ℕ
  pub texts : List (List ℕ)

abbrev pub message_key : Message → Key
message_key msg = (msg.from, msg.reference)

abbrev pub has : ℕ → List ℕ → Bool
has i seen = any_by (λ j. j == i) seen

-- The part numbered `i`.
abbrev pub part_text : Message → ℕ → List ℕ
part_text msg i = get_or msg.texts (i - 1) []

-- A part of the message.
abbrev pub IsPartOf : Message → IncomingPart → Type 0
IsPartOf msg part =
    (part.is_multipart ≡ true)
    × (part.total_parts ≡ length msg.texts)
    × (1 ≤ part.part_number)
    × (part.part_number ≤ length msg.texts)
    × (part.text ≡ part_text msg part.part_number)

-- The whole message, as it is handed on.
abbrev pub IsWhole : Message → AssembledSms → Type 0
IsWhole msg m =
    (m.from ≡ msg.from)
    × (m.text ≡ concat msg.texts)
    × (m.segments ≡ length msg.texts)
    × (m.is_complete ≡ true)
    × (m.is_update ≡ false)

-- Exactly one answer, the whole message.
abbrev pub OneWhole : Message → List AssembledSms → Type 0
OneWhole msg ms = (m : AssembledSms) × (ms ≡ m ∷ []) × IsWhole msg m

-- The parts whose numbers have been seen.
abbrev pub Holds : Message → List ℕ → PartTexts → Type 0
Holds msg seen parts =
    (length parts ≡ length seen)
    × ((i : ℕ) → lookup ◌==◌ i parts ≡ (if has i seen then some (part_text msg i) else none))

pub Holds-insert :
    (msg : Message) (seen : List ℕ) (parts : PartTexts) (i : ℕ)
    → has i seen ≡ false
    → Holds msg seen parts
    → Holds msg (i ∷ seen) (insert ◌==◌ i (part_text msg i) parts)
Holds-insert msg seen parts i fresh h =
    let absent : lookup ◌==◌ i parts ≡ none = h.1 i ∙ rw fresh refl in
    let same = delete_absent ◌==◌ ==_iff i parts absent in
    (
      rw same (omega (arith, h.0)),
      λ k. elim (Bool-cases (i == k)) [
        | inl e ↦ let here : i ≡ k = (==_iff i k).0 e in rw (sym here, eq_same ◌==◌ ==_iff i) refl
        | inr e ↦ rw (e, same) (h.1 k)
      ],
    )

-- The loop over the numbers writes the texts that it finds.
joined_texts :
    (ts : List (List ℕ)) (parts : PartTexts) (k : ℕ)
    → ((j : ℕ) → j < length ts → lookup ◌==◌ (k + j) parts ≡ some (get_or ts j []))
    → joined parts k (length ts) ≡ concat ts
unfolding joined
joined_texts [] parts k h = refl
joined_texts (t ∷ ts) parts k h =
    let zeroth : k + 0 ≡ k = omega arith in
    let first : lookup ◌==◌ k parts ≡ some t =
      ap (λ (n : ℕ). lookup ◌==◌ n parts) (sym zeroth) ∙ h 0 (omega arith) in
    let rest = joined_texts ts parts (k + 1) (λ j l.
      let shift : k + 1 + j ≡ k + suc j = omega arith in
      ap (λ (n : ℕ). lookup ◌==◌ n parts) shift ∙ h (suc j) (omega arith)) in
    ap₂ (λ (a b : List ℕ). a ++ b) (ap text_of first) rest

pub joined_all :
    (msg : Message) (seen : List ℕ) (parts : PartTexts)
    → Holds msg seen parts
    → ((i : ℕ) → 1 ≤ i → i ≤ length msg.texts → has i seen ≡ true)
    → joined parts 1 (length msg.texts) ≡ concat msg.texts
joined_all msg seen parts h all = joined_texts msg.texts parts 1 (λ j l.
    let there = all (1 + j) (omega arith) (omega (arith, l)) in
    let at : 1 + j - 1 ≡ j = omega arith in
    h.1 (1 + j) ∙ rw there (ap (λ (n : ℕ). some (get_or msg.texts n [])) at))
