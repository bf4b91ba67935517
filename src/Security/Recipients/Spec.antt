-- ===== src/Security/Recipients/Spec.antt =====
-- internal/security/recipients.go: what the manager promises, as a set of normal forms.
use gsm2mqtt.Base.{
  ℕ, Bool, true, false, Option, none, some, List, [], ◌∷◌, if◌then◌else◌, text_eq, All, ◌≡◌, ◌⊎◌,
  inl, inr,
}
use gsm2mqtt.Security.Recipients.{
  NumberError, normalize_number, RecipientsManager, is_member, add, remove, set,
}
use gsm2mqtt.Security.Recipients.Normal.{E164}
use gsm2mqtt.Security.Recipients.Members.{Distinct}

-- The calls that change the list.
pub data Call : Type 0 where
  add_call remove_call : List ℕ → Call
  set_call : List (List ℕ) → Call

abbrev pub call : Call → RecipientsManager → RecipientsManager
call (add_call raw) m = (add raw m).2
call (remove_call raw) m = (remove raw m).2
call (set_call raws) m = (set raws m).2

abbrev pub run : List Call → RecipientsManager → RecipientsManager
run [] m = m
run (c ∷ calls) m = run calls (call c m)

-- The specification: a set of numbers, told by its members.
abbrev pub Registry : Type 0
Registry = List ℕ → Bool

abbrev pub with_member : NumberError ⊎ List ℕ → Registry → Registry
with_member (inl e) r x = r x
with_member (inr norm) r x = if text_eq norm x then true else r x

abbrev pub without_member : NumberError ⊎ List ℕ → Registry → Registry
without_member (inl e) r x = r x
without_member (inr norm) r x = if text_eq norm x then false else r x

-- The normal forms of a list, if all its numbers have one.
abbrev pub cons_normal : NumberError ⊎ List ℕ → Option (List (List ℕ)) → Option (List (List ℕ))
cons_normal (inl e) norms = none
cons_normal (inr norm) none = none
cons_normal (inr norm) (some norms) = some (norm ∷ norms)

abbrev pub normal_forms : List (List ℕ) → Option (List (List ℕ))
normal_forms [] = some []
normal_forms (raw ∷ raws) = cons_normal (normalize_number raw) (normal_forms raws)

abbrev pub replaced : Option (List (List ℕ)) → Registry → Registry
replaced none r x = r x
replaced (some norms) r x = is_member x norms

abbrev pub spec_call : Call → Registry → Registry
spec_call (add_call raw) r = with_member (normalize_number raw) r
spec_call (remove_call raw) r = without_member (normalize_number raw) r
spec_call (set_call raws) r = replaced (normal_forms raws) r

abbrev pub spec_run : List Call → Registry → Registry
spec_run [] r = r
spec_run (c ∷ calls) r = spec_run calls (spec_call c r)

-- The members are those of the set, none is there twice, and each is a plus and four to sixteen digits.
abbrev pub Represents : List (List ℕ) → Registry → Type 0
Represents numbers r =
    ((x : List ℕ) → is_member x numbers ≡ r x) × Distinct numbers × All E164 numbers

-- What a manager starts with is its own set.
abbrev pub members : RecipientsManager → Registry
members m x = is_member x m.numbers
