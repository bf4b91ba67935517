-- ===== src/Security/Recipients/Refinement.antt =====
-- internal/security/recipients.go: the manager implements a set of normal forms.
use gsm2mqtt.Base.{
  ℕ, Bool, true, false, ◌||◌, Option, none, some, List, [], ◌∷◌, if◌then◌else◌, text_eq, All,
  Bool-cases, Sum-cases, ◌≡◌, ◌⊎◌, refl, sym, ap, ◌∙◌, inl, inr, arith,
}
use gsm2mqtt.Security.Recipients.{
  NumberError, normalize_number, RecipientsManager, is_member, add_number_in_memory,
  new_recipients_manager, contains, add_norm, add, remove_first, remove_norm, remove,
  normalized_list, set_normal, set,
}
use gsm2mqtt.Security.Recipients.Normal.{E164, normalize_number-E164}
use gsm2mqtt.Security.Recipients.Members.{
  Distinct, is_member-add_number_in_memory, add_number_in_memory-Distinct, add_number_in_memory-All,
  remove_first-Distinct, remove_first-All, is_member-remove_first, remove_first_absent,
}
use gsm2mqtt.Security.Recipients.Spec.{
  Call, add_call, remove_call, set_call, call, run, Registry, with_member, without_member,
  cons_normal, normal_forms, replaced, spec_call, spec_run, members, Represents,
}
use gsm2mqtt.Security.Recipients.Start.{or_default-IsSound}

numbers-add_norm :
    (norm : List ℕ) (m : RecipientsManager)
    → (add_norm (inr norm) m).2.numbers ≡ add_number_in_memory norm m.numbers
numbers-add_norm norm m = elim (Bool-cases (is_member norm m.numbers)) [
  | inl e ↦ rw e refl
  | inr e ↦ rw e refl
]

numbers-remove_norm :
    (norm : List ℕ) (m : RecipientsManager)
    → (remove_norm (inr norm) m).2.numbers ≡ remove_first norm m.numbers
numbers-remove_norm norm m = elim (Bool-cases (is_member norm m.numbers)) [
  | inl e ↦ rw e refl
  | inr e ↦ rw e (sym (remove_first_absent norm m.numbers e))
]

-- One number more, whose normal form it is.
add_number_in_memory-Represents :
    (norm : List ℕ) (numbers : List (List ℕ)) (r : Registry)
    → E164 norm
    → Represents numbers r
    → Represents (add_number_in_memory norm numbers) (with_member (inr norm) r)
add_number_in_memory-Represents norm numbers r normal h = (
  λ x.
      is_member-add_number_in_memory x norm numbers
      ∙ ap (λ (b : Bool). if text_eq norm x then true else b) (h.0 x),
  add_number_in_memory-Distinct norm numbers h.1,
  add_number_in_memory-All E164 norm numbers normal h.2,
)

add_norm-Represents :
    (n : NumberError ⊎ List ℕ) (m : RecipientsManager) (r : Registry)
    → ((norm : List ℕ) → n ≡ inr norm → E164 norm)
    → Represents m.numbers r
    → Represents (add_norm n m).2.numbers (with_member n r)
add_norm-Represents (inl e) m r normal h = h
add_norm-Represents (inr norm) m r normal h =
    rw (numbers-add_norm norm m)
      (add_number_in_memory-Represents norm m.numbers r (normal norm refl) h)

remove_norm-Represents :
    (n : NumberError ⊎ List ℕ) (m : RecipientsManager) (r : Registry)
    → Represents m.numbers r
    → Represents (remove_norm n m).2.numbers (without_member n r)
remove_norm-Represents (inl e) m r h = h
remove_norm-Represents (inr norm) m r h = rw (numbers-remove_norm norm m) (
  λ x.
      is_member-remove_first x norm m.numbers h.1
      ∙ ap (λ (b : Bool). if text_eq norm x then false else b) (h.0 x),
  remove_first-Distinct norm m.numbers h.1,
  remove_first-All E164 norm m.numbers h.2,
)

-- What the loop of Set makes of a list, from the numbers seen before.
Gathered : List (List ℕ) → NumberError ⊎ List (List ℕ) → Option (List (List ℕ)) → Type 0
Gathered seen (inl e) norms = norms ≡ none
Gathered seen (inr numbers) norms =
    (all : List (List ℕ)) × (norms ≡ some all)
    × ((x : List ℕ) → is_member x numbers ≡ (is_member x seen || is_member x all))
    × Distinct numbers
    × All E164 numbers

-- One number more in front of the list.
cons_normal-Gathered :
    (norm : List ℕ) (seen : List (List ℕ)) (result : NumberError ⊎ List (List ℕ))
    (norms : Option (List (List ℕ)))
    → Gathered (add_number_in_memory norm seen) result norms
    → Gathered seen result (cons_normal (inr norm) norms)
unfolding Gathered
cons_normal-Gathered norm seen (inl e) norms h = rw h refl
cons_normal-Gathered norm seen (inr numbers) norms (all, found, members, d, a) =
    (norm ∷ all, rw found refl, λ x. members x ∙ joined x (Bool-cases (text_eq norm x)), d, a)
  where
    joined :
        (x : List ℕ)
        → (text_eq norm x ≡ true) ⊎ (text_eq norm x ≡ false)
        → (is_member x (add_number_in_memory norm seen) || is_member x all)
          ≡ (is_member x seen || is_member x (norm ∷ all))
    joined x (inl e) = rw (is_member-add_number_in_memory x norm seen, e) (ground arith)
    joined x (inr e) = rw (is_member-add_number_in_memory x norm seen, e) refl

normalized_list-Gathered :
    (raws seen : List (List ℕ))
    → Distinct seen
    → All E164 seen
    → Gathered seen (normalized_list raws seen) (normal_forms raws)
unfolding Gathered normalized_list
normalized_list-Gathered [] seen d a = ([], refl, λ x. ground arith, d, a)
normalized_list-Gathered (raw ∷ raws) seen d a = elim (Sum-cases (normalize_number raw)) [
  | inl e ↦ rw (normalized_list, e.1) refl
  | inr e ↦
      rw (normalized_list, e.1)
        (cons_normal-Gathered e.0 seen _ _ (
          normalized_list-Gathered raws (add_number_in_memory e.0 seen)
            (add_number_in_memory-Distinct e.0 seen d)
            (add_number_in_memory-All E164 e.0 seen (normalize_number-E164 raw e.0 e.1) a)))
]

set_normal-Represents :
    (result : NumberError ⊎ List (List ℕ)) (norms : Option (List (List ℕ))) (m : RecipientsManager)
    (r : Registry)
    → Gathered [] result norms
    → Represents m.numbers r
    → Represents (set_normal result m).2.numbers (replaced norms r)
unfolding Gathered
set_normal-Represents (inl e) norms m r g h = rw g h
set_normal-Represents (inr numbers) norms m r g h = rw g.1 (g.2, g.3, g.4)

call-Represents :
    (c : Call) (m : RecipientsManager) (r : Registry)
    → Represents m.numbers r
    → Represents (call c m).numbers (spec_call c r)
unfolding add remove set
call-Represents (add_call raw) m r h =
    add_norm-Represents (normalize_number raw) m r (λ norm e. normalize_number-E164 raw norm e) h
call-Represents (remove_call raw) m r h = remove_norm-Represents (normalize_number raw) m r h
call-Represents (set_call raws) m r h =
    set_normal-Represents (normalized_list raws []) (normal_forms raws) m r
      (normalized_list-Gathered raws [] tt tt) h

run-Represents :
    (calls : List Call) (m : RecipientsManager) (r : Registry)
    → Represents m.numbers r
    → Represents (run calls m).numbers (spec_run calls r)
run-Represents [] m r h = h
run-Represents (c ∷ calls) m r h =
    run-Represents calls (call c m) (spec_call c r) (call-Represents c m r h)

-- The manager, from any file and any default numbers and behind any calls of Add, Remove and Set,
-- holds what a set would hold: its numbers are the members of the set, each once, and each is a plus
-- and four to sixteen digits; Contains tells for every number whether its normal form is in the set.
pub contains-run :
    (file_path : List ℕ) (file : Option (List (List ℕ))) (default_numbers : List (List ℕ))
    (calls : List Call) (raw : List ℕ)
    → let m = (new_recipients_manager file_path file default_numbers).1 in
      let r = spec_run calls (members m) in
      Represents (run calls m).numbers r
      × (contains raw (run calls m)
          ≡ elim (normalize_number raw) [ inl e ↦ false | inr norm ↦ r norm ])
unfolding contains new_recipients_manager
contains-run file_path file default_numbers calls raw =
    let m = (new_recipients_manager file_path file default_numbers).1 in
    let sound = or_default-IsSound file_path file default_numbers in
    let h = run-Represents calls m (members m) (λ x. refl, sound.0, sound.1) in
    (
      h,
      elim (Sum-cases (normalize_number raw)) [
        | inl e ↦ rw (contains, e.1) refl
        | inr e ↦ rw (contains, e.1) (h.0 e.0)
      ],
    )
