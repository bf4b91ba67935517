-- ===== src/Security/Recipients/Runs.antt =====
-- internal/security/recipients.go, mask.go: the list of recipients at concrete inputs.
use gsm2mqtt.Base.{false, none, List, [], ◌∷◌, ◌≡◌, inl, inr, refl}
use gsm2mqtt.Base.Text.{codes, trim_space, trim_left, trim_right}
use gsm2mqtt.Security.Mask.{mask_phone}
use gsm2mqtt.Security.Recipients.{normalize_number, new_recipients_manager, contains}
use gsm2mqtt.Security.Recipients.Spec.{
  Call, add_call, remove_call, run, spec_run, members, Represents,
}
use gsm2mqtt.Security.Recipients.Refinement.{contains-run}

national : normalize_number (codes "8 (900) 123-45-67") ≡ inr (codes "+79001234567")
unfolding normalize_number trim_space trim_left trim_right
national = refl

masked : mask_phone (codes "+79001234567") ≡ codes "+7900***4567"
unfolding mask_phone
masked = refl

abbrev calls : List Call
calls =
    add_call (codes "8 900 123-45-67")
    ∷ add_call (codes "+79001234567")
    ∷ remove_call (codes "112")
    ∷ []

contains-run_example :
    let m = (new_recipients_manager (codes "r.json") none (codes "+4917012345" ∷ [])).1 in
    let r = spec_run calls (members m) in
    Represents (run calls m).numbers r
    × (contains (codes "89001234567") (run calls m)
        ≡ elim (normalize_number (codes "89001234567")) [ inl e ↦ false | inr norm ↦ r norm ])
contains-run_example =
    contains-run (codes "r.json") none (codes "+4917012345" ∷ []) calls (codes "89001234567")
