-- ===== src/Pool/Runs.antt =====
-- internal/pool: the choice and the failover on two modems.
use gsm2mqtt.Base.{
  ℕ, Option, none, some, List, [], ◌∷◌, if◌then◌else◌, text_eq, ◌≡◌, refl, ◌↔◌, inl, inr,
}
use gsm2mqtt.Base.Int.{pos, negsuc}
use gsm2mqtt.Base.Text.{codes}
use gsm2mqtt.Pool.{
  ModemMember, Pool, sent, candidates, send_sms, send_by, try_modems, order_ready, order_candidates,
  prepend_candidate, pick_best_signal, without_id,
}
use gsm2mqtt.Pool.Candidates.{Distinct}
use gsm2mqtt.Pool.Registration.{Calls, built, built-Distinct}
use gsm2mqtt.Pool.Failover.{IsSent, Sends, ready_of, send_sms_iff}
use mathlib.Core.List.Memᴰ

abbrev weak : ModemMember
weak = record { id = 0 ∷ []; status = codes "ready"; signal = negsuc 0; operator = codes "MTS" }

abbrev strong : ModemMember
strong = record { id = 1 ∷ []; status = codes "ready"; signal = pos 20; operator = codes "Tele2" }

abbrev two_modems : Pool
two_modems = record { strategy = codes "best-signal"; modems = weak ∷ strong ∷ []; rr_index = 0 }

-- The strong modem fails, so the weak one sends.
abbrev only_weak : ModemMember → List ℕ → List ℕ → Option (List ℕ)
only_weak m to text = if text_eq m.id (0 ∷ []) then some (7 ∷ []) else none

fails_over : (send_sms text_eq only_weak two_modems (codes "112") (codes "hi")).0 ≡ sent (7 ∷ [])
unfolding send_sms candidates send_by try_modems order_ready order_candidates prepend_candidate
    pick_best_signal without_id
fails_over = refl

two_modems-Distinct : Distinct (weak ∷ strong ∷ [])
two_modems-Distinct x y h k e = elim (Memᴰ.cases_cons h) [
  | inl a ↦ elim (Memᴰ.cases_cons k) [
    | inl b ↦ rw (a, b) refl
    | inr b ↦ elim (Memᴰ.cases_cons b) [
      | inl c ↦ let clash : 0 ∷ [] ≡ 1 ∷ [] = (rw (a, c) at e) in cc
      | inr c ↦ absurd (Memᴰ.not-nil c)
    ]
  ]
  | inr a ↦ elim (Memᴰ.cases_cons a) [
    | inl c ↦ elim (Memᴰ.cases_cons k) [
      | inl b ↦ let clash : 1 ∷ [] ≡ 0 ∷ [] = (rw (c, b) at e) in cc
      | inr b ↦ elim (Memᴰ.cases_cons b) [
        | inl d ↦ rw (c, d) refl
        | inr d ↦ absurd (Memᴰ.not-nil d)
      ]
    ]
    | inr c ↦ absurd (Memᴰ.not-nil c)
  ]
]

send_sms_iff_example :
    IsSent (send_sms text_eq only_weak two_modems (codes "112") (codes "hi")).0
    ↔ Sends (λ m. only_weak m (codes "112") (codes "hi")) (ready_of two_modems)
send_sms_iff_example =
    send_sms_iff text_eq only_weak two_modems (codes "112") (codes "hi") two_modems-Distinct

-- The weak modem twice, then under its identifier another one, and the strong one, which goes.
abbrev some_calls : Calls
some_calls =
    inl weak ∷ inl weak ∷ inl (record strong { id = 0 ∷ [] }) ∷ inl strong ∷ inr (1 ∷ []) ∷ []

built-Distinct_example : Distinct (built (record two_modems { modems = [] }) some_calls).modems
built-Distinct_example = built-Distinct (record two_modems { modems = [] }) some_calls refl
