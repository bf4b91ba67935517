-- ===== src/Pool/Failover.antt =====
-- internal/pool/pool.go: SendSMS over the candidates, and the registration that keeps them distinct.
use gsm2mqtt.Base.{
  ℕ, ◌%◌, Bool, Option, some, List, [], ◌∷◌, ◌==◌, length, filter_by, text_eq, Memᴰ, Bool-cases,
  Option-cases, ◌≡◌, refl, sym, ◌↔◌, inl, inr, arith,
}
use gsm2mqtt.Base.Text.{is_empty}
use gsm2mqtt.Pool.{
  ModemMember, Pool, SelectionCriteria, strategy_failover, strategy_best_signal,
  strategy_operator_match, pick_best_signal, detect_operator_by_number, is_ready, match_operator,
  pick_operator_match, order_candidates, Sent, sent, try_modems, send_by, order_ready, candidates,
  send_sms,
}
use gsm2mqtt.Pool.Candidates.{
  Distinct, SameModems, best-Mem, prepend-SameModems, rotate-SameModems, filter_by-Mem,
}
use mathlib.Core.List.Memᴰ
use native.Mathlib.Nat.{mod-lt}

module _ (equal_fold : List ℕ → List ℕ → Bool) where
  match-Mem :
      (target : List ℕ) (d : ModemMember) (ms all : List ModemMember)
      → Memᴰ d all
      → ((x : ModemMember) → Memᴰ x ms → Memᴰ x all)
      → Memᴰ (match_operator equal_fold target d ms) all
  unfolding match_operator
  match-Mem target d [] all h sub = h
  match-Mem target d (m ∷ ms) all h sub = elim (Bool-cases (equal_fold m.operator target)) [
    | inl e ↦ rw e (sub m (Memᴰ.head refl))
    | inr e ↦ rw e (match-Mem target d ms all h (λ x n. sub x (Memᴰ.tail n)))
  ]

  operator-Mem :
      (m : ModemMember) (ms : List ModemMember) (number : List ℕ)
      → Memᴰ (pick_operator_match equal_fold m ms number) (m ∷ ms)
  unfolding pick_operator_match
  operator-Mem m ms number = elim (Bool-cases (is_empty (detect_operator_by_number number))) [
    | inl e ↦ rw e (Memᴰ.head refl)
    | inr e ↦ rw e (
        match-Mem (detect_operator_by_number number) m (m ∷ ms) (m ∷ ms) (Memᴰ.head refl)
          (λ x n. n))
  ]

  order-SameModems :
      (p : Pool) (m : ModemMember) (ms : List ModemMember) (criteria : SelectionCriteria)
      → Distinct (m ∷ ms)
      → SameModems (order_candidates equal_fold p m ms criteria).0 (m ∷ ms)
  unfolding order_candidates
  order-SameModems p m ms criteria distinct =
      elim (Bool-cases (text_eq p.strategy strategy_failover)) [
        | inl a ↦ rw a (λ x. (λ h. h, λ h. h))
        | inr a ↦ elim (Bool-cases (text_eq p.strategy strategy_best_signal)) [
          | inl b ↦
              rw (a, b)
                (prepend-SameModems (m ∷ ms) (pick_best_signal m ms) distinct (best-Mem m ms))
          | inr b ↦ elim (Bool-cases (text_eq p.strategy strategy_operator_match)) [
            | inl c ↦
                rw (a, b, c)
                  (prepend-SameModems (m ∷ ms)
                    (pick_operator_match equal_fold m ms criteria.recipient_number) distinct
                    (operator-Mem m ms criteria.recipient_number))
            | inr c ↦
                rw (a, b, c)
                  (rotate-SameModems m (m ∷ ms) (p.rr_index % length (m ∷ ms)) (omega arith)
                    (mod-lt p.rr_index (omega arith)))
          ]
        ]
      ]

-- Some modem of the list sends.
abbrev pub Sends : (ModemMember → Option (List ℕ)) → List ModemMember → Type 0
Sends attempt ms = (m : ModemMember) × Memᴰ m ms × ((ref : List ℕ) × (attempt m ≡ some ref))

-- The answer is a reference.
abbrev pub IsSent : Sent → Type 0
IsSent s = (ref : List ℕ) × (s ≡ sent ref)

module _ (attempt : ModemMember → Option (List ℕ)) where
  tried : (ms : List ModemMember) → IsSent (try_modems attempt ms) ↔ Sends attempt ms
  unfolding try_modems
  tried [] = (λ h. absurd (cc (h.1)), λ h. absurd (Memᴰ.not-nil h.1))
  tried (m ∷ ms) =
      let rest = tried ms in
      elim (Option-cases (attempt m)) [
        | inl e ↦
            rw (e, try_modems)
              (
                λ h. let t = rest.0 h in (t.0, Memᴰ.tail t.1, t.2),
                λ t. elim (Memᴰ.cases_cons t.1) [
                  | inl same ↦
                      let works : attempt m ≡ some t.2.0 = rw (sym same) t.2.1 in
                      absurd (cc (e, works))
                  | inr later ↦ rest.1 (t.0, later, t.2)
                ],
              )
        | inr found ↦
            rw (found.1, try_modems) (λ h. (m, Memᴰ.head refl, found), λ t. (found.0, refl))
      ]

-- The modems of a pool that are ready.
abbrev pub ready_of : Pool → List ModemMember
ready_of p = filter_by is_ready p.modems

module _ (attempt : ModemMember → Option (List ℕ)) (equal_fold : List ℕ → List ℕ → Bool) where
  Sends-same : (xs ys : List ModemMember) → SameModems xs ys → Sends attempt xs ↔ Sends attempt ys
  Sends-same xs ys same = (λ t. (t.0, (same t.0).0 t.1, t.2), λ t. (t.0, (same t.0).1 t.1, t.2))

  ordered :
      (p : Pool) (ms : List ModemMember) (criteria : SelectionCriteria)
      → Distinct ms
      → IsSent (send_by attempt (order_ready equal_fold p ms criteria).0) ↔ Sends attempt ms
  unfolding order_ready send_by
  ordered p [] criteria distinct = (λ h. absurd (cc (h.1)), λ h. absurd (Memᴰ.not-nil h.1))
  ordered p (m ∷ ms) criteria distinct =
      let all = (order_candidates equal_fold p m ms criteria).0 in
      let one = tried attempt all in
      let two = Sends-same all (m ∷ ms) (order-SameModems equal_fold p m ms criteria distinct) in
      (λ h. two.0 (one.0 h), λ t. one.1 (two.1 t))

ready-Distinct : (ms : List ModemMember) → Distinct ms → Distinct (filter_by is_ready ms)
ready-Distinct ms distinct x y h k =
    distinct x y ((filter_by-Mem is_ready ms x).0 h).0 ((filter_by-Mem is_ready ms y).0 k).0

no-Mem : (ms : List ModemMember) (x : ModemMember) → length ms ≡ 0 → ¬ Memᴰ x ms
no-Mem [] x e h = Memᴰ.not-nil h
no-Mem (m ∷ ms) x e h = omega (arith, e)

-- Where no two modems of the pool share an identifier, SendSMS succeeds exactly if some ready modem
-- of the pool can send the message, whatever the strategy.
pub send_sms_iff :
    (equal_fold : List ℕ → List ℕ → Bool)
    (modem_send_sms : ModemMember → List ℕ → List ℕ → Option (List ℕ)) (p : Pool) (to text : List ℕ)
    → Distinct p.modems
    → IsSent (send_sms equal_fold modem_send_sms p to text).0
      ↔ Sends (λ m. modem_send_sms m to text) (ready_of p)
unfolding send_sms candidates send_by
send_sms_iff equal_fold modem_send_sms p to text distinct =
    let by_order =
      ordered (λ m. modem_send_sms m to text) equal_fold p (ready_of p)
        (record { recipient_number = to; required_modem_id = [] })
        (ready-Distinct p.modems distinct) in
    elim (Bool-cases (length p.modems == 0)) [
      | inl e ↦
          rw (e, send_by)
            (
              λ h. absurd (cc (h.1)),
              λ t. absurd (
                  no-Mem p.modems t.0 (ground arith)
                    ((filter_by-Mem is_ready p.modems t.0).0 t.1).0),
            )
      | inr e ↦ rw e by_order
    ]
