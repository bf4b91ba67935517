-- ===== src/Sms/Assembler/Delivery.antt =====
-- internal/sms/assembler.go: what is handed on when all the parts of a message have come.
use gsm2mqtt.Base.{
  ℕ, suc, ◌+◌, ◌≤◌, ◌<◌, true, false, not, ◌||◌, none, List, [], ◌∷◌, ltb, leb, ◌==◌, length,
  Bool-cases, ◌≡◌, ◌≢◌, ◌⊎◌, refl, ap, ◌∙◌, inl, inr, subst, arith, All, length-zero,
}
use gsm2mqtt.Base.Maps.{lookup}
use gsm2mqtt.Sms.Assembler.{
  IncomingPart, Key, key_eq, Assembler, cleanup_expired, key_of, pending_or_new, add_pending,
  add_multipart, add_part, flush_pending,
}
use gsm2mqtt.Sms.Assembler.Parts.{Message, message_key, IsPartOf, OneWhole, has}
use gsm2mqtt.Sms.Assembler.Calls.{
  Call, arrive, time_out, take_call, is_arrival_of, answers, numbers, AllNew,
}
use gsm2mqtt.Sms.Assembler.Traffic.{
  key_eq_iff, add_multipart-Same, flush-Same, Collecting, Collecting-Same, IsInTime,
  cleanup-Collecting, pending_or_new-Gathered, add_more, add_last,
}

module _ (msg : Message) (start ttl : ℕ) where
  -- A call in time, either for another message or with a part of this one.
  abbrev pub Orderly : Call → Type 0
  Orderly (arrive now part) =
      IsInTime msg start ttl now × (key_of part ≡ message_key msg → IsPartOf msg part)
  Orderly (time_out now k) = k ≢ message_key msg

  own_call :
      (seen : List ℕ) (now : ℕ) (part : IncomingPart) (a : Assembler)
      → 2 ≤ length msg.texts
      → length msg.texts ≤ 20
      → key_of part ≡ message_key msg
      → IsPartOf msg part
      → Collecting msg start ttl seen (cleanup_expired now a)
      → add_part now part a
        ≡ add_pending
            (message_key msg)
            part
            (pending_or_new now part
              (lookup key_eq (message_key msg) (cleanup_expired now a).pending))
            (cleanup_expired now a)
  unfolding add_part add_multipart
  own_call seen now part a lo hi own p c =
      let single : (not part.is_multipart || leb part.total_parts 1) ≡ false =
        ground (arith, p, lo) in
      let bad : ((part.part_number == 0)
            || ltb part.total_parts part.part_number
            || ltb 20 part.total_parts)
          ≡ false =
        ground (arith, p, hi) in
      let absent : lookup key_eq (key_of part) (cleanup_expired now a).flushed ≡ none =
        ap (λ (k : Key). lookup key_eq k (cleanup_expired now a).flushed) own ∙ c.1 in
      let to_pending : add_part now part a ≡ add_multipart now part (cleanup_expired now a) none =
        rw (single, bad, absent) refl in
      to_pending
      ∙ ap
          (λ (k : Key).
            add_pending k part
              (pending_or_new now part (lookup key_eq k (cleanup_expired now a).pending))
              (cleanup_expired now a))
          own

  other_part :
      (seen : List ℕ) (now : ℕ) (part : IncomingPart) (a : Assembler)
      → IsInTime msg start ttl now
      → key_of part ≢ message_key msg
      → Collecting msg start ttl seen a
      → Collecting msg start ttl seen (add_part now part a).1
  unfolding add_part
  other_part seen now part a time apart c =
      elim (Bool-cases (not part.is_multipart || leb part.total_parts 1)) [
        | inl e ↦ rw e c
        | inr e ↦
            elim (Bool-cases (
              (part.part_number == 0)
              || ltb part.total_parts part.part_number
              || ltb 20 part.total_parts)) [
                | inl f ↦ rw (e, f) c
                | inr f ↦
                    rw (e, f)
                      (Collecting-Same msg start ttl seen (cleanup_expired now a)
                        (add_multipart now part (cleanup_expired now a)
                          (lookup key_eq (key_of part) (cleanup_expired now a).flushed)).1
                        (add_multipart-Same (message_key msg) now part (cleanup_expired now a) _
                          apart)
                        (cleanup-Collecting msg start ttl seen now a time c))
              ]
      ]

  other_call :
      (seen : List ℕ) (call : Call) (a : Assembler)
      → Orderly call
      → is_arrival_of (message_key msg) call ≡ false
      → Collecting msg start ttl seen a
      → Collecting msg start ttl seen (take_call call a).1
  other_call seen (arrive now part) a o e c =
      other_part seen now part a o.0
        (λ same. let on = (key_eq_iff (key_of part) (message_key msg)).1 same in cc) c
  other_call seen (time_out now k) a o e c =
      Collecting-Same msg start ttl seen a (flush_pending now k a).1
        (unfold flush_pending in flush-Same (message_key msg) k o now (lookup key_eq k a.pending) a)
        c

  -- Without further parts of the message there is no answer.
  quiet :
      (calls : List Call) (a : Assembler)
      → numbers (message_key msg) calls ≡ []
      → answers (message_key msg) calls a ≡ []
  quiet [] a e = refl
  quiet (call ∷ calls) a e = elim (Bool-cases (is_arrival_of (message_key msg) call)) [
    | inl h ↦ let some_number = (rw h at e) in cc
    | inr h ↦ rw h (quiet calls (take_call call a).1 (rw h at e))
  ]

  abbrev Covered : List ℕ → List ℕ → Type 0
  Covered seen nums =
      (i : ℕ) → 1 ≤ i → i ≤ length msg.texts → (has i seen ≡ true) ⊎ (has i nums ≡ true)

  Covered-cons : (i : ℕ) (seen nums : List ℕ) → Covered seen (i ∷ nums) → Covered (i ∷ seen) nums
  Covered-cons i seen nums h k lo hi = elim (Bool-cases (i == k)) [
    | inl e ↦ inl (rw e refl)
    | inr e ↦ elim (h k lo hi) [ inl s ↦ inl (rw e s) | inr n ↦ inr (rw e at n) ]
  ]

  Covered-nil :
      (seen : List ℕ) → Covered seen [] → (i : ℕ) → 1 ≤ i → i ≤ length msg.texts → has i seen ≡ true
  Covered-nil seen h i lo hi = elim (h i lo hi) [ inl s ↦ s | inr n ↦ cc ]

  module _ (lo : 2 ≤ length msg.texts) (hi : length msg.texts ≤ 20) where
    -- The goal of the induction, at each state.
    abbrev Collects : List Call → Type 0
    Collects calls =
        (seen : List ℕ) (a : Assembler)
        → Collecting msg start ttl seen a
        → All Orderly calls
        → AllNew seen (numbers (message_key msg) calls)
        → length seen + length (numbers (message_key msg) calls) ≡ length msg.texts
        → Covered seen (numbers (message_key msg) calls)
        → 0 < length (numbers (message_key msg) calls)
        → OneWhole msg (answers (message_key msg) calls a)

    own_part :
        (now : ℕ) (part : IncomingPart) (calls : List Call) (seen : List ℕ) (a : Assembler)
        → key_eq (key_of part) (message_key msg) ≡ true
        → Collecting msg start ttl seen a
        → Orderly (arrive now part)
        → All Orderly calls
        → AllNew seen (part.part_number ∷ numbers (message_key msg) calls)
        → length seen + suc (length (numbers (message_key msg) calls)) ≡ length msg.texts
        → Covered seen (part.part_number ∷ numbers (message_key msg) calls)
        → Collects calls
        → OneWhole msg (answers (message_key msg) (arrive now part ∷ calls) a)
    own_part now part calls seen a e c o os new total cover next =
        let own = (key_eq_iff (key_of part) (message_key msg)).0 e in
        let p = o.1 own in
        let b = cleanup_expired now a in
        let held = lookup key_eq (message_key msg) b.pending in
        let c1 = cleanup-Collecting msg start ttl seen now a o.0 c in
        let pm = pending_or_new now part held in
        let g = pending_or_new-Gathered msg start ttl seen now part held o.0.0 own p c1.0 in
        let r = own_call seen now part a lo hi own p c1 in
        let cover1 = Covered-cons part.part_number seen (numbers (message_key msg) calls) cover in
        elim (Bool-cases (ltb 0 (length (numbers (message_key msg) calls)))) [
          | inl more ↦
              let few : suc (length seen) < length msg.texts = ground (arith, total, more) in
              let step = add_more msg start ttl seen part pm b own p g new.0 c1 few in
              rw (e, r, step.0)
                (next (part.part_number ∷ seen) (add_pending (message_key msg) part pm b).1 step.1
                  os new.1 (omega (arith, total)) cover1 (ground (arith, more)))
          | inr done ↦
              let none_left : numbers (message_key msg) calls ≡ [] =
                length-zero (numbers (message_key msg) calls) (ground (arith, done)) in
              let full : suc (length seen) ≡ length msg.texts = ground (arith, total, done) in
              let all =
                Covered-nil (part.part_number ∷ seen)
                  (subst (Covered (part.part_number ∷ seen)) none_left cover1) in
              let step = add_last msg start ttl seen part pm b own p g new.0 c1 full all in
              let rest = quiet calls (add_pending (message_key msg) part pm b).1 none_left in
              rw (e, r, step.0.1, rest) (step.0.0, refl, step.0.2)
        ]

    collect : (calls : List Call) → Collects calls
    collect [] seen a c o new total cover left = absurd (omega (arith, left))
    collect (arrive now part ∷ calls) seen a c o new total cover left =
        elim (Bool-cases (key_eq (key_of part) (message_key msg))) [
          | inl e ↦
              own_part now part calls seen a e c o.0 o.1 (rw e at new) (rw e at total)
                (rw e at cover) (λ s b. collect calls s b)
          | inr e ↦ rw e (
              collect calls seen (add_part now part a).1
                (other_call seen (arrive now part) a o.0 e c) o.1 (rw e at new) (rw e at total)
                (rw e at cover) (rw e at left))
        ]
    collect (time_out now k ∷ calls) seen a c o new total cover left =
        collect calls seen (flush_pending now k a).1 (other_call seen (time_out now k) a o.0 refl c)
          o.1 new total cover left

-- The numbers 1 to n, each once, in any order.
abbrev pub Shuffled : ℕ → List ℕ → Type 0
Shuffled n nums = AllNew [] nums × (length nums ≡ n) × ((i : ℕ) → 1 ≤ i → i ≤ n → has i nums ≡ true)

-- A message of 2 to 20 parts, all of which come in once each, in any order, among any calls of
-- AddPart for other messages and timeouts of other messages, from a state without pending or flushed
-- parts under the message's key, and, where parts expire, within that time of the first: AddPart
-- hands on exactly one message for those parts, with the sender, all texts in the order of their
-- numbers, the number of the parts, and marked as complete.
pub answers-OneWhole :
    (msg : Message) (start : ℕ) (calls : List Call) (a : Assembler)
    → 2 ≤ length msg.texts
    → length msg.texts ≤ 20
    → lookup key_eq (message_key msg) a.pending ≡ none
    → lookup key_eq (message_key msg) a.flushed ≡ none
    → All (Orderly msg start a.ttl) calls
    → Shuffled (length msg.texts) (numbers (message_key msg) calls)
    → OneWhole msg (answers (message_key msg) calls a)
answers-OneWhole msg start calls a lo hi idle unflushed o s =
    collect msg start a.ttl lo hi calls [] a (rw idle refl, unflushed, refl) o s.0
      (omega (arith, s.1)) (λ i l h. inr (s.2 i l h)) (omega (arith, s.1))
