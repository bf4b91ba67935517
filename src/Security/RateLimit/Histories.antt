-- ===== src/Security/RateLimit/Histories.antt =====
-- One sliding window: the history that the limiter keeps against the log of all messages sent.
use gsm2mqtt.Base.{
  ℕ, suc, ◌+◌, ◌≤◌, ◌<◌, false, List, [], ◌∷◌, ◌++◌, ltb, if◌then◌else◌, length, ◌≡◌, refl, sym, ap,
  ◌∙◌, arith, All, All-append, length-append, append_assoc, text_eq, text_eq_iff, Bool-cases, inl,
  inr,
}
use gsm2mqtt.Security.RateLimit.{
  Times, prune_older_than, history_of, without, with_history, over_limit,
}

-- How many of the logged times lie no more than `window` before now.
abbrev pub recent : ℕ → ℕ → Times → ℕ
recent window now [] = 0
recent window now (t ∷ log) =
    let rest = recent window now log in if ltb (t + window) now then rest else suc rest

-- A limit of 0 does not bound.
abbrev pub Within : ℕ → ℕ → Type 0
Within max n = if ltb 0 max then n ≤ max else Unit {0}

-- The history is the log without times that lie more than `window` before `now`.
abbrev Covers : ℕ → ℕ → Times → Times → Type 0
Covers window now log history =
    (old : Times) × (log ≡ old ++ history) × All (λ t. t + window < now) old

abbrev pub Tier : ℕ → ℕ → ℕ → Times → Times → Type 0
Tier window max now log history = Covers window now log history × Within max (length history)

module _ (window max : ℕ) where
  later :
      (old : Times) (t now : ℕ)
      → t ≤ now
      → All (λ s. s + window < t) old
      → All (λ s. s + window < now) old
  later [] t now h a = tt
  later (s ∷ old) t now h a = (omega arith, later old t now h a.1)

  prune-Covers :
      (now : ℕ) (history log old : Times)
      → log ≡ old ++ history
      → All (λ t. t + window < now) old
      → Covers window now log (prune_older_than history window now)
  unfolding prune_older_than
  prune-Covers now [] log old e a = (old, e, a)
  prune-Covers now (t ∷ history) log old e a = elim (Bool-cases (ltb (t + window) now)) [
    | inl h ↦ rw h (
        prune-Covers now history log (old ++ t ∷ []) (e ∙ sym (append_assoc old (t ∷ []) history))
          (All-append (λ s. s + window < now) old (t ∷ []) a (ground arith)))
    | inr h ↦ rw h (old, e, a)
  ]

  pub length-prune :
      (history : Times) (now : ℕ) → length (prune_older_than history window now) ≤ length history
  unfolding prune_older_than
  length-prune [] now = omega arith
  length-prune (t ∷ history) now = ground (arith, length-prune history now)

  pub Tier-later :
      (t now : ℕ) (log history : Times)
      → t ≤ now
      → Tier window max t log history
      → Tier window max now log history
  Tier-later t now log history h tier =
      ((tier.0.0, tier.0.1, later tier.0.0 t now h tier.0.2), tier.1)

  -- Pruning at a later time.
  pub Tier-prune :
      (t now : ℕ) (log history : Times)
      → t ≤ now
      → Tier window max t log history
      → Tier window max now log (prune_older_than history window now)
  Tier-prune t now log history h tier = (
    prune-Covers now history log tier.0.0 tier.0.1 (later tier.0.0 t now h tier.0.2),
    ground (arith, length-prune history now),
  )

  -- One more message, where there is room for it.
  pub Tier-send :
      (now : ℕ) (log history : Times)
      → over_limit max history ≡ false
      → Tier window max now log history
      → Tier window max now (log ++ now ∷ []) (history ++ now ∷ [])
  Tier-send now log history room tier = (
    (
      tier.0.0,
      ap (λ (t : Times). t ++ now ∷ []) tier.0.1 ∙ append_assoc tier.0.0 history (now ∷ []),
      tier.0.2,
    ),
    ground (arith, length-append history (now ∷ [])),
  )

  recent-append :
      (now : ℕ) (xs ys : Times)
      → recent window now (xs ++ ys) ≡ recent window now xs + recent window now ys
  recent-append now [] ys = omega arith
  recent-append now (x ∷ xs) ys = ground (arith, recent-append now xs ys)

  recent-le : (now : ℕ) (xs : Times) → recent window now xs ≤ length xs
  recent-le now [] = omega arith
  recent-le now (x ∷ xs) = ground (arith, recent-le now xs)

  recent_old : (now : ℕ) (xs : Times) → All (λ t. t + window < now) xs → recent window now xs ≡ 0
  recent_old now [] a = refl
  recent_old now (x ∷ xs) a = ground (arith, recent_old now xs a.1)

  -- So the log holds no more recent messages than the limit.
  pub Tier-Within :
      (now : ℕ) (log history : Times)
      → Tier window max now log history
      → Within max (recent window now log)
  Tier-Within now log history ((old, e, a), w) = ground (
    arith,
    ap (recent window now) e,
    recent-append now old history,
    recent-le now history,
    recent_old now old a,
  )

pub history_of-without :
    (k n : List ℕ) (m : List (List ℕ × Times))
    → history_of k (without n m) ≡ (if text_eq n k then [] else history_of k m)
unfolding history_of without
history_of-without k n [] = ground arith
history_of-without k n ((j, times) ∷ m) =
    ground (arith, history_of-without k n m, text_eq_iff j n, text_eq_iff n k, text_eq_iff j k)

pub history_of-with_history :
    (k n : List ℕ) (times : Times) (m : List (List ℕ × Times))
    → history_of k (with_history n times m) ≡ (if text_eq n k then times else history_of k m)
unfolding history_of
history_of-with_history k n times m = ground (arith, history_of-without k n m)
