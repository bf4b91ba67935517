-- ===== src/Security/RateLimit/Promise.antt =====
-- internal/security/ratelimit.go: calls of Check in the order of time, and the windows they keep.
use gsm2mqtt.Base.{
  ℕ, ◌≤◌, Bool, true, false, not, Option, none, some, List, [], ◌∷◌, ◌++◌, ltb, if◌then◌else◌, ◌≡◌,
  refl, ap, ◌∙◌, arith, text_eq, text_eq_iff, Bool-cases, inl, inr, subst,
}
use gsm2mqtt.Base.Text.{trim_space, is_empty}
use gsm2mqtt.Security.Unicode.{Unicode}
use gsm2mqtt.Security.Errors.{
  Error, cooldown_active, minute_exceeded, hour_exceeded, day_exceeded, per_number_exceeded,
}
use gsm2mqtt.Security.Filter.{normalize_number}
use gsm2mqtt.Security.RateLimit.{
  RateLimiterConfig, RateLimiter, minute, hour, day, new_rate_limiter_with_config, prune_older_than,
  history_of, over_limit, check_limits, conclude, check, record_send,
}
use gsm2mqtt.Security.RateLimit.Histories.{recent, Within, Tier-Within}
use gsm2mqtt.Security.RateLimit.Window.{
  Log, times_of, times_to, Inv, Inv-later, pruned1, pruned2, pruned3, pruned4, mine_of,
  history_of-stored, pruned1-Inv, pruned2-Inv, pruned3-Inv, pruned4-Inv, sent-Inv, cooled-Inv,
}

-- The log after an answer: the message goes out when there is no error.
abbrev pub logged : List ℕ → ℕ → Option Error → Log → Log
logged number now none log = log ++ (number, now) ∷ []
logged number now (some e) log = log

-- The calls, each with its time and its number.
abbrev pub Calls : Type 0
Calls = List (ℕ × List ℕ)

abbrev pub Ordered : ℕ → Calls → ℕ → Type 0
Ordered from [] now = from ≤ now
Ordered from ((t, number) ∷ calls) now = (from ≤ t) × Ordered t calls now

module _ (now : ℕ) (number : List ℕ) (log : Log) (r : RateLimiter) where
  abbrev Kept : Option Error × RateLimiter → Type 0
  Kept c = Inv now (logged number now c.0 log) c.1 × (c.1.cfg ≡ r.cfg)

  enabled-Kept :
      (enabled : Bool) (c d : Option Error × RateLimiter)
      → enabled ≡ true
      → Kept d
      → Kept (if not enabled then c else d)
  enabled-Kept true c d on k = k
  enabled-Kept false c d on k = cc

module _ (now : ℕ) (number : List ℕ) (log : Log) (r : RateLimiter) (v : Inv now log r) where
  history_of-mine :
      history_of number (pruned4 now number r).per_number_history ≡ mine_of now number r
  history_of-mine =
      let same : text_eq number number ≡ true = (text_eq_iff number number).1 refl in
      history_of-stored now number (mine_of now number r) r number ∙ rw same refl

  refused-Kept :
      (e : Error) (r1 : RateLimiter)
      → Inv now log r1
      → r1.cfg ≡ r.cfg
      → Kept now number log r (conclude now number (some e, r1))
  unfolding conclude
  refused-Kept e r1 w same = (
    cooled-Inv now number log r1 w e,
    elim (Bool-cases (ltb 0 r1.cfg.cooldown)) [ inl h ↦ rw h same | inr h ↦ rw h same ],
  )

  check_limits-Kept : Kept now number log r (conclude now number (check_limits now number r))
  unfolding check_limits conclude record_send
  check_limits-Kept =
      elim (Bool-cases
        (over_limit r.cfg.max_per_minute (prune_older_than r.minute_history minute now))) [
          | inl a ↦ rw a (
              refused-Kept minute_exceeded (pruned1 now number r) (pruned1-Inv now number log r v)
                refl)
          | inr a ↦
              elim (Bool-cases
                (over_limit r.cfg.max_per_hour (prune_older_than r.hour_history hour now))) [
                  | inl b ↦
                      rw (a, b)
                        (refused-Kept hour_exceeded (pruned2 now number r)
                          (pruned2-Inv now number log r v) refl)
                  | inr b ↦
                      elim (Bool-cases
                        (over_limit r.cfg.max_per_day (prune_older_than r.day_history day now))) [
                          | inl c ↦
                              rw (a, b, c)
                                (refused-Kept day_exceeded (pruned3 now number r)
                                  (pruned3-Inv now number log r v) refl)
                          | inr c ↦
                              elim (Bool-cases
                                (over_limit r.cfg.max_per_number_per_hour (mine_of now number r))) [
                                  | inl d ↦
                                      rw (a, b, c, d)
                                        (refused-Kept per_number_exceeded (pruned4 now number r)
                                          (pruned4-Inv now number log r v) refl)
                                  | inr d ↦
                                      rw (a, b, c, d)
                                        (
                                          sent-Inv now number log (pruned4 now number r)
                                              (pruned4-Inv now number log r v) a b c
                                              (rw history_of-mine d),
                                          refl,
                                        )
                                ]
                        ]
                ]
        ]

module _ (unicode : Unicode) where
  abbrev pub cleaned : List ℕ → List ℕ
  cleaned number = normalize_number unicode (trim_space number)

  -- Any calls, with the log of the numbers that Check lets through.
  abbrev pub run : Calls → RateLimiter × Log → RateLimiter × Log
  run [] s = s
  run ((now, number) ∷ calls) (r, log) =
      let c = check unicode now number r in run calls (c.1, logged (cleaned number) now c.0 log)

  check-Kept :
      (now : ℕ) (number : List ℕ) (log : Log) (r : RateLimiter)
      → r.cfg.enabled ≡ true
      → Inv now log r
      → Kept now (cleaned number) log r (check unicode now number r)
  unfolding check
  check-Kept now number log r on v = elim (Bool-cases (is_empty (trim_space number))) [
    | inl a ↦ rw a (v, refl)
    | inr a ↦ rw a (
        enabled-Kept now (cleaned number) log r r.cfg.enabled (none, r)
          (if ltb now r.cooldown_until
            then (some cooldown_active, r)
            else conclude now (cleaned number) (check_limits now (cleaned number) r))
          on
          (elim (Bool-cases (ltb now r.cooldown_until)) [
            | inl b ↦ rw b (v, refl)
            | inr b ↦ rw b (check_limits-Kept now (cleaned number) log r v)
          ]))
  ]

  run-Kept :
      (calls : Calls) (from now : ℕ) (log : Log) (r : RateLimiter)
      → r.cfg.enabled ≡ true
      → Ordered from calls now
      → Inv from log r
      → Inv now (run calls (r, log)).1 (run calls (r, log)).0 × ((run calls (r, log)).0.cfg ≡ r.cfg)
  run-Kept [] from now log r on o v = (Inv-later from now log r o v, refl)
  run-Kept ((t, number) ∷ calls) from now log r on o v =
      let c = check unicode t number r in
      let k = check-Kept t number log r on (Inv-later from t log r o.0 v) in
      let rest =
        run-Kept calls t now (logged (cleaned number) t c.0 log) c.1
          (ap (λ (g : RateLimiterConfig). g.enabled) k.1 ∙ on) o.1 k.0 in
      (rest.0, rest.1 ∙ k.1)

-- No window of the last minute, hour or day holds more of the logged messages than its limit, nor
-- does the last hour to any one number.
abbrev pub WithinLimits : RateLimiterConfig → ℕ → Log → Type 0
WithinLimits cfg now log =
    Within cfg.max_per_minute (recent minute now (times_of log))
    × Within cfg.max_per_hour (recent hour now (times_of log))
    × Within cfg.max_per_day (recent day now (times_of log))
    × ((n : List ℕ) → Within cfg.max_per_number_per_hour (recent hour now (times_to n log)))

Inv-WithinLimits :
    (now : ℕ) (log : Log) (r : RateLimiter) → Inv now log r → WithinLimits r.cfg now log
Inv-WithinLimits now log r v = (
  Tier-Within _ _ now _ _ v.minutes,
  Tier-Within _ _ now _ _ v.hours,
  Tier-Within _ _ now _ _ v.days,
  λ n. Tier-Within _ _ now _ _ (v.numbers n),
)

-- A new limiter covers the empty log.
Inv-new : (cfg : RateLimiterConfig) → Inv 0 [] (new_rate_limiter_with_config cfg)
unfolding new_rate_limiter_with_config history_of
Inv-new cfg = record {
  minutes = (([], refl, tt), ground arith);
  hours = (([], refl, tt), ground arith);
  days = (([], refl, tt), ground arith);
  numbers = λ n. (([], refl, tt), ground arith);
}

-- From a new, enabled limiter, after any calls of Check in the order of time and at any time from
-- the last of them on, the messages that Check let through exceed no limit: in the last minute, in
-- the last hour, in the last day, and in the last hour to each number, where a limit of 0 does not
-- bound.
pub run-WithinLimits :
    (unicode : Unicode) (cfg : RateLimiterConfig) (calls : Calls) (now : ℕ)
    → cfg.enabled ≡ true
    → Ordered 0 calls now
    → WithinLimits cfg now (run unicode calls (new_rate_limiter_with_config cfg, [])).1
unfolding new_rate_limiter_with_config
run-WithinLimits unicode cfg calls now on o =
    let k = run-Kept unicode calls 0 now [] (new_rate_limiter_with_config cfg) on o (Inv-new cfg) in
    let ended = (run unicode calls (new_rate_limiter_with_config cfg, [])) in
    subst (λ (g : RateLimiterConfig). WithinLimits g now ended.1) k.1
      (Inv-WithinLimits now ended.1 ended.0 k.0)
