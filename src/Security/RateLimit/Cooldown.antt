-- ===== src/Security/RateLimit/Cooldown.antt =====
-- internal/security/ratelimit.go: the cooldown that a refusal by one of the limits starts.
use gsm2mqtt.Base.{
  ℕ, ◌+◌, ◌<◌, ◌≤◌, Bool, true, false, not, Option, none, some, List, ltb, if◌then◌else◌, ◌≡◌, refl,
  ap, ◌∙◌, arith, lt→ltb, Bool-cases, inl, inr,
}
use gsm2mqtt.Base.Text.{trim_space, is_empty}
use gsm2mqtt.Security.Unicode.{Unicode}
use gsm2mqtt.Security.Errors.{Error, cooldown_active}
use gsm2mqtt.Security.Filter.{normalize_number}
use gsm2mqtt.Security.RateLimit.{
  RateLimiterConfig, RateLimiter, minute, hour, day, prune_older_than, history_of, over_limit,
  check_limits, conclude, check,
}

module _ (now : ℕ) (number : List ℕ) (r : RateLimiter) where
  check_limits-cfg : (check_limits now number r).1.cfg ≡ r.cfg
  unfolding check_limits
  check_limits-cfg =
      elim (Bool-cases
        (over_limit r.cfg.max_per_minute (prune_older_than r.minute_history minute now))) [
          | inl a ↦ rw a refl
          | inr a ↦
              elim (Bool-cases
                (over_limit r.cfg.max_per_hour (prune_older_than r.hour_history hour now))) [
                  | inl b ↦ rw (a, b) refl
                  | inr b ↦
                      elim (Bool-cases
                        (over_limit r.cfg.max_per_day (prune_older_than r.day_history day now))) [
                          | inl c ↦ rw (a, b, c) refl
                          | inr c ↦
                              elim (Bool-cases (
                                over_limit r.cfg.max_per_number_per_hour (
                                  prune_older_than (history_of number r.per_number_history) hour
                                    now))) [
                                      | inl d ↦ rw (a, b, c, d) refl
                                      | inr d ↦ rw (a, b, c, d) refl
                                    ]
                        ]
                ]
        ]

-- A state in its cooldown, with rate limits on.
abbrev Cooling : ℕ → RateLimiter → Type 0
Cooling t r = (r.cfg.enabled ≡ true) × (t < r.cooldown_until)

conclude-Cooling :
    (now t : ℕ) (number : List ℕ) (e : Error) (c : Option Error × RateLimiter)
    → c.0 ≡ some e
    → c.1.cfg.enabled ≡ true
    → 0 < c.1.cfg.cooldown
    → t < now + c.1.cfg.cooldown
    → Cooling t (conclude now number c).1
unfolding conclude
conclude-Cooling now t number e (none, r) f on pos h = cc
conclude-Cooling now t number e (some e1, r) f on pos h = rw (lt→ltb 0 r.cfg.cooldown pos) (on, h)

-- The three tests of Check before its limits.
module _ (blank enabled : Bool) (text : blank ≡ false) (on : enabled ≡ true) where
  guards :
      (cooling v : Bool) (a b c d : Option Error × RateLimiter)
      → cooling ≡ v
      → (if blank then a else (if not enabled then b else (if cooling then c else d)))
        ≡ (if v then c else d)
  guards cooling v a b c d e = rw (text, on, e) refl

module _ (unicode : Unicode) (t : ℕ) (number : List ℕ) (r : RateLimiter)
    (text : is_empty (trim_space number) ≡ false) (on : r.cfg.enabled ≡ true) where
  check-Cooling : t < r.cooldown_until → check unicode t number r ≡ (some cooldown_active, r)
  unfolding check
  check-Cooling h = guards _ _ text on _ true _ _ _ _ (lt→ltb t r.cooldown_until h)

  check-conclude :
      r.cooldown_until ≤ t
      → check unicode t number r
        ≡ conclude t
            (normalize_number unicode (trim_space number))
            (check_limits t (normalize_number unicode (trim_space number)) r)
  unfolding check
  check-conclude h =
      let e : ltb t r.cooldown_until ≡ false = ground arith in guards _ _ text on _ false _ _ _ _ e

-- Where the limits are on and a cooldown is set, a call of Check for a number that is not blank,
-- outside a cooldown, that one of the limits refuses starts one: until the cooldown is over, Check
-- answers every number that is not blank with cooldown_active and changes nothing.
pub check-check :
    (unicode : Unicode) (now t : ℕ) (number later : List ℕ) (r : RateLimiter) (e : Error)
    → r.cfg.enabled ≡ true
    → 0 < r.cfg.cooldown
    → is_empty (trim_space number) ≡ false
    → is_empty (trim_space later) ≡ false
    → r.cooldown_until ≤ now
    → (check_limits now (normalize_number unicode (trim_space number)) r).0 ≡ some e
    → t < now + r.cfg.cooldown
    → check unicode t later (check unicode now number r).1
      ≡ (some cooldown_active, (check unicode now number r).1)
check-check unicode now t number later r e on pos text text2 out refused h =
    let cleaned = normalize_number unicode (trim_space number) in
    let c = check_limits now cleaned r in
    let same = check_limits-cfg now cleaned r in
    let cool = ap (λ (g : RateLimiterConfig). g.cooldown) same in
    let k =
      conclude-Cooling now t cleaned e c refused
        (ap (λ (g : RateLimiterConfig). g.enabled) same ∙ on) (omega (arith, cool, pos))
        (omega (arith, cool, h)) in
    rw (check-conclude unicode now number r text on out)
      (check-Cooling unicode t later (conclude now cleaned c).1 text2 k.0 k.1)
