-- ===== src/Security/RateLimit/Runs.antt =====
-- internal/security/ratelimit.go: the limiter on concrete calls.
use gsm2mqtt.Base.{◌+◌, true, some, [], ◌∷◌, ◌≡◌, refl, arith}
use gsm2mqtt.Base.Text.{codes, trim_space, trim_left, trim_right}
use gsm2mqtt.Security.Unicode.{ascii}
use gsm2mqtt.Security.Errors.{cooldown_active, minute_exceeded}
use gsm2mqtt.Security.Filter.{normalize_number, strip}
use gsm2mqtt.Security.RateLimit.{
  RateLimiterConfig, RateLimiter, new_rate_limiter_with_config, minute, check, check_limits,
  prune_older_than, history_of, without, record_send, conclude,
}
use gsm2mqtt.Security.RateLimit.Promise.{Calls, WithinLimits, run, run-WithinLimits}
use gsm2mqtt.Security.RateLimit.Cooldown.{check-check}

abbrev one_per_minute : RateLimiterConfig
one_per_minute = record {
  enabled = true;
  max_per_minute = 1;
  max_per_hour = 5;
  max_per_day = 20;
  max_per_number_per_hour = 2;
  cooldown = 3000;
}

abbrev three_calls : Calls
three_calls =
    (1000, codes "+49 170") ∷ (2000, codes "+49170") ∷ (minute + 5000, codes "+49170") ∷ []

-- The second call is refused, the third is not.
answers :
    (run ascii three_calls (new_rate_limiter_with_config one_per_minute, [])).1
    ≡ (codes "+49170", 1000) ∷ (codes "+49170", minute + 5000) ∷ []
unfolding check check_limits prune_older_than history_of without record_send conclude
    normalize_number strip trim_space trim_left trim_right new_rate_limiter_with_config
answers = refl

run-WithinLimits_example :
    WithinLimits one_per_minute
      (minute + 6000)
      (run ascii three_calls (new_rate_limiter_with_config one_per_minute, [])).1
run-WithinLimits_example =
    run-WithinLimits ascii one_per_minute three_calls (minute + 6000) refl
      (omega arith, (omega arith, (omega arith, omega arith)))

abbrev full : RateLimiter
full = record {
  cfg = one_per_minute;
  minute_history = 1000 ∷ [];
  hour_history = 1000 ∷ [];
  day_history = 1000 ∷ [];
  per_number_history = [];
  cooldown_until = 0;
}

check-check_example :
    check ascii 4000 (codes "+49170") (check ascii 2000 (codes "112") full).1
    ≡ (some cooldown_active, (check ascii 2000 (codes "112") full).1)
unfolding check_limits prune_older_than trim_space trim_left trim_right
check-check_example =
    check-check ascii 2000 4000 (codes "112") (codes "+49170") full minute_exceeded refl
      (omega arith) refl refl (omega arith) refl (omega arith)
