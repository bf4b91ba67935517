-- ===== src/Security/RateLimit.antt =====
-- internal/security/ratelimit.go. A time is a number of nanoseconds since the zero time, and the
-- clock's reading is an argument; `t.Before(now.Add(-d))` is `t + d < now`, which needs no negative
-- number. A map is an association list.
pub mod Histories
pub mod Window
pub mod Promise
pub mod Cooldown
mod Runs
use gsm2mqtt.Base.{
  ℕ, ◌+◌, ◌*◌, Bool, true, false, not, ◌&&◌, Option, none, some, List, [], ◌∷◌, ◌++◌, ltb, leb,
  ◌==◌, if◌then◌else◌, length, text_eq,
}
use gsm2mqtt.Base.Text.{trim_space, is_empty}
use gsm2mqtt.Security.Unicode.{Unicode}
use gsm2mqtt.Security.Errors.{
  Error, empty_phone_number, minute_exceeded, hour_exceeded, day_exceeded, per_number_exceeded,
  cooldown_active,
}
use gsm2mqtt.Security.Filter.{normalize_number}

pub record RateLimiterConfig : Type 0 where
  pub enabled : Bool
  pub max_per_minute : ℕ
  pub max_per_hour : ℕ
  pub max_per_day : ℕ
  pub max_per_number_per_hour : ℕ
  pub cooldown : ℕ

abbrev pub Times : Type 0
Times = List ℕ

pub record RateLimiter : Type 0 where
  pub cfg : RateLimiterConfig
  pub minute_history : Times
  pub hour_history : Times
  pub day_history : Times
  pub per_number_history : List (List ℕ × Times)
  pub cooldown_until : ℕ

abbrev pub minute : ℕ
minute = 60 * 1000000000

abbrev pub hour : ℕ
hour = 60 * minute

abbrev pub day : ℕ
day = 24 * hour

pub new_rate_limiter_with_config : RateLimiterConfig → RateLimiter
new_rate_limiter_with_config cfg = record {
  cfg = cfg;
  minute_history = [];
  hour_history = [];
  day_history = [];
  per_number_history = [];
  cooldown_until = 0;
}

pub new_rate_limiter : ℕ → RateLimiter
unfolding new_rate_limiter_with_config
new_rate_limiter max_per_minute = new_rate_limiter_with_config (record {
  enabled = true;
  max_per_minute = max_per_minute;
  max_per_hour = 0;
  max_per_day = 0;
  max_per_number_per_hour = 0;
  cooldown = 0;
})

-- pruneOlderThan: the first times go while they lie more than `window` before now.
pub prune_older_than : Times → ℕ → ℕ → Times
prune_older_than [] window now = []
prune_older_than (t ∷ times) window now =
    let rest = prune_older_than times window now in if ltb (t + window) now then rest else t ∷ times

-- Reads, writes and deletions of perNumberHistory.
pub history_of : List ℕ → List (List ℕ × Times) → Times
history_of number [] = []
history_of number ((n, times) ∷ m) = if text_eq n number then times else history_of number m

pub without : List ℕ → List (List ℕ × Times) → List (List ℕ × Times)
without number [] = []
without number ((n, times) ∷ m) =
    let rest = without number m in if text_eq n number then rest else (n, times) ∷ rest

abbrev pub with_history : List ℕ → Times → List (List ℕ × Times) → List (List ℕ × Times)
with_history number times m = (number, times) ∷ without number m

abbrev pub is_nil : Times → Bool
is_nil [] = true
is_nil (t ∷ times) = false

abbrev pub over_limit : ℕ → Times → Bool
over_limit max times = ltb 0 max && leb max (length times)

-- checkLimits. A window that is not reached, since an earlier one refuses, is not pruned.
pub check_limits : ℕ → List ℕ → RateLimiter → Option Error × RateLimiter
check_limits now number r =
    let minutes = prune_older_than r.minute_history minute now in
    let r1 = record r { minute_history = minutes } in
    if over_limit r.cfg.max_per_minute minutes
    then (some minute_exceeded, r1)
    else (let hours = prune_older_than r.hour_history hour now in
        let r2 = record r1 { hour_history = hours } in
        if over_limit r.cfg.max_per_hour hours
        then (some hour_exceeded, r2)
        else (let days = prune_older_than r.day_history day now in
            let r3 = record r2 { day_history = days } in
            if over_limit r.cfg.max_per_day days
            then (some day_exceeded, r3)
            else (let mine = prune_older_than (history_of number r.per_number_history) hour now in
                let r4 = record r3 {
                  per_number_history =
                      if is_nil mine
                      then without number r.per_number_history
                      else with_history number mine r.per_number_history;
                } in
                if over_limit r.cfg.max_per_number_per_hour mine
                then (some per_number_exceeded, r4)
                else (none, r4))))

pub record_send : ℕ → List ℕ → RateLimiter → RateLimiter
record_send now number r = record r {
  minute_history = r.minute_history ++ now ∷ [];
  hour_history = r.hour_history ++ now ∷ [];
  day_history = r.day_history ++ now ∷ [];
  per_number_history =
      with_history number (history_of number r.per_number_history ++ now ∷ []) r.per_number_history;
}

-- What Check does with the outcome of checkLimits.
pub conclude : ℕ → List ℕ → Option Error × RateLimiter → Option Error × RateLimiter
conclude now cleaned (none, r) = (none, record_send now cleaned r)
conclude now cleaned (some e, r) =
    (some e, if ltb 0 r.cfg.cooldown then record r { cooldown_until = now + r.cfg.cooldown } else r)

pub check : Unicode → ℕ → List ℕ → RateLimiter → Option Error × RateLimiter
check unicode now number r =
    if is_empty (trim_space number)
    then (some empty_phone_number, r)
    else (if not r.cfg.enabled
        then (none, r)
        else (if ltb now r.cooldown_until
            then (some cooldown_active, r)
            else (let cleaned = normalize_number unicode (trim_space number) in
                conclude now cleaned (check_limits now cleaned r))))

pub reset : RateLimiter → RateLimiter
reset r = record r {
  minute_history = [];
  hour_history = [];
  day_history = [];
  per_number_history = [];
  cooldown_until = 0;
}
