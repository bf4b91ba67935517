-- ===== src/Security/RateLimit/Window.antt =====
-- internal/security/ratelimit.go: the four windows of the limiter against the log of the messages
-- sent, as each is pruned and as a message is recorded.
use gsm2mqtt.Base.{
  ℕ, ◌≤◌, false, some, List, [], ◌∷◌, ◌++◌, ltb, if◌then◌else◌, ◌≡◌, refl, sym, ap, arith, text_eq,
  text_eq_iff, Bool-cases, inl, inr,
}
use gsm2mqtt.Security.Errors.{Error}
use gsm2mqtt.Security.RateLimit.{
  Times, RateLimiter, minute, hour, day, prune_older_than, history_of, without, with_history,
  is_nil, over_limit, record_send, conclude,
}
use gsm2mqtt.Security.RateLimit.Histories.{
  Tier, Tier-later, Tier-prune, Tier-send, history_of-without, history_of-with_history,
}

-- The messages sent, with the number that each went to.
abbrev pub Log : Type 0
Log = List (List ℕ × ℕ)

abbrev pub times_of : Log → Times
times_of [] = []
times_of ((n, t) ∷ log) = t ∷ times_of log

abbrev pub times_to : List ℕ → Log → Times
times_to number [] = []
times_to number ((n, t) ∷ log) =
    let rest = times_to number log in if text_eq n number then t ∷ rest else rest

times_of-snoc :
    (log : Log) (n : List ℕ) (t : ℕ) → times_of (log ++ (n, t) ∷ []) ≡ times_of log ++ t ∷ []
times_of-snoc [] n t = refl
times_of-snoc ((m, s) ∷ log) n t = ap (λ (ts : Times). s ∷ ts) (times_of-snoc log n t)

times_to-snoc :
    (k : List ℕ) (log : Log) (n : List ℕ) (t : ℕ)
    → times_to k (log ++ (n, t) ∷ [])
      ≡ (if text_eq n k then times_to k log ++ t ∷ [] else times_to k log)
times_to-snoc k [] n t = ground arith
times_to-snoc k ((m, s) ∷ log) n t = ground (arith, times_to-snoc k log n t)

pub record Inv (now : ℕ) (log : Log) (r : RateLimiter) : Type 0 where
  pub minutes : Tier minute r.cfg.max_per_minute now (times_of log) r.minute_history
  pub hours : Tier hour r.cfg.max_per_hour now (times_of log) r.hour_history
  pub days : Tier day r.cfg.max_per_day now (times_of log) r.day_history
  pub numbers :
      (n : List ℕ)
      → Tier hour r.cfg.max_per_number_per_hour now
          (times_to n log)
          (history_of n r.per_number_history)

pub Inv-later : (t now : ℕ) (log : Log) (r : RateLimiter) → t ≤ now → Inv t log r → Inv now log r
Inv-later t now log r h v = record {
  minutes = Tier-later _ _ t now _ _ h v.minutes;
  hours = Tier-later _ _ t now _ _ h v.hours;
  days = Tier-later _ _ t now _ _ h v.days;
  numbers = λ n. Tier-later _ _ t now _ _ h (v.numbers n);
}

module _ (now : ℕ) (number : List ℕ) where
  abbrev pub mine_of : RateLimiter → Times
  mine_of r = prune_older_than (history_of number r.per_number_history) hour now

  abbrev pub stored : Times → RateLimiter → List (List ℕ × Times)
  stored mine r =
      if is_nil mine
      then without number r.per_number_history
      else with_history number mine r.per_number_history

  pub history_of-stored :
      (mine : Times) (r : RateLimiter) (k : List ℕ)
      → history_of k (stored mine r)
        ≡ (if text_eq number k then mine else history_of k r.per_number_history)
  history_of-stored [] r k = history_of-without k number r.per_number_history
  history_of-stored (t ∷ mine) r k =
      history_of-with_history k number (t ∷ mine) r.per_number_history

  -- The limiter with its first windows pruned.
  abbrev pub pruned1 : RateLimiter → RateLimiter
  pruned1 r = record r { minute_history = prune_older_than r.minute_history minute now }

  abbrev pub pruned2 : RateLimiter → RateLimiter
  pruned2 r = record (pruned1 r) { hour_history = prune_older_than r.hour_history hour now }

  abbrev pub pruned3 : RateLimiter → RateLimiter
  pruned3 r = record (pruned2 r) { day_history = prune_older_than r.day_history day now }

  abbrev pub pruned4 : RateLimiter → RateLimiter
  pruned4 r = record (pruned3 r) { per_number_history = stored (mine_of r) r }

  module _ (log : Log) (r : RateLimiter) (v : Inv now log r) where
    pub pruned1-Inv : Inv now log (pruned1 r)
    pruned1-Inv = record {
      minutes = Tier-prune _ _ now now _ r.minute_history (omega arith) v.minutes;
      hours = v.hours;
      days = v.days;
      numbers = v.numbers;
    }

    pub pruned2-Inv : Inv now log (pruned2 r)
    pruned2-Inv = record {
      minutes = pruned1-Inv.minutes;
      hours = Tier-prune _ _ now now _ r.hour_history (omega arith) v.hours;
      days = v.days;
      numbers = v.numbers;
    }

    pub pruned3-Inv : Inv now log (pruned3 r)
    pruned3-Inv = record {
      minutes = pruned2-Inv.minutes;
      hours = pruned2-Inv.hours;
      days = Tier-prune _ _ now now _ r.day_history (omega arith) v.days;
      numbers = v.numbers;
    }

    pruned4-numbers :
        (k : List ℕ)
        → Tier hour r.cfg.max_per_number_per_hour now
            (times_to k log)
            (history_of k (stored (mine_of r) r))
    pruned4-numbers k =
        rw (history_of-stored (mine_of r) r k) (elim (Bool-cases (text_eq number k)) [
          | inl e ↦
              let same : number ≡ k = (text_eq_iff number k).0 e in
              rw (e, same) (Tier-prune _ _ now now _ _ (omega arith) (v.numbers k))
          | inr e ↦ rw e (v.numbers k)
        ])

    pub pruned4-Inv : Inv now log (pruned4 r)
    pruned4-Inv = record {
      minutes = pruned3-Inv.minutes;
      hours = pruned3-Inv.hours;
      days = pruned3-Inv.days;
      numbers = pruned4-numbers;
    }

    pub sent-Inv :
        over_limit r.cfg.max_per_minute r.minute_history ≡ false
        → over_limit r.cfg.max_per_hour r.hour_history ≡ false
        → over_limit r.cfg.max_per_day r.day_history ≡ false
        → over_limit r.cfg.max_per_number_per_hour (history_of number r.per_number_history) ≡ false
        → Inv now (log ++ (number, now) ∷ []) (record_send now number r)
    unfolding record_send
    sent-Inv a b c d = record {
      minutes = rw (times_of-snoc log number now) (Tier-send _ _ now _ _ a v.minutes);
      hours = rw (times_of-snoc log number now) (Tier-send _ _ now _ _ b v.hours);
      days = rw (times_of-snoc log number now) (Tier-send _ _ now _ _ c v.days);
      numbers = λ k.
          rw
            (
              times_to-snoc k log number now,
              history_of-with_history k number (history_of number r.per_number_history ++ now ∷ [])
                  r.per_number_history,
            )
            (elim (Bool-cases (text_eq number k)) [
              | inl e ↦
                  let same : number ≡ k = (text_eq_iff number k).0 e in
                  rw (e, sym same) (Tier-send _ _ now _ _ d (v.numbers number))
              | inr e ↦ rw e (v.numbers k)
            ]);
    }

    pub cooled-Inv : (e : Error) → Inv now log (conclude now number (some e, r)).1
    unfolding conclude
    cooled-Inv e = elim (Bool-cases (ltb 0 r.cfg.cooldown)) [
      | inl h ↦
          rw h (record { minutes = v.minutes; hours = v.hours; days = v.days; numbers = v.numbers })
      | inr h ↦ rw h v
    ]
