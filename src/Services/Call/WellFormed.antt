-- ===== src/Services/Call/WellFormed.antt =====
-- internal/services/call.go, call_urc.go: the invariant of the service, and how steps keep it.
use gsm2mqtt.Base.{
  ℕ, ◌-◌, ◌≤◌, Bool, true, false, ◌&&◌, none, List, [], ◌∷◌, ◌++◌, ltb, length, Bool-cases,
  length-drop, ◌≡◌, refl, inl, inr, arith,
}
use gsm2mqtt.Services.Call.{
  CallState, completed, busy, failed, outgoing, CallService, CallLogEntry, add_log, is_answered,
  is_dialing,
}
use gsm2mqtt.Services.Call.Machine.{Pending, dialling, is_dialling, dials, is_set}

pub add_log-length :
    (now : ℕ) (msg : List ℕ) (logs : List CallLogEntry) → length (add_log now msg logs) ≤ 20
unfolding add_log
add_log-length now msg logs =
    let longer = logs ++ record { time = now; message = msg } ∷ [] in
    elim (Bool-cases (ltb 20 (length longer))) [
      | inl e ↦ rw e (omega (arith, length-drop (length longer - 20) longer))
      | inr e ↦ rw e (ground (arith, e))
    ]

abbrev pub is_over : CallState → Bool
is_over completed = true
is_over busy = true
is_over failed = true
is_over _ = false

-- At most twenty lines are logged; an answered call has the time of its answer and one that is over
-- that of its end; a call that is being dialled is outgoing; a monitor runs only beside a timer. Where
-- nothing has crossed a call that was being dialled, the call is outgoing while the timer is set and
-- while a Dial waits for the modem.
pub record WellFormed (calm : Bool) (s : CallService) (ps : List Pending) : Type 0 where
  pub logs_bounded : length s.status.logs ≤ 20
  pub answer_dated : is_answered s.status.state ≡ true → is_set s.status.answered_at ≡ true
  pub end_dated : is_over s.status.state ≡ true → is_set s.status.ended_at ≡ true
  pub dialing_outgoing : is_dialing s.status.state ≡ true → s.status.direction ≡ outgoing
  pub monitor_timed : s.monitor ≡ true → is_set s.drop_timer ≡ true
  pub timer_outgoing : calm ≡ true → is_set s.drop_timer ≡ true → s.status.direction ≡ outgoing
  pub dial_outgoing : calm ≡ true → dials ps ≡ true → s.status.direction ≡ outgoing

pub dials-without :
    (p : Pending) (before after : List Pending)
    → dials (before ++ after) ≡ true
    → dials (before ++ p ∷ after) ≡ true
dials-without p [] after h = elim (Bool-cases (is_dialling p)) [
  | inl e ↦ rw e refl
  | inr e ↦ rw e h
]
dials-without p (q ∷ before) after h = elim (Bool-cases (is_dialling q)) [
  | inl e ↦ rw e refl
  | inr e ↦ rw e (dials-without p before after (rw e at h))
]

pub dials-dialling :
    (number : List ℕ) (before after : List Pending)
    → dials (before ++ dialling number ∷ after) ≡ true
dials-dialling number [] after = refl
dials-dialling number (q ∷ before) after = elim (Bool-cases (is_dialling q)) [
  | inl e ↦ rw e refl
  | inr e ↦ rw e (dials-dialling number before after)
]

pub calm_before : (k c : Bool) → (k && c) ≡ true → k ≡ true
calm_before true c h = refl
calm_before false c h = cc

module _ (k c : Bool) (s : CallService) (ps : List Pending) (h : WellFormed k s ps) where
  -- The service as it was, with no more Dials that wait.
  pub same-WellFormed :
      (qs : List Pending) → (dials qs ≡ true → dials ps ≡ true) → WellFormed (k && c) s qs
  same-WellFormed qs fewer = record {
    logs_bounded = h.logs_bounded;
    answer_dated = h.answer_dated;
    end_dated = h.end_dated;
    dialing_outgoing = h.dialing_outgoing;
    monitor_timed = h.monitor_timed;
    timer_outgoing = λ calm. h.timer_outgoing (calm_before k c calm);
    dial_outgoing = λ calm on. h.dial_outgoing (calm_before k c calm) (fewer on);
  }

  -- Another state of the same call, without a timer.
  pub stopped-WellFormed :
      (t : CallService) (qs : List Pending)
      → t.drop_timer ≡ none
      → t.monitor ≡ false
      → t.status.direction ≡ s.status.direction
      → length t.status.logs ≤ 20
      → (is_answered t.status.state ≡ true → is_set t.status.answered_at ≡ true)
      → (is_over t.status.state ≡ true → is_set t.status.ended_at ≡ true)
      → (is_dialing t.status.state ≡ true → is_dialing s.status.state ≡ true)
      → (dials qs ≡ true → dials ps ≡ true)
      → WellFormed (k && c) t qs
  stopped-WellFormed t qs no_timer no_monitor same few at over dialing fewer = record {
    logs_bounded = few;
    answer_dated = at;
    end_dated = over;
    dialing_outgoing = λ on. rw same (h.dialing_outgoing (dialing on));
    monitor_timed = λ on. absurd (cc (no_monitor, on));
    timer_outgoing = λ calm on. let off = (rw no_timer at on) in absurd (cc off);
    dial_outgoing = λ calm on. rw same (h.dial_outgoing (calm_before k c calm) (fewer on));
  }

  -- Another state of the same call, neither answered nor being dialled, with the timer as it was.
  pub moved-WellFormed :
      (t : CallService) (qs : List Pending)
      → t.drop_timer ≡ s.drop_timer
      → (t.monitor ≡ true → s.monitor ≡ true)
      → t.status.direction ≡ s.status.direction
      → length t.status.logs ≤ 20
      → (is_answered t.status.state ≡ true → is_set t.status.answered_at ≡ true)
      → (is_over t.status.state ≡ true → is_set t.status.ended_at ≡ true)
      → is_dialing t.status.state ≡ false
      → (dials qs ≡ true → dials ps ≡ true)
      → WellFormed (k && c) t qs
  moved-WellFormed t qs timer monitor same few at over dialing fewer = record {
    logs_bounded = few;
    answer_dated = at;
    end_dated = over;
    dialing_outgoing = λ on. absurd (cc (dialing, on));
    monitor_timed = λ on. rw timer (h.monitor_timed (monitor on));
    timer_outgoing = λ calm on. rw same (h.timer_outgoing (calm_before k c calm) (rw timer at on));
    dial_outgoing = λ calm on. rw same (h.dial_outgoing (calm_before k c calm) (fewer on));
  }
