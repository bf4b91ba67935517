-- ===== src/Services/Call/Moves.antt =====
-- internal/services/call.go, call_urc.go: each part of a method under the lock keeps the invariant.
use gsm2mqtt.Base.{
  ℕ, Bool, true, false, not, ◌&&◌, Option, none, some, List, [], Bool-cases, ◌≡◌, refl, inl, inr,
  arith,
}
use gsm2mqtt.Base.Text.{codes, has_prefix, trim_space}
use gsm2mqtt.Services.Call.{
  CallService, Direction, new_call_service, set_auto_drop_timeout, stop_drop_timer, is_answered,
  is_trying, is_dialing, on_auto_drop_timeout, begin_dial, fail_dial, start_dial_monitoring,
  end_dial, set_answered, set_terminated, hangup,
}
use gsm2mqtt.Services.Call.Urc.{
  begin_drop, finish_drop, alert, handle_clip_urc, handle_dtmf_urc, handle_no_carrier_urc,
  handle_busy_urc, handle_urc,
}
use gsm2mqtt.Services.Call.Machine.{Pending, dials, is_clip, handle_urc_cases}
use gsm2mqtt.Services.Call.WellFormed.{
  WellFormed, add_log-length, calm_before, same-WellFormed, stopped-WellFormed, moved-WellFormed,
}

pub new_call_service-WellFormed :
    (modem_id : List ℕ) → WellFormed true (new_call_service modem_id) []
unfolding new_call_service
new_call_service-WellFormed modem_id = record {
  logs_bounded = omega arith;
  answer_dated = λ on. absurd (cc on);
  end_dated = λ on. absurd (cc on);
  dialing_outgoing = λ on. absurd (cc on);
  monitor_timed = λ on. absurd (cc on);
  timer_outgoing = λ calm on. absurd (cc on);
  dial_outgoing = λ calm on. absurd (cc on);
}

pub begin_dial-WellFormed :
    (calm : Bool) (now : ℕ) (number : List ℕ) (s : CallService) (ps : List Pending)
    → WellFormed calm (begin_dial now number s) ps
unfolding begin_dial stop_drop_timer
begin_dial-WellFormed calm now number s ps = record {
  logs_bounded = omega arith;
  answer_dated = λ on. absurd (cc on);
  end_dated = λ on. absurd (cc on);
  dialing_outgoing = λ on. refl;
  monitor_timed = λ on. absurd (cc on);
  timer_outgoing = λ calm on. refl;
  dial_outgoing = λ calm on. refl;
}

-- What a report of an incoming call leaves is well-formed where no Dial waits, or else not calm.
pub handle_clip_urc-WellFormed :
    (k : Bool) (now : ℕ) (urc : List ℕ) (s : CallService) (ps : List Pending)
    → WellFormed (k && not (dials ps)) (handle_clip_urc now urc s).1 ps
unfolding handle_clip_urc stop_drop_timer
handle_clip_urc-WellFormed k now urc s ps = record {
  logs_bounded = omega arith;
  answer_dated = λ on. absurd (cc on);
  end_dated = λ on. absurd (cc on);
  dialing_outgoing = λ on. absurd (cc on);
  monitor_timed = λ on. absurd (cc on);
  timer_outgoing = λ calm on. absurd (cc on);
  dial_outgoing = λ calm on. ground (arith, calm, on);
}

module _ (k c : Bool) (s : CallService) (ps : List Pending) (h : WellFormed k s ps) where
  pub set_auto_drop_timeout-WellFormed :
      (d : ℕ) → WellFormed (k && c) (set_auto_drop_timeout d s) ps
  unfolding set_auto_drop_timeout
  set_auto_drop_timeout-WellFormed d =
      let same = same-WellFormed k c s ps h ps (λ on. on) in
      record {
        logs_bounded = same.logs_bounded;
        answer_dated = same.answer_dated;
        end_dated = same.end_dated;
        dialing_outgoing = same.dialing_outgoing;
        monitor_timed = same.monitor_timed;
        timer_outgoing = same.timer_outgoing;
        dial_outgoing = same.dial_outgoing;
      }

  pub stop_drop_timer-WellFormed :
      (qs : List Pending)
      → (dials qs ≡ true → dials ps ≡ true)
      → WellFormed (k && c) (stop_drop_timer s) qs
  unfolding stop_drop_timer
  stop_drop_timer-WellFormed qs fewer =
      stopped-WellFormed k c s ps h _ qs refl refl refl h.logs_bounded h.answer_dated h.end_dated
        (λ on. on) fewer

  pub end_dial-WellFormed :
      (now : ℕ) (number : List ℕ) (err : Option (List ℕ)) (qs : List Pending)
      → dials ps ≡ true
      → (dials qs ≡ true → dials ps ≡ true)
      → WellFormed (k && c) (end_dial now number err s) qs
  unfolding end_dial fail_dial start_dial_monitoring
  end_dial-WellFormed now number (some err) qs waits fewer =
      moved-WellFormed k c s ps h _ qs refl (λ on. on) refl (add_log-length _ _ _)
        (λ on. absurd (cc on)) (λ on. refl) refl fewer
  end_dial-WellFormed now number none qs waits fewer = record {
    logs_bounded = add_log-length _ _ _;
    answer_dated = λ on. absurd (cc on);
    end_dated = λ on. absurd (cc on);
    dialing_outgoing = λ on. absurd (cc on);
    monitor_timed = λ on. refl;
    timer_outgoing = λ calm on. h.dial_outgoing (calm_before k c calm) waits;
    dial_outgoing = λ calm on. h.dial_outgoing (calm_before k c calm) waits;
  }

  pub set_answered-WellFormed :
      (now : ℕ) (qs : List Pending)
      → (dials qs ≡ true → dials ps ≡ true)
      → WellFormed (k && c) (set_answered now s) qs
  unfolding set_answered
  set_answered-WellFormed now qs fewer =
      moved-WellFormed k c s ps h _ qs refl (λ on. on) refl (add_log-length _ _ _) (λ on. refl)
        (λ on. absurd (cc on)) refl fewer

  pub hangup-WellFormed :
      (now : ℕ) (accepted : Bool) → WellFormed (k && c) (hangup now accepted s).2 ps
  unfolding hangup set_terminated stop_drop_timer
  hangup-WellFormed now accepted =
      stopped-WellFormed k c s ps h _ ps refl refl refl (add_log-length _ _ _)
        (λ on. absurd (cc on)) (λ on. refl) (λ on. absurd (cc on)) (λ on. on)

  pub handle_busy_urc-WellFormed : (now : ℕ) → WellFormed (k && c) (handle_busy_urc now s).1 ps
  unfolding handle_busy_urc stop_drop_timer
  handle_busy_urc-WellFormed now =
      stopped-WellFormed k c s ps h _ ps refl refl refl (add_log-length _ _ _)
        (λ on. absurd (cc on)) (λ on. refl) (λ on. absurd (cc on)) (λ on. on)

  pub handle_no_carrier_urc-WellFormed :
      (now : ℕ) → WellFormed (k && c) (handle_no_carrier_urc now s).1 ps
  unfolding handle_no_carrier_urc stop_drop_timer
  handle_no_carrier_urc-WellFormed now = elim (Bool-cases (is_answered s.status.state)) [
    | inl e ↦ rw e (
        stopped-WellFormed k c s ps h _ ps refl refl refl (add_log-length _ _ _)
          (λ on. absurd (cc on)) (λ on. refl) (λ on. absurd (cc on)) (λ on. on))
    | inr e ↦ rw e (
        stopped-WellFormed k c s ps h _ ps refl refl refl (add_log-length _ _ _)
          (λ on. absurd (cc on)) (λ on. refl) (λ on. absurd (cc on)) (λ on. on))
  ]

  pub handle_urc-WellFormed :
      (now : ℕ) (urc : List ℕ)
      → c ≡ not (is_clip urc && dials ps)
      → has_prefix (trim_space urc) (codes "+COLP:") ≡ false
      → WellFormed (k && c) (handle_urc now now urc s).1 ps
  unfolding handle_dtmf_urc
  handle_urc-WellFormed now urc crossed other =
      handle_urc_cases now now urc s (λ r. WellFormed (k && c) r.1 ps)
        (λ clip. rw (crossed, clip) (handle_clip_urc-WellFormed k now (trim_space urc) s ps))
        (λ colp. absurd (cc (colp, other))) (same-WellFormed k c s ps h ps (λ on. on))
        (handle_no_carrier_urc-WellFormed now) (handle_busy_urc-WellFormed now)
        (same-WellFormed k c s ps h ps (λ on. on))

  pub begin_drop-WellFormed :
      (now : ℕ) (qs : List Pending)
      → (dials qs ≡ true → dials ps ≡ true)
      → WellFormed (k && c) (begin_drop now s).1 qs
  unfolding begin_drop stop_drop_timer
  begin_drop-WellFormed now qs fewer =
      stopped-WellFormed k c s ps h _ qs refl refl refl h.logs_bounded (λ on. refl)
        (λ on. absurd (cc on)) (λ on. absurd (cc on)) fewer

  pub finish_drop-WellFormed :
      (now : ℕ) (number : List ℕ) (dir : Direction) (qs : List Pending)
      → (dials qs ≡ true → dials ps ≡ true)
      → WellFormed (k && c) (finish_drop now number dir s).1 qs
  unfolding finish_drop
  finish_drop-WellFormed now number dir qs fewer =
      moved-WellFormed k c s ps h _ qs refl (λ on. on) refl (add_log-length _ _ _)
        (λ on. absurd (cc on)) (λ on. refl) refl fewer

  pub alert-WellFormed :
      (now : ℕ) (qs : List Pending)
      → (dials qs ≡ true → dials ps ≡ true)
      → WellFormed (k && c) (alert now s) qs
  unfolding alert
  alert-WellFormed now qs fewer = elim (Bool-cases (is_dialing s.status.state)) [
    | inr e ↦ rw e (same-WellFormed k c s ps h qs fewer)
    | inl e ↦ rw e (
        moved-WellFormed k c s ps h _ qs refl (λ on. on) refl (add_log-length _ _ _)
          (λ on. absurd (cc on)) (λ on. absurd (cc on)) refl fewer)
  ]

  pub on_auto_drop_timeout-WellFormed :
      (now : ℕ) → WellFormed (k && c) (on_auto_drop_timeout now s).1 ps
  unfolding on_auto_drop_timeout
  on_auto_drop_timeout-WellFormed now = elim (Bool-cases (is_trying s.status.state)) [
    | inr e ↦ rw e (same-WellFormed k c s ps h ps (λ on. on))
    | inl e ↦ rw e (
        moved-WellFormed k c s ps h _ ps refl (λ on. absurd (cc on)) refl (add_log-length _ _ _)
          (λ on. absurd (cc on)) (λ on. refl) refl (λ on. on))
  ]
