-- ===== src/Services/Call/Drop.antt =====
-- internal/services/call.go, call_urc.go: an outgoing call is hung up once it is answered, or once it
-- has rung for too long.
use gsm2mqtt.Base.{
  ℕ, ◌-◌, true, false, none, List, [], ◌∷◌, ◌++◌, All, append-nil, ◌≡◌, refl, sym, ap, ◌∙◌, arith,
}
use gsm2mqtt.Base.Text.{is_empty}
use gsm2mqtt.Services.Call.{
  completed, ringing, failed, outgoing, CallService, Effect, was_completed, was_unanswered,
  dial_command, hangup_command, clean_voice_number, begin_dial, start_dial_monitoring, end_dial,
  dial, ended, answered_event, stop_drop_timer, on_auto_drop_timeout,
}
use gsm2mqtt.Services.Call.Urc.{
  CallCheck, check_ringing, check_answered, check_idle, check_other, check_error,
  handle_call_answered_drop, alert, monitor_tick, monitor_call,
}

-- A check that ends neither the call nor the monitor.
abbrev pub IsWaiting : CallCheck → Type 0
IsWaiting check_ringing = Unit
IsWaiting check_other = Unit
IsWaiting check_error = Unit
IsWaiting check_answered = ⊥
IsWaiting check_idle = ⊥

monitor_tick-ringing :
    (now later : ℕ) (check : CallCheck) (s : CallService)
    → s.status.state ≡ ringing
    → IsWaiting check
    → monitor_tick now later check s ≡ (true, [], s)
unfolding monitor_tick alert
monitor_tick-ringing now later check_ringing s e h = ground (arith, e)
monitor_tick-ringing now later check_answered s e h = elim h [ ]
monitor_tick-ringing now later check_idle s e h = elim h [ ]
monitor_tick-ringing now later check_other s e h = ground (arith, e)
monitor_tick-ringing now later check_error s e h = ground (arith, e)

monitor_call-waiting :
    (ticks more : List (ℕ × ℕ × CallCheck)) (s : CallService)
    → s.status.state ≡ ringing
    → All (λ (tick : ℕ × ℕ × CallCheck). IsWaiting tick.2) ticks
    → monitor_call (ticks ++ more) s ≡ monitor_call more s
unfolding monitor_call
monitor_call-waiting [] more s e h = refl
monitor_call-waiting ((now, later, check) ∷ ticks) more s e h =
    rw (monitor_tick-ringing now later check s e h.0) (monitor_call-waiting ticks more s e h.1)

monitor_call-answered :
    (now later : ℕ) (more : List (ℕ × ℕ × CallCheck)) (s : CallService)
    → s.status.state ≡ ringing
    → monitor_call ((now, later, check_answered) ∷ more) s ≡ handle_call_answered_drop now later s
unfolding monitor_call monitor_tick
monitor_call-answered now later more s e = rw e refl

-- A call to a number with a digit, which the modem accepts, is outgoing to that number. While the
-- modem's checks of it are waiting, nothing happens. If the timer then runs out, the modem is told to hang up
-- and the end of the call is reported as unanswered, once. If a check finds it answered first, its
-- answer is reported, the modem is told to hang up and the completed call is reported; the timer is
-- stopped, and does nothing even where it runs out.
pub dial-dropped :
    (now t1 t2 t3 : ℕ) (number : List ℕ) (s : CallService) (ticks more : List (ℕ × ℕ × CallCheck))
    → is_empty (clean_voice_number number) ≡ false
    → All (λ (tick : ℕ × ℕ × CallCheck). IsWaiting tick.2) ticks
    → let placed = dial now number none s in
      let call = placed.2 in
      let dropped = on_auto_drop_timeout t1 call in
      let finished = monitor_call (ticks ++ (t1, t2, check_answered) ∷ more) call in
      (placed.0 ≡ none)
      × (placed.1 ≡ dial_command (clean_voice_number number) ∷ [])
      × (call.status.number ≡ clean_voice_number number)
      × (call.status.direction ≡ outgoing)
      × (monitor_call ticks call ≡ ([], call))
      × (dropped.0 ≡ hangup_command ∷ ended was_unanswered 0 call ∷ [])
      × (dropped.1.status.state ≡ failed)
      × (on_auto_drop_timeout t3 dropped.1 ≡ ([], dropped.1))
      × (finished.0
          ≡ answered_event call ∷ hangup_command ∷ ended was_completed (t2 - t1) call ∷ [])
      × (finished.1.status.state ≡ completed)
      × (finished.1.drop_timer ≡ none)
      × (on_auto_drop_timeout t3 finished.1 ≡ ([], finished.1))
unfolding dial end_dial start_dial_monitoring begin_dial on_auto_drop_timeout monitor_call
    handle_call_answered_drop stop_drop_timer
dial-dropped now t1 t2 t3 number s ticks more e h =
    let call =
      end_dial now (clean_voice_number number) none
        (begin_dial now (clean_voice_number number) s) in
    let waited : monitor_call ticks call ≡ ([], call) =
      ap (λ (l : List (ℕ × ℕ × CallCheck)). monitor_call l call) (sym (append-nil ticks))
      ∙ monitor_call-waiting ticks [] call refl h in
    let finished : monitor_call (ticks ++ (t1, t2, check_answered) ∷ more) call
        ≡ handle_call_answered_drop t1 t2 call =
      monitor_call-waiting ticks ((t1, t2, check_answered) ∷ more) call refl h
      ∙ monitor_call-answered t1 t2 more call refl in
    rw e (
      refl,
      refl,
      refl,
      refl,
      waited,
      refl,
      refl,
      refl,
      ap (λ (r : List Effect × CallService). r.0) finished,
      ap (λ (r : List Effect × CallService). r.1.status.state) finished,
      ap (λ (r : List Effect × CallService). r.1.drop_timer) finished,
      rw finished refl,
    )
