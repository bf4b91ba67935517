-- ===== src/Services/Call/Runs.antt =====
-- internal/services/call.go, call_urc.go: runs at concrete inputs.
use gsm2mqtt.Base.{ℕ, ◌-◌, ◌^◌, true, false, none, some, List, [], ◌∷◌, ◌++◌, ◌≡◌, refl}
use gsm2mqtt.Base.Text.{codes, trim_space, trim_left, trim_right}
use gsm2mqtt.Services.Call.{
  failed, completed, ringing, CallService, Effect, event, dial_command, hangup_command,
  was_cancelled, was_failed, was_completed, was_unanswered, incoming, outgoing, new_call_service,
  clean_voice_number, voice_digits, begin_dial, start_dial_monitoring, end_dial, dial, hangup,
  on_auto_drop_timeout, ended, answered_event, stop_drop_timer, set_terminated,
  default_auto_drop_timeout, event_incoming, event_ended, no_status,
}
use gsm2mqtt.Services.Call.Urc.{
  check_ringing, check_answered, begin_drop, finish_drop, handle_urc, handle_no_carrier_urc,
  handle_clip_urc, parse_clip_number, monitor_call,
}
use gsm2mqtt.Services.Call.Machine.{
  Reached, start, next, dialling, dial_begun, dial_ended, reported, timed_out,
}
use gsm2mqtt.Services.Call.WellFormed.{WellFormed}
use gsm2mqtt.Services.Call.Drop.{dial-dropped}
use gsm2mqtt.Services.Call.Clip.{clip_urc, handle_urc-clip_urc}

abbrev number : List ℕ
number = codes "+7 900 123-45-67"

abbrev idle_service : CallService
idle_service = new_call_service (codes "m1")

-- A call that is dialled, rings for a minute and is dropped.
abbrev placed : CallService
placed = (dial 5 number none idle_service).2

abbrev dialling_service : CallService
dialling_service = begin_dial 5 (clean_voice_number number) idle_service

abbrev ringing_service : CallService
ringing_service = end_dial 6 (clean_voice_number number) none dialling_service

abbrev unanswered : List Effect × CallService
unanswered = on_auto_drop_timeout 60000000006 ringing_service

abbrev unanswered_run :
    Reached
      (codes "m1")
      true
      ((([] ++ dial_command (clean_voice_number number) ∷ []) ++ []) ++ unanswered.0)
      unanswered.1
      []
unfolding end_dial start_dial_monitoring begin_dial clean_voice_number voice_digits trim_space
    trim_left trim_right stop_drop_timer new_call_service
unanswered_run =
    next
      (next (next start (dial_begun 5 number idle_service [] refl))
        (dial_ended 6 (clean_voice_number number) none dialling_service [] []))
      (timed_out 60000000006 ringing_service [])

dial-dropped_example :
    let call = placed in
    let dropped = on_auto_drop_timeout 7 call in
    let finished = monitor_call ((6, 6, check_ringing) ∷ (7, 9, check_answered) ∷ []) call in
    ((dial 5 number none idle_service).0 ≡ none)
    × ((dial 5 number none idle_service).1 ≡ dial_command (clean_voice_number number) ∷ [])
    × (call.status.number ≡ clean_voice_number number)
    × (call.status.direction ≡ outgoing)
    × (monitor_call ((6, 6, check_ringing) ∷ []) call ≡ ([], call))
    × (dropped.0 ≡ hangup_command ∷ ended was_unanswered 0 call ∷ [])
    × (dropped.1.status.state ≡ failed)
    × (on_auto_drop_timeout 11 dropped.1 ≡ ([], dropped.1))
    × (finished.0 ≡ answered_event call ∷ hangup_command ∷ ended was_completed 2 call ∷ [])
    × (finished.1.status.state ≡ completed)
    × (finished.1.drop_timer ≡ none)
    × (on_auto_drop_timeout 11 finished.1 ≡ ([], finished.1))
unfolding clean_voice_number voice_digits trim_space trim_left trim_right
dial-dropped_example =
    dial-dropped 5 7 9 11 number idle_service ((6, 6, check_ringing) ∷ []) [] refl (tt, tt)

handle_urc-clip_urc_example :
    let r = handle_urc 5 6 (clip_urc (codes "+7900") (codes ",145,,,,0")) idle_service in
    (r.0
      ≡ event (record {
        type = event_incoming;
        from = codes "+7900";
        number = codes "+7900";
        direction = incoming;
        status = no_status;
        digit = [];
        modem_id = (idle_service).modem_id;
        duration = 0;
      })
        ∷ [])
    × (r.1.status.state ≡ ringing)
    × (r.1.status.number ≡ codes "+7900")
    × (r.1.drop_timer ≡ none)
handle_urc-clip_urc_example =
    handle_urc-clip_urc 5 6 (codes "+7900") (codes ",145,,,,0") idle_service
      (refl, (refl, (refl, (refl, (refl, tt)))))

-- A call that the user hangs up before it is answered, and NO CARRIER behind it: the end is reported
-- twice, as cancelled and as failed, and the state goes from completed to failed.
abbrev hung_up_call : CallService
hung_up_call = (hangup 9 true placed).2

ended_twice :
    ((hangup 9 true placed).1 ≡ hangup_command ∷ ended was_cancelled 0 placed ∷ [])
    × ((hung_up_call).status.state ≡ completed)
    × ((handle_urc 10 10 (codes "NO CARRIER") hung_up_call).0
        ≡ ended was_failed 0 hung_up_call ∷ [])
    × ((handle_urc 10 10 (codes "NO CARRIER") hung_up_call).1.status.state ≡ failed)
unfolding hangup set_terminated handle_urc handle_no_carrier_urc dial end_dial start_dial_monitoring
    begin_dial clean_voice_number voice_digits trim_space trim_left trim_right stop_drop_timer
    new_call_service
ended_twice = (refl, refl, refl, refl)

-- An incoming call between the two halves of Dial: the timer of the outgoing call is then set on it,
-- and when it runs out an incoming call is reported as one without an answer.
abbrev call_waits : CallService
call_waits = begin_dial 5 (clean_voice_number number) idle_service

abbrev call_comes : List Effect × CallService
call_comes = handle_urc 6 6 (clip_urc (codes "+78005553535") []) call_waits

abbrev crossed : CallService
crossed = end_dial 7 (clean_voice_number number) none call_comes.1

crossed_run :
    Reached
      (codes "m1")
      false
      ((([] ++ dial_command (clean_voice_number number) ∷ []) ++ call_comes.0) ++ [])
      crossed
      []
unfolding end_dial start_dial_monitoring begin_dial clean_voice_number voice_digits trim_space
    trim_left trim_right stop_drop_timer new_call_service
crossed_run =
    next
      (next (next start (dial_begun 5 number idle_service [] refl)) (
        reported 6 (clip_urc (codes "+78005553535") []) call_waits
          (dialling (clean_voice_number number) ∷ []) refl))
      (dial_ended 7 (clean_voice_number number) none call_comes.1 [] [])

crossed_call :
    ((crossed).status.direction ≡ incoming)
    × ((crossed).status.number ≡ codes "+78005553535")
    × ((crossed).drop_timer ≡ some default_auto_drop_timeout)
    × ((on_auto_drop_timeout 8 crossed).0 ≡ hangup_command ∷ ended was_unanswered 0 crossed ∷ [])
unfolding handle_urc handle_clip_urc parse_clip_number end_dial start_dial_monitoring begin_dial
    stop_drop_timer new_call_service trim_space trim_left trim_right on_auto_drop_timeout
crossed_call = (refl, refl, refl, refl)

-- A drop during which a call comes in: the time of the answer is gone, and the completed call is
-- reported with the longest duration there is.
crossed_drop :
    (finish_drop 9
      (codes "+7900")
      outgoing
      (handle_urc 8 8 (clip_urc (codes "+78005553535") []) (begin_drop 7 placed).1).1).0
    ≡ event (record {
      type = event_ended;
      from = codes "+7900";
      number = codes "+7900";
      direction = outgoing;
      status = was_completed;
      digit = [];
      modem_id = codes "m1";
      duration = 2 ^ 63 - 1;
    })
      ∷ []
unfolding handle_urc handle_clip_urc parse_clip_number begin_drop finish_drop dial end_dial
    start_dial_monitoring begin_dial clean_voice_number voice_digits stop_drop_timer
    new_call_service trim_space trim_left trim_right
crossed_drop = refl
