-- ===== src/Services/Call/Urc.antt =====
-- internal/services/call_urc.go, and HandleURC of internal/services/call.go: what the modem reports
-- of calls.
use gsm2mqtt.Base.{
  ℕ, ◌-◌, ◌^◌, Bool, true, false, not, ◌&&◌, ◌||◌, Option, none, some, List, [], ◌∷◌, ◌++◌, ◌==◌,
  if◌then◌else◌, text_eq,
}
use gsm2mqtt.Base.Text.{codes, cut_at, is_empty, has_prefix, trim_space, trim_prefix, split_on}
use gsm2mqtt.Services.Call.{
  CallStatus, CallService, Effect, EndStatus, Direction, answered, event_ended, ringing, completed,
  busy, failed, incoming, event_incoming, event_dtmf, no_direction, no_status, was_completed,
  was_missed, was_rejected, was_failed, was_busy, hangup_command, event, is_answered, is_ringing,
  is_dialing, is_trying, is_incoming, add_log, stop_drop_timer, ended, answered_event,
  call_duration,
}

abbrev pub is_quote_or_space : ℕ → Bool
is_quote_or_space r = (r == b'"') || (r == b' ')

abbrev pub trim_quotes_left : List ℕ → List ℕ
trim_quotes_left [] = []
trim_quotes_left (r ∷ s) =
    let rest = trim_quotes_left s in if is_quote_or_space r then rest else r ∷ s

abbrev pub trim_quotes_right : List ℕ → List ℕ
trim_quotes_right [] = []
trim_quotes_right (r ∷ s) =
    let rest = trim_quotes_right s in if is_empty rest && is_quote_or_space r then [] else r ∷ rest

-- strings.Trim with a quote and a space.
abbrev pub trim_quotes : List ℕ → List ℕ
trim_quotes s = trim_quotes_right (trim_quotes_left s)

-- What parseClipNumber answers without a pair of quotes.
abbrev pub unquoted : List (List ℕ) → List ℕ
unquoted [] = []
unquoted (part ∷ parts) = trim_quotes part

-- What stands between the first two quotes.
abbrev pub quoted : Option (List ℕ × List ℕ) → Option (List ℕ)
quoted none = none
quoted (some (before, behind)) = first (cut_at b'"' behind)
  where
    first : Option (List ℕ × List ℕ) → Option (List ℕ)
    first none = none
    first (some (number, rest)) = some number

unfoldable pub parse_clip_number : List ℕ → List ℕ
parse_clip_number urc =
    let payload = trim_space (trim_prefix urc (codes "+CLIP:")) in
    number_or payload (quoted (cut_at b'"' payload))
  where
    number_or : List ℕ → Option (List ℕ) → List ℕ
    number_or payload none = unquoted (split_on b',' payload)
    number_or payload (some number) = number

pub parse_dtmf_digit : List ℕ → List ℕ
parse_dtmf_digit urc = trim_quotes (trim_space (trim_prefix urc (codes "+DTMF:")))

-- The start of a call that rings already, or now.
abbrev pub ring_start : ℕ → CallStatus → Option ℕ
ring_start now st = if is_ringing st.state then kept st.started_at else some now
  where
    kept : Option ℕ → Option ℕ
    kept none = some now
    kept (some t) = some t

unfoldable pub handle_clip_urc : ℕ → List ℕ → CallService → List Effect × CallService
handle_clip_urc now urc s =
    let from = parse_clip_number urc in
    (
      event (record {
        type = event_incoming;
        from = from;
        number = from;
        direction = incoming;
        status = no_status;
        digit = [];
        modem_id = s.modem_id;
        duration = 0;
      })
          ∷ [],
      record (stop_drop_timer s) {
        status = record {
          state = ringing;
          number = from;
          direction = incoming;
          message = codes "Incoming call from " ++ from;
          started_at = ring_start now s.status;
          answered_at = none;
          ended_at = none;
          logs = [];
        };
      },
    )

unfoldable pub handle_dtmf_urc : List ℕ → CallService → List Effect × CallService
handle_dtmf_urc urc s = (
  event (record {
    type = event_dtmf;
    from = [];
    number = [];
    direction = no_direction;
    status = no_status;
    digit = parse_dtmf_digit urc;
    modem_id = s.modem_id;
    duration = 0;
  })
      ∷ [],
  s,
)

-- What handleNoCarrierURC leaves of the status.
abbrev pub lost_status : ℕ → CallStatus → CallStatus
lost_status now st =
    if is_answered st.state
    then record st {
      state = completed;
      message = codes "Call finished";
      ended_at = some now;
      logs = add_log now (codes "Call finished (NO CARRIER)") st.logs;
    }
    else record st {
      state = failed;
      message = codes "Call ended (no answer / disconnected)";
      ended_at = some now;
      logs = add_log now (codes "Call ended: NO CARRIER (no answer / disconnected)") st.logs;
    }

abbrev pub lost_end : CallStatus → EndStatus
lost_end st =
    if is_answered st.state
    then was_completed
    else (if is_incoming st.direction then was_missed else was_failed)

unfoldable pub handle_no_carrier_urc : ℕ → CallService → List Effect × CallService
handle_no_carrier_urc now s = (
  ended (lost_end s.status) (call_duration now s.status) s ∷ [],
  record (stop_drop_timer s) { status = lost_status now s.status },
)

unfoldable pub handle_busy_urc : ℕ → CallService → List Effect × CallService
handle_busy_urc now s = (
  ended (if is_incoming s.status.direction then was_rejected else was_busy) 0 s ∷ [],
  record (stop_drop_timer s) {
    status = record s.status {
      state = busy;
      message = codes "Line busy / Rejected";
      ended_at = some now;
      logs = add_log now (codes "Line busy / Call rejected (BUSY)") s.status.logs;
    };
  },
)

-- handleCallAnsweredDrop up to the command to the modem.
unfoldable pub begin_drop : ℕ → CallService → List Effect × CallService
begin_drop now s = (
  answered_event s ∷ hangup_command ∷ [],
  record (stop_drop_timer s) {
    status = record s.status {
      state = answered;
      answered_at = some now;
      message = codes "Answered! Auto-hanging up (call-drop)...";
    };
  },
)

-- time.Since; from the zero time it is the longest duration.
abbrev pub time_since : ℕ → Option ℕ → ℕ
time_since now none = 2 ^ 63 - 1
time_since now (some at) = now - at

-- handleCallAnsweredDrop behind the modem's answer, with the number and the direction from before it.
unfoldable pub finish_drop : ℕ → List ℕ → Direction → CallService → List Effect × CallService
finish_drop now num dir s = (
  event (record {
    type = event_ended;
    from = num;
    number = num;
    direction = dir;
    status = was_completed;
    digit = [];
    modem_id = s.modem_id;
    duration = time_since now s.status.answered_at;
  })
      ∷ [],
  record s {
    status = record s.status {
      state = completed;
      message = codes "Call answered and dropped successfully";
      ended_at = some now;
      logs = add_log now (codes "Call dropped successfully (call completed)") s.status.logs;
    };
  },
)

-- handleCallAnsweredDrop, answered at `now` and hung up at `later`.
unfoldable pub handle_call_answered_drop : ℕ → ℕ → CallService → List Effect × CallService
unfolding begin_drop finish_drop
handle_call_answered_drop now later s =
    let begun = begin_drop now s in
    let finished = finish_drop later s.status.number s.status.direction begun.1 in
    (begun.0 ++ finished.0, finished.1)

unfoldable pub handle_colp_urc : ℕ → ℕ → CallService → List Effect × CallService
handle_colp_urc now later s = handle_call_answered_drop now later s

unfoldable pub handle_urc : ℕ → ℕ → List ℕ → CallService → List Effect × CallService
handle_urc now later urc s =
    let trimmed = trim_space urc in
    if has_prefix trimmed (codes "+CLIP:")
    then handle_clip_urc now trimmed s
    else (if has_prefix trimmed (codes "+COLP:")
        then handle_colp_urc now later s
        else (if has_prefix trimmed (codes "+DTMF:")
            then handle_dtmf_urc trimmed s
            else (if text_eq trimmed (codes "NO CARRIER")
                then handle_no_carrier_urc now s
                else (if text_eq trimmed (codes "BUSY") then handle_busy_urc now s else ([], s)))))

-- What CheckCallState may answer.
pub data CallCheck : Type 0 where
  check_ringing check_answered check_idle check_other check_error : CallCheck

-- What monitorCall does when the other side is ringing.
unfoldable pub alert : ℕ → CallService → CallService
alert now s = if not (is_dialing s.status.state) then s else record s {
  status = record s.status {
    state = ringing;
    message = codes "Ringing " ++ s.status.number ++ codes "...";
    logs = add_log now (codes "Remote party is ringing (alerting)...") s.status.logs;
  };
}

-- One tick of monitorCall: whether it goes on, what it does, and the service behind it.
unfoldable pub monitor_tick : ℕ → ℕ → CallCheck → CallService → Bool × List Effect × CallService
monitor_tick now later check s =
    if not (is_trying s.status.state) then (false, [], s) else checked check
  where
    checked : CallCheck → Bool × List Effect × CallService
    checked check_ringing = (true, [], alert now s)
    checked check_answered =
        let dropped = handle_call_answered_drop now later s in (false, dropped.0, dropped.1)
    checked check_idle = (false, [], s)
    checked check_other = (true, [], s)
    checked check_error = (true, [], s)

-- monitorCall over the checks of its ticks, with the times of each.
unfoldable pub monitor_call : List (ℕ × ℕ × CallCheck) → CallService → List Effect × CallService
unfolding monitor_tick
monitor_call [] s = ([], s)
monitor_call ((now, later, check) ∷ ticks) s =
    let tick = monitor_tick now later check s in
    let rest = monitor_call ticks tick.2 in
    if tick.0 then (tick.1 ++ rest.0, rest.1) else (tick.1, tick.2)
