-- ===== src/Services/Call.antt =====
-- internal/services/call.go: the service of voice calls. A time is a number of nanoseconds and the
-- clock's reading an argument, a method's own for all its readings; the zero time is `none`. What a
-- method does outside, in its order, is a list of effects: the commands to the modem, whose answers
-- are arguments, and the calls of onEvent. `context` is not read by the source.
pub mod Urc
pub mod Machine
pub mod WellFormed
pub mod Moves
pub mod Invariant
pub mod Clip
pub mod Events
pub mod Drop
mod Runs
use gsm2mqtt.Base.{
  ℕ, zero, suc, ◌+◌, ◌-◌, ◌*◌, Bool, true, false, not, ◌&&◌, ◌||◌, Option, none, some, List, [],
  ◌∷◌, ◌++◌, ltb, ◌==◌, if◌then◌else◌, length, drop,
}
use gsm2mqtt.Base.Text.{codes, is_empty, is_digit, trim_space}

abbrev pub default_auto_drop_timeout : ℕ
default_auto_drop_timeout = 60 * 1000000000

pub data CallState : Type 0 where
  idle dialing ringing answered completed busy failed : CallState

pub record CallLogEntry : Type 0 where
  pub time : ℕ
  pub message : List ℕ

-- The values of the field Direction.
pub data Direction : Type 0 where
  no_direction outgoing incoming : Direction

pub record CallStatus : Type 0 where
  pub state : CallState
  pub number : List ℕ
  pub direction : Direction
  pub message : List ℕ
  pub started_at : Option ℕ
  pub answered_at : Option ℕ
  pub ended_at : Option ℕ
  pub logs : List CallLogEntry

-- The values of the fields Type and Status of CallEvent.
pub data EventType : Type 0 where
  event_incoming event_answered event_ended event_dtmf : EventType

pub data EndStatus : Type 0 where
  no_status was_completed was_missed was_rejected was_failed was_busy was_unanswered was_cancelled :
      EndStatus

pub record CallEvent : Type 0 where
  pub type : EventType
  pub from : List ℕ
  pub number : List ℕ
  pub direction : Direction
  pub status : EndStatus
  pub digit : List ℕ
  pub modem_id : List ℕ
  pub duration : ℕ

-- What the service does outside of itself.
pub data Effect : Type 0 where
  dial_command : List ℕ → Effect
  answer_command hangup_command : Effect
  event : CallEvent → Effect

-- The service; the timer is known by the duration it was started with, the monitor by a flag.
pub record CallService : Type 0 where
  pub modem_id : List ℕ
  pub status : CallStatus
  pub auto_drop_timeout : ℕ
  pub drop_timer : Option ℕ
  pub monitor : Bool

pub new_call_service : List ℕ → CallService
new_call_service modem_id = record {
  modem_id = modem_id;
  status = record {
    state = idle;
    number = [];
    direction = no_direction;
    message = codes "Idle";
    started_at = none;
    answered_at = none;
    ended_at = none;
    logs = [];
  };
  auto_drop_timeout = default_auto_drop_timeout;
  drop_timer = none;
  monitor = false;
}

pub set_auto_drop_timeout : ℕ → CallService → CallService
set_auto_drop_timeout d s = record s { auto_drop_timeout = d }

abbrev pub is_answered : CallState → Bool
is_answered answered = true
is_answered _ = false

abbrev pub is_ringing : CallState → Bool
is_ringing ringing = true
is_ringing _ = false

abbrev pub is_dialing : CallState → Bool
is_dialing dialing = true
is_dialing _ = false

-- The test that the state is dialing or ringing.
abbrev pub is_trying : CallState → Bool
is_trying state = is_dialing state || is_ringing state

abbrev pub is_incoming : Direction → Bool
is_incoming incoming = true
is_incoming _ = false

-- addLogLocked, on the list.
pub add_log : ℕ → List ℕ → List CallLogEntry → List CallLogEntry
add_log now msg logs =
    let longer = logs ++ record { time = now; message = msg } ∷ [] in
    if ltb 20 (length longer) then drop (length longer - 20) longer else longer

pub stop_drop_timer : CallService → CallService
stop_drop_timer s = record s { drop_timer = none; monitor = false }

-- The event of type ended.
abbrev pub ended : EndStatus → ℕ → CallService → Effect
ended status duration s = event (record {
  type = event_ended;
  from = s.status.number;
  number = s.status.number;
  direction = s.status.direction;
  status = status;
  digit = [];
  modem_id = s.modem_id;
  duration = duration;
})

-- The event of type answered.
abbrev pub answered_event : CallService → Effect
answered_event s = event (record {
  type = event_answered;
  from = s.status.number;
  number = s.status.number;
  direction = s.status.direction;
  status = no_status;
  digit = [];
  modem_id = s.modem_id;
  duration = 0;
})

pub on_auto_drop_timeout : ℕ → CallService → List Effect × CallService
on_auto_drop_timeout now s = if not (is_trying s.status.state) then ([], s) else (
  hangup_command ∷ ended was_unanswered 0 s ∷ [],
  record s {
    status = record s.status {
      state = failed;
      message = codes "Call timed out (no answer)";
      ended_at = some now;
      logs = add_log now (codes "Call timed out (no answer)") s.status.logs;
    };
    monitor = false;
  },
)

-- The loop of cleanVoiceNumber behind the index 0.
pub voice_digits : List ℕ → List ℕ
voice_digits [] = []
voice_digits (r ∷ raw) = let rest = voice_digits raw in if is_digit r then r ∷ rest else rest

pub clean_voice_number : List ℕ → List ℕ
clean_voice_number raw = clean (trim_space raw)
  where
    clean : List ℕ → List ℕ
    clean [] = []
    clean (r ∷ rest) = if r == b'+' then r ∷ voice_digits rest else voice_digits (r ∷ rest)

-- Dial up to the command to the modem.
pub begin_dial : ℕ → List ℕ → CallService → CallService
begin_dial now number s = record (stop_drop_timer s) {
  status = record {
    state = dialing;
    number = number;
    direction = outgoing;
    message = codes "Dialing " ++ number ++ codes "...";
    started_at = some now;
    answered_at = none;
    ended_at = none;
    logs =
        record {
          time = now;
          message = codes "Initiating outgoing call to " ++ number ++ codes "...";
        }
        ∷ [];
  };
}

-- Dial after the modem's error, whose text is `err`.
pub fail_dial : ℕ → List ℕ → CallService → CallService
fail_dial now err s = record s {
  status = record s.status {
    state = failed;
    message = err;
    ended_at = some now;
    logs = add_log now (codes "Dial failed: " ++ err) s.status.logs;
  };
}

pub start_dial_monitoring : ℕ → List ℕ → CallService → CallService
start_dial_monitoring now number s = record s {
  status = record s.status {
    state = ringing;
    message = codes "Ringing " ++ number ++ codes "...";
    logs = add_log now (codes "Modem accepted dial command, connecting network...") s.status.logs;
  };
  drop_timer =
      some (if s.auto_drop_timeout == 0 then default_auto_drop_timeout else s.auto_drop_timeout);
  monitor = true;
}

-- The end of Dial, with the answer of the modem.
pub end_dial : ℕ → List ℕ → Option (List ℕ) → CallService → CallService
end_dial now number (some err) s = fail_dial now err s
end_dial now number none s = start_dial_monitoring now number s

pub data DialError : Type 0 where
  empty_phone_number : DialError
  modem_error : List ℕ → DialError

-- Dial, for the answer of the modem: `none`, or the text of an error.
pub dial : ℕ → List ℕ → Option (List ℕ) → CallService → Option DialError × List Effect × CallService
dial now number answer s =
    let clean = clean_voice_number number in
    if is_empty clean then (some empty_phone_number, [], s) else (
      error_of answer,
      dial_command clean ∷ [],
      end_dial now clean answer (begin_dial now clean s),
    )
  where
    error_of : Option (List ℕ) → Option DialError
    error_of none = none
    error_of (some err) = some (modem_error err)

-- Answer behind the modem's consent.
pub set_answered : ℕ → CallService → CallService
set_answered now s = record s {
  status = record s.status {
    state = answered;
    message = codes "Call active";
    answered_at = some now;
    logs = add_log now (codes "Call answered (active)") s.status.logs;
  };
}

-- Answer; `accepted` says that the modem returned no error, as does the Boolean result.
pub answer : ℕ → Bool → CallService → Bool × List Effect × CallService
answer now accepted s =
    let stopped = stop_drop_timer s in
    if not accepted
    then (false, answer_command ∷ [], stopped)
    else (true, answer_command ∷ answered_event stopped ∷ [], set_answered now stopped)

-- The time since the answer, of a call that was answered.
abbrev pub since : ℕ → Option ℕ → ℕ
since now none = 0
since now (some at) = now - at

abbrev pub call_duration : ℕ → CallStatus → ℕ
call_duration now st = if is_answered st.state then since now st.answered_at else 0

abbrev pub hangup_status : CallStatus → EndStatus
hangup_status st =
    if is_answered st.state
    then was_completed
    else (if is_incoming st.direction then was_rejected else was_cancelled)

-- Hangup up to the command to the modem.
pub set_terminated : ℕ → CallService → CallService
set_terminated now s = record (stop_drop_timer s) {
  status = record s.status {
    state = completed;
    message = codes "Call terminated";
    ended_at = some now;
    logs = add_log now (codes "Call terminated by user") s.status.logs;
  };
}

-- Hangup; `accepted` says that the modem returned no error, as does the Boolean result.
pub hangup : ℕ → Bool → CallService → Bool × List Effect × CallService
hangup now accepted s = (
  accepted,
  hangup_command
      ∷ (if accepted
          then ended (hangup_status s.status) (call_duration now s.status) s ∷ []
          else []),
  set_terminated now s,
)
