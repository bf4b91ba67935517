-- ===== src/Services/Call/Events.antt =====
-- internal/services/call.go, call_urc.go: the events that the service reports.
use gsm2mqtt.Base.{◌<◌, Bool, true, ◌≡◌, ◌≢◌}
use gsm2mqtt.Services.Call.{
  outgoing, incoming, Effect, CallEvent, no_status, was_completed, was_missed, was_busy,
  was_unanswered, was_cancelled, event_ended, dial_command, answer_command, hangup_command, event,
}
use gsm2mqtt.Services.Call.WellFormed.{WellFormed}

-- What a reader of the events may rely on: the end of a call has a status, a missed one was incoming,
-- a cancelled or busy one was not, only a completed call has a duration; and where no step has crossed
-- a call that was being dialled, one without an answer was outgoing.
pub record Sound (calm : Bool) (e : CallEvent) : Type 0 where
  pub ended_status : e.type ≡ event_ended → e.status ≢ no_status
  pub missed_incoming : e.status ≡ was_missed → e.direction ≡ incoming
  pub cancelled_other : e.status ≡ was_cancelled → e.direction ≢ incoming
  pub busy_other : e.status ≡ was_busy → e.direction ≢ incoming
  pub duration_completed : 0 < e.duration → (e.type ≡ event_ended) × (e.status ≡ was_completed)
  pub unanswered_outgoing : calm ≡ true → e.status ≡ was_unanswered → e.direction ≡ outgoing

abbrev pub IsSound : Bool → Effect → Type 0
IsSound calm (dial_command number) = Unit
IsSound calm answer_command = Unit
IsSound calm hangup_command = Unit
IsSound calm (event e) = Sound calm e
