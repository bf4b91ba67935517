-- ===== src/Services/Call/Machine.antt =====
-- internal/services/call.go, call_urc.go: runs of the service. A method that gives up the lock while
-- the modem works (Dial, Answer, handleCallAnsweredDrop, a check of monitorCall) is two steps, one for
-- each part under the lock, and any other steps may fall between them: what has begun is a list of
-- pending work. An event stands where the values in it are read. The timer's function may run at any
-- time, also behind a Stop that came too late.
use gsm2mqtt.Base.{
  ℕ, Bool, true, false, not, ◌&&◌, Option, none, some, List, [], ◌∷◌, ◌++◌, any_by, text_eq,
  Bool-cases, ◌≡◌, inl, inr,
}
use gsm2mqtt.Base.Text.{codes, is_empty, has_prefix, trim_space}
use gsm2mqtt.Services.Call.{
  CallService, Effect, Direction, dial_command, answer_command, new_call_service,
  set_auto_drop_timeout, is_trying, stop_drop_timer, on_auto_drop_timeout, clean_voice_number,
  begin_dial, end_dial, answered_event, set_answered, hangup,
}
use gsm2mqtt.Services.Call.Urc.{
  begin_drop, finish_drop, alert, handle_clip_urc, handle_dtmf_urc, handle_no_carrier_urc,
  handle_busy_urc, handle_call_answered_drop, handle_colp_urc, handle_urc,
}

-- What has given up the lock and will take it again: Dial of a number, Answer, a drop with the number
-- and the direction of the call, a check of the monitor.
pub data Pending : Type 0 where
  dialling : List ℕ → Pending
  answering checking : Pending
  dropping : List ℕ → Direction → Pending

abbrev pub is_dialling : Pending → Bool
is_dialling (dialling number) = true
is_dialling _ = false

-- Whether a Dial waits for the modem.
abbrev pub dials : List Pending → Bool
dials pending = any_by is_dialling pending

abbrev pub is_set : Option ℕ → Bool
is_set none = false
is_set (some at) = true

abbrev pub is_clip : List ℕ → Bool
is_clip urc = has_prefix (trim_space urc) (codes "+CLIP:")

-- One part of a method under the lock. The Boolean is false where it crosses a call that is being
-- dialled: another Dial or a report of an incoming call while a Dial waits for the modem, or a timer
-- that runs out though it is not the one that is set.
pub data Step
    : CallService → List Pending → Bool → List Effect → CallService → List Pending → Type 0 where
  set_timeout :
      (d : ℕ) (s : CallService) (ps : List Pending)
      → Step s ps true [] (set_auto_drop_timeout d s) ps
  dial_begun :
      (now : ℕ) (number : List ℕ) (s : CallService) (ps : List Pending)
      → is_empty (clean_voice_number number) ≡ false
      → Step s ps
          (not (dials ps))
          (dial_command (clean_voice_number number) ∷ [])
          (begin_dial now (clean_voice_number number) s)
          (dialling (clean_voice_number number) ∷ ps)
  dial_ended :
      (now : ℕ) (number : List ℕ) (err : Option (List ℕ)) (s : CallService)
      (before after : List Pending)
      → Step s
          (before ++ dialling number ∷ after)
          true
          []
          (end_dial now number err s)
          (before ++ after)
  answer_begun :
      (s : CallService) (ps : List Pending)
      → Step s ps true (answer_command ∷ []) (stop_drop_timer s) (answering ∷ ps)
  answer_refused :
      (s : CallService) (before after : List Pending)
      → Step s (before ++ answering ∷ after) true [] s (before ++ after)
  answer_accepted :
      (now : ℕ) (s : CallService) (before after : List Pending)
      → Step s
          (before ++ answering ∷ after)
          true
          (answered_event s ∷ [])
          (set_answered now s)
          (before ++ after)
  hung_up :
      (now : ℕ) (accepted : Bool) (s : CallService) (ps : List Pending)
      → Step s ps true (hangup now accepted s).1 (hangup now accepted s).2 ps
  reported :
      (now : ℕ) (urc : List ℕ) (s : CallService) (ps : List Pending)
      → has_prefix (trim_space urc) (codes "+COLP:") ≡ false
      → Step s ps
          (not (is_clip urc && dials ps))
          (handle_urc now now urc s).0
          (handle_urc now now urc s).1
          ps
  colp_reported :
      (now : ℕ) (urc : List ℕ) (s : CallService) (ps : List Pending)
      → has_prefix (trim_space urc) (codes "+COLP:") ≡ true
      → Step s ps true
          (begin_drop now s).0
          (begin_drop now s).1
          (dropping s.status.number s.status.direction ∷ ps)
  check_begun :
      (s : CallService) (ps : List Pending)
      → is_trying s.status.state ≡ true
      → Step s ps true [] s (checking ∷ ps)
  checked_ringing :
      (now : ℕ) (s : CallService) (before after : List Pending)
      → Step s (before ++ checking ∷ after) true [] (alert now s) (before ++ after)
  checked_answered :
      (now : ℕ) (s : CallService) (before after : List Pending)
      → Step s
          (before ++ checking ∷ after)
          true
          (begin_drop now s).0
          (begin_drop now s).1
          (dropping s.status.number s.status.direction ∷ (before ++ after))
  checked_other :
      (s : CallService) (before after : List Pending)
      → Step s (before ++ checking ∷ after) true [] s (before ++ after)
  drop_finished :
      (now : ℕ) (number : List ℕ) (dir : Direction) (s : CallService) (before after : List Pending)
      → Step s
          (before ++ dropping number dir ∷ after)
          true
          (finish_drop now number dir s).0
          (finish_drop now number dir s).1
          (before ++ after)
  timed_out :
      (now : ℕ) (s : CallService) (ps : List Pending)
      → Step s ps
          (is_set s.drop_timer)
          (on_auto_drop_timeout now s).0
          (on_auto_drop_timeout now s).1
          ps

-- What a new service can come to, with all the effects on the way; the Boolean is true where no step
-- has crossed a call that was being dialled.
pub data Reached (modem_id : List ℕ)
    : Bool → List Effect → CallService → List Pending → Type 0 where
  start : Reached modem_id true [] (new_call_service modem_id) []
  next :
      {calm clear : Bool} {before effects : List Effect} {s t : CallService} {ps qs : List Pending}
      → Reached modem_id calm before s ps
      → Step s ps clear effects t qs
      → Reached modem_id (calm && clear) (before ++ effects) t qs

-- What holds of the outcome of each report holds of the outcome of any.
pub handle_urc_cases :
    (now later : ℕ) (urc : List ℕ) (s : CallService) (P : List Effect × CallService → Type 0)
    → (is_clip urc ≡ true → P (handle_clip_urc now (trim_space urc) s))
    → (has_prefix (trim_space urc) (codes "+COLP:") ≡ true
        → P (handle_call_answered_drop now later s))
    → P (handle_dtmf_urc (trim_space urc) s)
    → P (handle_no_carrier_urc now s)
    → P (handle_busy_urc now s)
    → P ([], s)
    → P (handle_urc now later urc s)
unfolding handle_urc handle_colp_urc
handle_urc_cases now later urc s P clip colp dtmf lost busy other =
    elim (Bool-cases (has_prefix (trim_space urc) (codes "+CLIP:"))) [
      | inl e ↦ rw e (clip e)
      | inr e ↦ elim (Bool-cases (has_prefix (trim_space urc) (codes "+COLP:"))) [
        | inl f ↦ rw (e, f) (colp f)
        | inr f ↦ elim (Bool-cases (has_prefix (trim_space urc) (codes "+DTMF:"))) [
          | inl g ↦ rw (e, f, g) dtmf
          | inr g ↦ elim (Bool-cases (text_eq (trim_space urc) (codes "NO CARRIER"))) [
            | inl i ↦ rw (e, f, g, i) lost
            | inr i ↦ elim (Bool-cases (text_eq (trim_space urc) (codes "BUSY"))) [
              | inl j ↦ rw (e, f, g, i, j) busy
              | inr j ↦ rw (e, f, g, i, j) other
            ]
          ]
        ]
      ]
    ]
