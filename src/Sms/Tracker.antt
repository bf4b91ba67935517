-- ===== src/Sms/Tracker.antt =====
-- internal/sms/tracker.go: the messages that wait for a delivery report. A timer is known by its
-- key; that it runs out is a call of handle_timeout. `onUpdate` is called with the events returned.
pub mod Laws
mod Runs
use gsm2mqtt.Base.{
  ℕ, ◌+◌, Bool, true, false, not, ◌&&◌, Option, none, some, List, [], ◌∷◌, ◌++◌, ltb, ◌==◌,
  if◌then◌else◌, length, get_or, drop, filter_by, text_eq,
}
use gsm2mqtt.Base.Text.{codes, is_empty, is_digit, has_prefix, trim_space}
use gsm2mqtt.Pdu.Types.{StatusReport}

pub data DeliveryStatus : Type 0 where
  pending delivered failed expired : DeliveryStatus

pub record DeliveryEvent : Type 0 where
  pub message_ref : ℕ
  pub to : List ℕ
  pub status : DeliveryStatus
  pub modem_id : List ℕ

pub record TrackedSms : Type 0 where
  pub ref : ℕ
  pub to : List ℕ
  pub modem_id : List ℕ

-- makeKey's result, before it is printed: a canonical recipient and a reference.
abbrev pub Key : Type 0
Key = List ℕ × ℕ

pub record Tracker : Type 0 where
  pub pending : List (Key × TrackedSms)

pub new_tracker : Tracker
new_tracker = record { pending = [] }

abbrev pub key_eq : Key → Key → Bool
key_eq a b = text_eq a.0 b.0 && (a.1 == b.1)

pub pending_at : Key → List (Key × TrackedSms) → Option TrackedSms
pending_at key [] = none
pending_at key ((k, item) ∷ m) = if key_eq k key then some item else pending_at key m

pub without_key : Key → List (Key × TrackedSms) → List (Key × TrackedSms)
without_key key [] = []
without_key key ((k, item) ∷ m) =
    let rest = without_key key m in if key_eq k key then rest else (k, item) ∷ rest

unfoldable pub canonical_recipient : List ℕ → List ℕ
canonical_recipient raw =
    let trimmed = trim_space raw in
    let d = filter_by is_digit trimmed in
    if is_empty trimmed
    then raw
    else (if is_empty d
        then trimmed
        else (if has_prefix trimmed (codes "+")
            then b'+' ∷ d
            else (if (length d == 11) && (get_or d 0 0 == b'8')
                then codes "+7" ++ drop 1 d
                else d)))

abbrev pub make_key : List ℕ → ℕ → Key
make_key to ref = (canonical_recipient to, ref)

pub track : ℕ → List ℕ → List ℕ → Tracker → List DeliveryEvent × Tracker
track ref to modem_id t =
    let key = make_key to ref in
    let item : TrackedSms = record { ref = ref; to = to; modem_id = modem_id } in
    (
      record { message_ref = ref; to = to; status = pending; modem_id = modem_id } ∷ [],
      record { pending = (key, item) ∷ without_key key t.pending },
    )

abbrev pub status_of : StatusReport → DeliveryStatus
status_of report =
    if not report.delivered then (if report.permanent then failed else pending) else delivered

-- HandleReport with the item found at its key.
pub settle : Key → StatusReport → Option TrackedSms → Tracker → List DeliveryEvent × Tracker
settle key report none t = ([], t)
settle key report (some item) t = (
  record {
    message_ref = report.message_ref;
    to = item.to;
    status = status_of report;
    modem_id = item.modem_id;
  }
      ∷ [],
  record { pending = without_key key t.pending },
)

pub handle_report : StatusReport → Tracker → List DeliveryEvent × Tracker
handle_report report t =
    let key = make_key report.recipient report.message_ref in
    settle key report (pending_at key t.pending) t

-- handleTimeout with the item found at its key.
pub expire : Key → Option TrackedSms → Tracker → List DeliveryEvent × Tracker
expire key none t = ([], t)
expire key (some item) t = (
  record { message_ref = item.ref; to = item.to; status = expired; modem_id = item.modem_id } ∷ [],
  record { pending = without_key key t.pending },
)

pub handle_timeout : Key → Tracker → List DeliveryEvent × Tracker
handle_timeout key t = expire key (pending_at key t.pending) t
