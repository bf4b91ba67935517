-- ===== src/Sms/Tracker/Runs.antt =====
-- internal/sms/tracker.go: a message tracked under its national number.
use gsm2mqtt.Base.{true, false, [], ◌∷◌, ◌≡◌, refl}
use gsm2mqtt.Base.Int.{pos}
use gsm2mqtt.Base.Text.{codes, trim_space, trim_left, trim_right}
use gsm2mqtt.Pdu.Types.{Timestamp}
use gsm2mqtt.Pdu.Types.{StatusReport}
use gsm2mqtt.Sms.Tracker.{
  Tracker, pending, new_tracker, track, handle_report, handle_timeout, make_key,
  canonical_recipient,
}
use gsm2mqtt.Sms.Tracker.Laws.{handle_report_once, handle_report-track}

abbrev noon : Timestamp
noon = record { year = 2024; month = 1; day = 1; hour = 12; minute = 0; second = 0; offset = pos 0 }

-- A temporary failure: status code 0x21.
abbrev congestion : StatusReport
congestion = record {
  message_ref = 5;
  recipient = codes "89001234567";
  sc_timestamp = noon;
  discharge = noon;
  status_code = 0x21;
  delivered = false;
  temporary = true;
  permanent = false;
}

abbrev arrived : StatusReport
arrived = record congestion {
  recipient = codes "+79001234567";
  status_code = 0;
  delivered = true;
  temporary = false;
}

abbrev waiting : Tracker
waiting = (track 5 (codes "+79001234567") (codes "m") new_tracker).1

handle_report-track_example :
    (handle_report congestion waiting).0
    ≡ record { message_ref = 5; to = codes "+79001234567"; status = pending; modem_id = codes "m" }
      ∷ []
unfolding canonical_recipient trim_space trim_left trim_right
handle_report-track_example =
    handle_report-track 5 (codes "+79001234567") (codes "m") congestion new_tracker refl

handle_report_once_example :
    ((handle_report arrived (handle_report congestion waiting).1).0 ≡ [])
    × ((handle_timeout (make_key (codes "89001234567") 5) (handle_report congestion waiting).1).0
        ≡ [])
unfolding canonical_recipient trim_space trim_left trim_right
handle_report_once_example = handle_report_once congestion arrived waiting refl
