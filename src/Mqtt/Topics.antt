-- ===== src/Mqtt/Topics.antt =====
-- internal/mqtt/topics.go: the names of the topics.
pub mod Distinct
mod Runs
use gsm2mqtt.Base.{ℕ, List, [], ◌∷◌, ◌++◌}
use gsm2mqtt.Base.Text.{codes}

pub record Topics : Type 0 where
  pub prefix : List ℕ
  pub modem_id : List ℕ

abbrev pub new_topics : List ℕ → List ℕ → Topics
new_topics prefix modem_id = record { prefix = prefix; modem_id = modem_id }

-- fmt.Sprintf("%s/modem/%s…", t.prefix, t.modemID).
abbrev pub modem_topic : Topics → List ℕ → List ℕ
modem_topic t suffix = t.prefix ++ (codes "/modem/" ++ (t.modem_id ++ suffix))

abbrev pub sms_send : Topics → List ℕ
sms_send t = modem_topic t (codes "/sms/send")

abbrev pub sms_status : Topics → List ℕ
sms_status t = modem_topic t (codes "/sms/status")

abbrev pub sms_received : Topics → List ℕ
sms_received t = modem_topic t (codes "/sms/received")

abbrev pub sms_last : Topics → List ℕ
sms_last t = modem_topic t (codes "/sms/last")

abbrev pub sms_history : Topics → List ℕ
sms_history t = modem_topic t (codes "/sms/history")

abbrev pub sms_history_clear : Topics → List ℕ
sms_history_clear t = modem_topic t (codes "/sms/history/clear")

abbrev pub call_dial : Topics → List ℕ
call_dial t = modem_topic t (codes "/call/dial")

abbrev pub call_hangup : Topics → List ℕ
call_hangup t = modem_topic t (codes "/call/hangup")

abbrev pub call_incoming : Topics → List ℕ
call_incoming t = modem_topic t (codes "/call/incoming")

abbrev pub call_history : Topics → List ℕ
call_history t = modem_topic t (codes "/call/history")

abbrev pub call_history_clear : Topics → List ℕ
call_history_clear t = modem_topic t (codes "/call/history/clear")

abbrev pub call_dtmf : Topics → List ℕ
call_dtmf t = modem_topic t (codes "/call/dtmf")

abbrev pub signal_strength : Topics → List ℕ
signal_strength t = modem_topic t (codes "/signal")

abbrev pub ussd_send : Topics → List ℕ
ussd_send t = modem_topic t (codes "/ussd/send")

abbrev pub ussd_response : Topics → List ℕ
ussd_response t = modem_topic t (codes "/ussd/response")

abbrev pub command_raw : Topics → List ℕ
command_raw t = modem_topic t (codes "/command/raw")

abbrev pub command_response : Topics → List ℕ
command_response t = modem_topic t (codes "/command/response")

abbrev pub health : Topics → List ℕ
health t = modem_topic t (codes "/health")

abbrev pub alert : Topics → List ℕ
alert t = modem_topic t (codes "/alert")

abbrev pub event : Topics → List ℕ
event t = modem_topic t (codes "/event")

abbrev pub diagnostic : Topics → List ℕ
diagnostic t = modem_topic t (codes "/diagnostic")

abbrev pub balance : Topics → List ℕ
balance t = modem_topic t (codes "/balance")

abbrev pub tariff_set_preset : Topics → List ℕ
tariff_set_preset t = modem_topic t (codes "/tariff/set_preset")

abbrev pub tariff_set : Topics → List ℕ
tariff_set t = modem_topic t (codes "/tariff/set")

abbrev pub tariff_reset : Topics → List ℕ
tariff_reset t = modem_topic t (codes "/tariff/reset")

abbrev pub accounting_status : Topics → List ℕ
accounting_status t = modem_topic t (codes "/accounting/status")

abbrev pub accounting_alert : Topics → List ℕ
accounting_alert t = modem_topic t (codes "/accounting/alert")

abbrev pub lwt : Topics → List ℕ
lwt t = t.prefix ++ codes "/status"

abbrev pub pool_status : Topics → List ℕ
pool_status t = t.prefix ++ codes "/pool/status"

abbrev pub pool_sms_send : Topics → List ℕ
pool_sms_send t = t.prefix ++ codes "/sms/send"

abbrev pub pool_call_dial : Topics → List ℕ
pool_call_dial t = t.prefix ++ codes "/call/dial"

abbrev pub pool_call_hangup : Topics → List ℕ
pool_call_hangup t = t.prefix ++ codes "/call/hangup"

abbrev pub pool_ussd_send : Topics → List ℕ
pool_ussd_send t = t.prefix ++ codes "/ussd/send"
