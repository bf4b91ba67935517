-- ===== src/Services/Manager.antt =====
-- internal/services/manager.go: the modems of the gateway, by their identifiers. Of a runner the model
-- keeps its identifier, its received messages and its calls.
mod Runs
use gsm2mqtt.Base.{
  ℕ, Bool, true, false, not, ◌&&◌, ◌||◌, Option, none, some, List, [], ◌∷◌, ◌++◌, if◌then◌else◌,
  text_eq,
}
use gsm2mqtt.Base.Maps.{lookup, insert, delete}
use gsm2mqtt.Base.Text.{codes, is_empty}
use gsm2mqtt.Services.Inbox.{ReceivedSms}
use gsm2mqtt.Services.History.{CallRecord}

pub record ModemRunner : Type 0 where
  pub id : List ℕ
  pub received_sms : List ReceivedSms
  pub call_history : List CallRecord

pub record GatewayManager : Type 0 where
  pub runners : List (List ℕ × ModemRunner)
  pub order : List (List ℕ)

pub new_gateway_manager : GatewayManager
new_gateway_manager = record { runners = []; order = [] }

pub register : ModemRunner → GatewayManager → GatewayManager
register runner m = record {
  runners = insert text_eq runner.id runner m.runners;
  order = m.order ++ runner.id ∷ [];
}

-- The loop over the order, with the runners that are there.
pub in_order : List (List ℕ) → List (List ℕ × ModemRunner) → List ModemRunner
in_order [] runners = []
in_order (id ∷ order) runners = found (lookup text_eq id runners) ++ in_order order runners
  where
    found : Option ModemRunner → List ModemRunner
    found none = []
    found (some r) = r ∷ []

-- GetModems, before the summaries.
pub get_modems : GatewayManager → List ModemRunner
get_modems m = in_order m.order m.runners

abbrev pub first_runner : List (List ℕ) → List (List ℕ × ModemRunner) → Option ModemRunner
first_runner [] runners = none
first_runner (id ∷ order) runners = lookup text_eq id runners

-- findRunner; `none` is its error, or the nil runner of an identifier that is not there.
pub find_runner : List ℕ → GatewayManager → Option ModemRunner
find_runner modem_id m =
    if not (is_empty modem_id)
    then lookup text_eq modem_id m.runners
    else first_runner m.order m.runners

abbrev pub all_received : List ModemRunner → List ReceivedSms
all_received [] = []
all_received (r ∷ runners) = r.received_sms ++ all_received runners

pub get_received_sms : GatewayManager → List ReceivedSms
get_received_sms m = all_received (get_modems m)

abbrev pub all_calls : List ModemRunner → List CallRecord
all_calls [] = []
all_calls (r ∷ runners) = r.call_history ++ all_calls runners

-- The test that a call is for one modem.
abbrev pub is_one : List ℕ → Bool
is_one modem_id = not (is_empty modem_id) && not (text_eq modem_id (codes "all"))

pub get_call_history : List ℕ → GatewayManager → List CallRecord
get_call_history modem_id m =
    if is_one modem_id
    then calls_of (lookup text_eq modem_id m.runners)
    else all_calls (get_modems m)
  where
    calls_of : Option ModemRunner → List CallRecord
    calls_of none = []
    calls_of (some r) = r.call_history

-- A change of every runner.
abbrev pub change_all :
    (ModemRunner → ModemRunner) → List (List ℕ × ModemRunner) → List (List ℕ × ModemRunner)
change_all f [] = []
change_all f ((id, r) ∷ runners) = (id, f r) ∷ change_all f runners

-- A change of one runner or of all; whether the runner is there.
abbrev pub change : (ModemRunner → ModemRunner) → List ℕ → GatewayManager → Bool × GatewayManager
change f modem_id m =
    if is_one modem_id
    then change_one (lookup text_eq modem_id m.runners)
    else (true, record m { runners = change_all f m.runners })
  where
    change_one : Option ModemRunner → Bool × GatewayManager
    change_one none = (false, m)
    change_one (some r) = (true, record m { runners = insert text_eq modem_id (f r) m.runners })

pub clear_received_sms : List ℕ → GatewayManager → Bool × GatewayManager
clear_received_sms modem_id m = change (λ r. record r { received_sms = [] }) modem_id m

pub clear_call_history : List ℕ → GatewayManager → Bool × GatewayManager
clear_call_history modem_id m = change (λ r. record r { call_history = [] }) modem_id m
