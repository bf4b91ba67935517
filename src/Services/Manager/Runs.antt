-- ===== src/Services/Manager/Runs.antt =====
-- internal/services/manager.go: a modem that is registered twice.
use gsm2mqtt.Base.{some, [], length, ◌≡◌, refl}
use gsm2mqtt.Base.Text.{codes}
use gsm2mqtt.Services.Manager.{
  ModemRunner, new_gateway_manager, register, get_modems, in_order, find_runner,
}

abbrev runner : ModemRunner
runner = record { id = codes "m1"; received_sms = []; call_history = [] }

listed_twice : length (get_modems (register runner (register runner new_gateway_manager))) ≡ 2
unfolding get_modems in_order register new_gateway_manager
listed_twice = refl

first_modem : find_runner [] (register runner new_gateway_manager) ≡ some runner
unfolding find_runner register new_gateway_manager
first_modem = refl
