-- ===== src/Modem/Lines/Runs.antt =====
-- internal/modem/at/urc.go: lines at concrete inputs.
use gsm2mqtt.Base.{true, false, ◌≡◌, refl}
use gsm2mqtt.Base.Text.{codes, trim_space, trim_left, trim_right}
use gsm2mqtt.Security.Unicode.{ascii}
use gsm2mqtt.Modem.Lines.{is_command_response, is_call_termination_response, is_urc}

own_response : is_command_response ascii (codes "at+creg?") (codes "+CREG: 0,1") ≡ true
unfolding is_command_response trim_space trim_left trim_right
own_response = refl

-- A busy line ends a call that is being set up; it is no unsolicited report.
busy_line :
    (is_call_termination_response ascii (codes "ATD+79001234567;") (codes "BUSY") ≡ true)
    × (is_urc (codes "BUSY") ≡ false)
unfolding is_call_termination_response is_urc trim_space trim_left trim_right
busy_line = (refl, refl)
