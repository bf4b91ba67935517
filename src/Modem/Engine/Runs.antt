-- ===== src/Modem/Engine/Runs.antt =====
-- internal/modem/at/engine.go: a message that comes while a command is in flight.
use gsm2mqtt.Base.{some, [], ◌∷◌, ◌≡◌, refl, true, false}
use gsm2mqtt.Base.Text.{codes, trim_space, trim_left, trim_right}
use gsm2mqtt.Security.Unicode.{ascii}
use gsm2mqtt.Modem.Lines.{is_command_response, is_call_termination_response, is_urc}
use gsm2mqtt.Modem.Engine.{Engine, urc, respond, process_line, read_byte, read_bytes}

abbrev asking : Engine
asking = record {
  in_flight = some (record { lines = []; ok = false; error = false });
  active_cmd = codes "AT+CSQ";
  prompt = false;
  line_buf = [];
}

-- The header of the message goes to those who listen to reports, its PDU into the command's response.
split_message :
    (read_bytes ascii (codes "+CMT: ,23\r\n07919730\r\n+CSQ: 20,0\r\nOK\r\n") asking).0
    ≡ urc (codes "+CMT: ,23")
      ∷ respond
          (record { lines = codes "07919730" ∷ codes "+CSQ: 20,0" ∷ []; ok = true; error = false })
      ∷ []
unfolding read_bytes read_byte process_line is_command_response is_call_termination_response is_urc
    trim_space trim_left trim_right
split_message = refl
