-- ===== src/Services/Ussd/Runs.antt =====
-- internal/services/ussd.go: requests at concrete inputs.
use gsm2mqtt.Base.{some, [], ◌∷◌, ◌≡◌, refl, false}
use gsm2mqtt.Base.Int.{pos}
use gsm2mqtt.Base.Text.{codes, trim_space, trim_left, trim_right}
use gsm2mqtt.Ussd.{Response, completed, parse_response, validate_code, decode_message}
use gsm2mqtt.Services.Ussd.{
  UssdService, put, on_response, new_ussd_service, clear_pending, begin_send, time_out, handle_urc,
}

abbrev balance : Response
balance = record {
  status = completed;
  message = codes "12.50 rub";
  dcs = pos 15;
  action_required_now = false;
}

abbrev waiting_one : UssdService
waiting_one = (begin_send 1 (codes "*100#") (some []) (new_ussd_service (codes "m1"))).2

-- The response goes to the request that waits.
answered :
    (handle_urc (codes "+CUSD: 0,\"12.50 rub\",15") waiting_one).0
    ≡ put 1 balance ∷ on_response balance ∷ []
unfolding handle_urc parse_response decode_message begin_send validate_code new_ussd_service
    clear_pending trim_space trim_left trim_right
answered = refl

-- A second request while the first one waits: when the first one's time is out, the response to the second
-- reaches neither of them.
abbrev crossed : UssdService
crossed = (time_out (begin_send 2 (codes "*102#") (some []) waiting_one).2).1

lost : (handle_urc (codes "+CUSD: 0,\"12.50 rub\",15") crossed).0 ≡ on_response balance ∷ []
unfolding handle_urc parse_response decode_message begin_send time_out validate_code
    new_ussd_service clear_pending trim_space trim_left trim_right
lost = refl
