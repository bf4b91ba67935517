-- ===== src/Services/Ussd.antt =====
-- internal/services/ussd.go: a USSD request and the response that comes later. The channel that a
-- request waits on is known by a number; what goes into a channel, and what onResponse is called with,
-- are effects. The modem's answer and the passing of time are arguments.
mod Runs
use gsm2mqtt.Base.{
  ℕ, Bool, true, false, not, ◌&&◌, ◌||◌, Option, none, some, List, [], ◌∷◌, ◌++◌, ◌==◌,
  if◌then◌else◌,
}
use gsm2mqtt.Base.Text.{codes, has_prefix, trim_space}
use gsm2mqtt.Ussd.{Error, timeout, Response, Parsed, failed, parsed, validate_code, parse_response}

pub record UssdService : Type 0 where
  pub modem_id : List ℕ
  pub pending : Option ℕ

pub new_ussd_service : List ℕ → UssdService
new_ussd_service modem_id = record { modem_id = modem_id; pending = none }

pub data UssdEffect : Type 0 where
  put : ℕ → Response → UssdEffect
  on_response : Response → UssdEffect

pub clear_pending : UssdService → UssdService
clear_pending s = record s { pending = none }

-- What a request comes to, or that it waits.
pub data Progress : Type 0 where
  code_error : Error → Progress
  modem_error : Progress
  inline_response : Parsed → Progress
  waiting : ℕ → Progress

-- strings.Index for `+CUSD:`: the text from there on.
abbrev pub from_cusd : List ℕ → Option (List ℕ)
from_cusd [] = none
from_cusd (r ∷ s) =
    let rest = from_cusd s in if has_prefix (r ∷ s) (codes "+CUSD:") then some (r ∷ s) else rest

abbrev pub first_line : List ℕ → List ℕ
first_line [] = []
first_line (r ∷ s) = let rest = first_line s in if r == 0x0A then [] else r ∷ rest

-- parseInlineCUSD on the text from `+CUSD:` on.
pub parse_inline_cusd : List ℕ → Parsed
parse_inline_cusd line = parse_response (trim_space (first_line line))

abbrev pub announced : Parsed → List UssdEffect
announced (failed e) = []
announced (parsed resp) = on_response resp ∷ []

-- Send behind the modem's answer, `none` for an error, for a request that waits on channel `ch`.
abbrev pub after_modem :
    ℕ → Option (List ℕ) → UssdService → Progress × List UssdEffect × UssdService
after_modem ch none s = (modem_error, [], clear_pending s)
after_modem ch (some out) s = inline (from_cusd out)
  where
    inline : Option (List ℕ) → Progress × List UssdEffect × UssdService
    inline none = (waiting ch, [], s)
    inline (some line) =
        let resp = parse_inline_cusd line in (inline_response resp, announced resp, clear_pending s)

-- Send up to the wait.
pub begin_send :
    ℕ → List ℕ → Option (List ℕ) → UssdService → Progress × List UssdEffect × UssdService
begin_send ch code out s = elim (validate_code code) [
  | some e ↦ (code_error e, [], s)
  | none ↦ after_modem ch out (record s { pending = some ch })
]

-- The end of the wait without a response.
pub time_out : UssdService → Error × UssdService
time_out s = (timeout, clear_pending s)

-- The response into the channel of the request that waits.
abbrev pub put_pending : Option ℕ → Response → List UssdEffect
put_pending none resp = []
put_pending (some ch) resp = put ch resp ∷ []

pub handle_urc : List ℕ → UssdService → List UssdEffect × UssdService
handle_urc urc s =
    let trimmed = trim_space urc in
    if not (has_prefix trimmed (codes "+CUSD:")) then ([], s) else handled (parse_response trimmed)
  where
    handled : Parsed → List UssdEffect × UssdService
    handled (failed e) = ([], s)
    handled (parsed resp) = (put_pending s.pending resp ++ on_response resp ∷ [], clear_pending s)
