-- ===== src/Modem/Engine.antt =====
-- internal/modem/at/engine.go: what becomes of the bytes and lines that the modem sends. The command in
-- flight is a record with its response so far; what is sent on a channel is an effect. A byte is a code
-- point, the text of a line the list of its bytes.
mod Runs
use gsm2mqtt.Base.{
  ℕ, ◌+◌, Bool, true, false, not, ◌&&◌, ◌||◌, Option, none, some, List, [], ◌∷◌, ◌++◌, ltb, ◌==◌,
  if◌then◌else◌, length, text_eq,
}
use gsm2mqtt.Base.Text.{codes, is_empty, has_prefix, trim_space}
use gsm2mqtt.Security.Unicode.{Unicode}
use gsm2mqtt.Modem.Lines.{is_call_termination_response, is_command_response, is_urc}

pub record Response : Type 0 where
  pub lines : List (List ℕ)
  pub ok : Bool
  pub error : Bool

-- The engine's state: the command in flight with its response, if there is one, whether it waits for a
-- prompt, and the bytes of the line that is being read.
pub record Engine : Type 0 where
  pub in_flight : Option Response
  pub active_cmd : List ℕ
  pub prompt : Bool
  pub line_buf : List ℕ

pub data EngineEffect : Type 0 where
  urc : List ℕ → EngineEffect
  respond : Response → EngineEffect
  prompted : EngineEffect

pub clear_in_flight : Engine → Engine
clear_in_flight e = record e { in_flight = none; active_cmd = []; prompt = false }

abbrev pub is_error_line : List ℕ → Bool
is_error_line line =
    text_eq line (codes "ERROR")
    || has_prefix line (codes "+CME ERROR:")
    || has_prefix line (codes "+CMS ERROR:")

-- A line while a command is in flight.
abbrev pub answer_line : Unicode → List ℕ → Response → Engine → List EngineEffect × Engine
answer_line unicode line r e =
    let failed = record r { error = true; lines = r.lines ++ line ∷ [] } in
    if text_eq line e.active_cmd
    then ([], e)
    else (if is_call_termination_response unicode e.active_cmd line
        then (respond failed ∷ [], record e { in_flight = none })
        else (if not (is_command_response unicode e.active_cmd line) && is_urc line
            then (urc line ∷ [], e)
            else (if text_eq line (codes "OK")
                then (respond (record r { ok = true }) ∷ [], record e { in_flight = none })
                else (if is_error_line line
                    then (respond failed ∷ [], record e { in_flight = none })
                    else (
                      [],
                      record e { in_flight = some (record r { lines = r.lines ++ line ∷ [] }) },
                    )))))

pub process_line : Unicode → List ℕ → Engine → List EngineEffect × Engine
process_line unicode line e = handle e.in_flight
  where
    handle : Option Response → List EngineEffect × Engine
    handle none = (urc line ∷ [], e)
    handle (some r) = answer_line unicode line r e

-- The end of a line in Start's loop.
abbrev pub end_line : Unicode → Engine → List EngineEffect × Engine
end_line unicode e =
    let line = trim_space e.line_buf in
    let cleared = record e { line_buf = [] } in
    if is_empty line || text_eq line (codes ">")
    then ([], cleared)
    else process_line unicode line cleared

-- One byte in Start's loop.
pub read_byte : Unicode → ℕ → Engine → List EngineEffect × Engine
read_byte unicode b e =
    let longer = e.line_buf ++ b ∷ [] in
    if b == b'>'
    then (if e.prompt then prompted ∷ [] else [], record e { line_buf = [] })
    else (if b == 0x0A
        then end_line unicode e
        else (if b == 0x0D
            then ([], e)
            else ([], record e { line_buf = if ltb 4096 (length longer) then [] else longer })))

pub read_bytes : Unicode → List ℕ → Engine → List EngineEffect × Engine
read_bytes unicode [] e = ([], e)
read_bytes unicode (b ∷ bytes) e =
    let first = read_byte unicode b e in
    let rest = read_bytes unicode bytes first.1 in (first.0 ++ rest.0, rest.1)
