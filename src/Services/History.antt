-- ===== src/Services/History.antt =====
-- internal/services/call_history.go: the calls of a modem. The identifier and the time that a record
-- without them gets are arguments, and the file and the publication are left out.
pub mod Bounds
use gsm2mqtt.Base.{ℕ, ◌-◌, Bool, true, false, List, [], ◌∷◌, ◌++◌, ltb, if◌then◌else◌, length, drop}
use gsm2mqtt.Base.Text.{is_empty}

-- maxCallHistory.
abbrev pub max_call_history : ℕ
max_call_history = 100

pub record CallRecord : Type 0 where
  pub id : List ℕ
  pub modem_id : List ℕ
  pub number : List ℕ
  pub direction : List ℕ
  pub status : List ℕ
  pub duration : ℕ
  pub timestamp : List ℕ

-- The record with the fields that it lacks.
abbrev pub completed_record : List ℕ → List ℕ → List ℕ → CallRecord → CallRecord
completed_record fresh_id modem_id now r = record r {
  id = if is_empty r.id then fresh_id else r.id;
  modem_id = if is_empty r.modem_id then modem_id else r.modem_id;
  timestamp = if is_empty r.timestamp then now else r.timestamp;
}

pub record_call : List ℕ → List ℕ → List ℕ → CallRecord → List CallRecord → List CallRecord
record_call fresh_id modem_id now r history =
    let longer = history ++ completed_record fresh_id modem_id now r ∷ [] in
    if ltb max_call_history (length longer)
    then drop (length longer - max_call_history) longer
    else longer

pub clear_call_history : List CallRecord → List CallRecord
clear_call_history history = []
