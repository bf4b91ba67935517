-- ===== src/Services/History/Bounds.antt =====
-- internal/services/call_history.go: the length of the history.
use gsm2mqtt.Base.{
  ℕ, ◌+◌, ◌-◌, ◌≤◌, List, [], ◌∷◌, ◌++◌, ltb, if◌then◌else◌, length, length-append, length-drop,
  Bool-cases, ◌≡◌, inl, inr, arith,
}
use gsm2mqtt.Services.History.{CallRecord, completed_record, record_call}

-- A call more makes the history one longer, up to a hundred.
pub length-record_call :
    (fresh_id modem_id now : List ℕ) (r : CallRecord) (history : List CallRecord)
    → length history ≤ 100
    → length (record_call fresh_id modem_id now r history)
      ≡ (if ltb (length history) 100 then length history + 1 else 100)
unfolding record_call
length-record_call fresh_id modem_id now r history h =
    let longer = history ++ completed_record fresh_id modem_id now r ∷ [] in
    let more = length-append history (completed_record fresh_id modem_id now r ∷ []) in
    elim (Bool-cases (ltb 100 (length longer))) [
      | inl f ↦ rw f (ground (arith, length-drop (length longer - 100) longer, more, h, f))
      | inr f ↦ rw f (ground (arith, more, h, f))
    ]
