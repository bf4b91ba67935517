-- ===== src/Services/Call/Clip.antt =====
-- internal/services/call_urc.go: the number of an incoming call.
use gsm2mqtt.Base.{ℕ, false, none, some, List, [], ◌∷◌, ◌++◌, ◌==◌, All, ◌≡◌, refl}
use gsm2mqtt.Base.Text.{codes, cut_at, trim_left, trim_right, trim_space, trim_right-append}
use gsm2mqtt.Services.Call.{
  ringing, incoming, CallService, event, event_incoming, no_status, stop_drop_timer,
}
use gsm2mqtt.Services.Call.Urc.{parse_clip_number, handle_clip_urc, handle_urc}

-- The report of a caller, with what the modem adds behind the number.
abbrev pub clip_urc : List ℕ → List ℕ → List ℕ
clip_urc number rest = codes "+CLIP: \"" ++ (number ++ b'"' ∷ rest)

-- The number has no quote in it.
abbrev pub IsUnquoted : List ℕ → Type 0
IsUnquoted number = All (λ (r : ℕ). (r == b'"') ≡ false) number

cut_at-quote :
    (number rest : List ℕ)
    → IsUnquoted number
    → cut_at b'"' (number ++ b'"' ∷ rest) ≡ some (number, rest)
cut_at-quote [] rest h = refl
cut_at-quote (r ∷ number) rest h = rw (h.0, cut_at-quote number rest h.1) refl

trim_space-clip_urc :
    (number rest : List ℕ) → trim_space (clip_urc number rest) ≡ clip_urc number (trim_right rest)
unfolding trim_space trim_left
trim_space-clip_urc number rest = trim_right-append (codes "+CLIP: \"" ++ number) b'"' rest refl

parse_clip_number-clip_urc :
    (number rest : List ℕ) → IsUnquoted number → parse_clip_number (clip_urc number rest) ≡ number
unfolding parse_clip_number trim_space trim_left
parse_clip_number-clip_urc number rest h =
    rw (trim_right-append (b'"' ∷ number) b'"' rest refl, cut_at-quote number (trim_right rest) h)
      refl

-- A number without a quote that the modem reports as the caller is announced as an incoming call from
-- that number, whatever stands behind it; the call rings, with that number.
pub handle_urc-clip_urc :
    (now later : ℕ) (number rest : List ℕ) (s : CallService)
    → IsUnquoted number
    → let r = handle_urc now later (clip_urc number rest) s in
      (r.0
        ≡ event (record {
          type = event_incoming;
          from = number;
          number = number;
          direction = incoming;
          status = no_status;
          digit = [];
          modem_id = s.modem_id;
          duration = 0;
        })
          ∷ [])
      × (r.1.status.state ≡ ringing)
      × (r.1.status.number ≡ number)
      × (r.1.drop_timer ≡ none)
unfolding handle_urc handle_clip_urc stop_drop_timer
handle_urc-clip_urc now later number rest s h =
    rw (trim_space-clip_urc number rest, parse_clip_number-clip_urc number (trim_right rest) h)
      (refl, refl, refl, refl)
