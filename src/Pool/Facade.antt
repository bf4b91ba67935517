-- ===== src/Pool/Facade.antt =====
-- internal/pool/pool.go: the other requests to the pool. What a modem answers to each is an argument.
mod Runs
use gsm2mqtt.Base.{
  ℕ, ◌+◌, Bool, true, false, Option, none, some, List, [], ◌∷◌, length, filter_by, if◌then◌else◌,
}
use gsm2mqtt.Pool.{
  ModemMember, Pool, Error, SelectionCriteria, Choice, refused, chosen, is_ready, candidates,
}

-- What Select answers; an index out of range is `no_candidate`.
pub data Selected : Type 0 where
  selected : ModemMember → Selected
  not_selected : Error → Selected
  no_candidate : Selected

abbrev pub first_of : Choice → Selected
first_of (refused e) = not_selected e
first_of (chosen []) = no_candidate
first_of (chosen (m ∷ modems)) = selected m

-- What SendUSSD answers: the text or nothing from the modem that was asked, or the pool's error.
pub data UssdSent : Type 0 where
  answered_by : ModemMember → Option (List ℕ) → UssdSent
  not_asked : Error → UssdSent
  ussd_panic : UssdSent

-- What Dial answers.
pub data Dialled : Type 0 where
  dialled_by : ModemMember → Dialled
  not_dialled : Error → Dialled
  all_refused : Dialled

-- The loop of Dial: the first modem that accepts.
pub try_dial : (ModemMember → Bool) → List ModemMember → Dialled
try_dial accepts [] = all_refused
try_dial accepts (m ∷ modems) =
    let rest = try_dial accepts modems in if accepts m then dialled_by m else rest

abbrev pub dial_by : (ModemMember → Bool) → Choice → Dialled
dial_by accepts (refused e) = not_dialled e
dial_by accepts (chosen modems) = try_dial accepts modems

-- Hangup over the modems, which are all asked: the first error.
pub hangup_all : (ModemMember → Option (List ℕ)) → List ModemMember → Option (List ℕ)
hangup_all error_of [] = none
hangup_all error_of (m ∷ modems) =
    let rest = hangup_all error_of modems in elim (error_of m) [ some e ↦ some e | none ↦ rest ]

pub hangup : (ModemMember → Option (List ℕ)) → Pool → Option (List ℕ)
hangup error_of p = hangup_all error_of p.modems

-- ModemInfo has the four fields of a modem.
pub record Status : Type 0 where
  pub strategy : List ℕ
  pub total_modems : ℕ
  pub ready_modems : ℕ
  pub modems : List ModemMember

pub status : Pool → Status
status p = record {
  strategy = p.strategy;
  total_modems = length p.modems;
  ready_modems = length (filter_by is_ready p.modems);
  modems = p.modems;
}

-- `equal_fold` stands for strings.EqualFold.
module _ (equal_fold : List ℕ → List ℕ → Bool) where
  pub select : Pool → SelectionCriteria → Selected × Pool
  select p criteria = let c = candidates equal_fold p criteria in (first_of c.0, c.1)

  pub send_ussd : (ModemMember → List ℕ → Option (List ℕ)) → Pool → List ℕ → UssdSent × Pool
  send_ussd modem_send_ussd p code =
      let s = select p (record { recipient_number = []; required_modem_id = [] }) in
      (asked s.0, s.1)
    where
      asked : Selected → UssdSent
      asked (selected m) = answered_by m (modem_send_ussd m code)
      asked (not_selected e) = not_asked e
      asked no_candidate = ussd_panic

  pub dial : (ModemMember → List ℕ → Bool) → Pool → List ℕ → Dialled × Pool
  dial modem_dial p number =
      let c =
        candidates equal_fold p (record { recipient_number = number; required_modem_id = [] }) in
      (dial_by (λ m. modem_dial m number) c.0, c.1)
