-- ===== src/Pool.antt =====
-- internal/pool/pool.go, strategy.go and errors.go: the choice among modems and the failover.
-- A modem is an interface of the source: its answers about itself are the fields of a record.
pub mod Candidates
pub mod Failover
pub mod Registration
pub mod Facade
mod Runs
use gsm2mqtt.Base.{
  ℕ, zero, suc, ◌+◌, ◌%◌, ◌^◌, Bool, true, false, not, ◌&&◌, ◌||◌, Option, none, some, List, [],
  ◌∷◌, ◌++◌, ltb, leb, ◌==◌, if◌then◌else◌, length, get_or, take, drop, filter_by, text_eq,
}
use gsm2mqtt.Base.Int.{ℤ, pos, negsuc}
use gsm2mqtt.Base.Text.{codes, is_empty, is_digit, has_prefix}

pub record ModemMember : Type 0 where
  pub id : List ℕ
  pub status : List ℕ
  pub signal : ℤ
  pub operator : List ℕ

pub record Pool : Type 0 where
  pub strategy : List ℕ
  pub modems : List ModemMember
  pub rr_index : ℕ

pub record SelectionCriteria : Type 0 where
  pub recipient_number : List ℕ
  pub required_modem_id : List ℕ

pub data Error : Type 0 where
  no_ready_modems modem_not_found all_modems_failed invalid_strategy : Error

abbrev pub strategy_round_robin : List ℕ
strategy_round_robin = codes "round-robin"

abbrev pub strategy_failover : List ℕ
strategy_failover = codes "failover"

abbrev pub strategy_best_signal : List ℕ
strategy_best_signal = codes "best-signal"

abbrev pub strategy_operator_match : List ℕ
strategy_operator_match = codes "operator-match"

abbrev pub is_valid : List ℕ → Bool
is_valid s =
    text_eq s strategy_round_robin
    || text_eq s strategy_failover
    || text_eq s strategy_best_signal
    || text_eq s strategy_operator_match

-- New; `none` is ErrInvalidStrategy.
pub new : List ℕ → Option Pool
new strategy =
    let s = if is_empty strategy then strategy_round_robin else strategy in
    if is_valid s then some (record { strategy = s; modems = []; rr_index = 0 }) else none

pub register_in : ModemMember → List ModemMember → List ModemMember
register_in m [] = m ∷ []
register_in m (existing ∷ modems) =
    let rest = register_in m modems in
    if text_eq existing.id m.id then m ∷ modems else existing ∷ rest

pub register : ModemMember → Pool → Pool
register m p = record p { modems = register_in m p.modems }

pub unregister_in : List ℕ → List ModemMember → List ModemMember
unregister_in id [] = []
unregister_in id (m ∷ modems) =
    let rest = unregister_in id modems in if text_eq m.id id then modems else m ∷ rest

pub unregister : List ℕ → Pool → Pool
unregister id p = record p { modems = unregister_in id p.modems }

abbrev pub ltz : ℤ → ℤ → Bool
ltz (pos a) (pos b) = ltb a b
ltz (pos a) (negsuc b) = false
ltz (negsuc a) (pos b) = true
ltz (negsuc a) (negsuc b) = ltb b a

-- pickBestSignal on `best ∷ modems`.
pub pick_best_signal : ModemMember → List ModemMember → ModemMember
pick_best_signal best [] = best
pick_best_signal best (m ∷ modems) =
    pick_best_signal (if ltz best.signal m.signal then m else best) modems

abbrev pub extract_digits : List ℕ → List ℕ
extract_digits s = filter_by is_digit s

abbrev pub is_mts_prefix : List ℕ → Bool
is_mts_prefix p = has_prefix p (codes "91") || has_prefix p (codes "98")

abbrev pub is_mega_fon_prefix : List ℕ → Bool
is_mega_fon_prefix p = has_prefix p (codes "92") || has_prefix p (codes "93")

abbrev pub is_beeline_prefix : List ℕ → Bool
is_beeline_prefix p =
    has_prefix p (codes "96")
    || text_eq p (codes "903")
    || text_eq p (codes "905")
    || text_eq p (codes "906")
    || text_eq p (codes "909")

abbrev pub is_tele2_prefix : List ℕ → Bool
is_tele2_prefix p =
    has_prefix p (codes "95")
    || has_prefix p (codes "99")
    || text_eq p (codes "977")
    || text_eq p (codes "900")
    || text_eq p (codes "901")
    || text_eq p (codes "902")
    || text_eq p (codes "904")
    || text_eq p (codes "908")

abbrev pub operator_of_prefix : List ℕ → List ℕ
operator_of_prefix p =
    if is_mts_prefix p
    then codes "MTS"
    else (if is_mega_fon_prefix p
        then codes "MegaFon"
        else (if is_beeline_prefix p
            then codes "Beeline"
            else (if is_tele2_prefix p then codes "Tele2" else [])))

pub detect_operator_by_number : List ℕ → List ℕ
detect_operator_by_number number =
    let digits = extract_digits number in
    if ltb (length digits) 4
    then []
    else (if has_prefix digits (codes "7") || has_prefix digits (codes "8")
        then operator_of_prefix (take 3 (drop 1 digits))
        else operator_of_prefix (take 3 digits))

-- The loop of prependCandidate.
pub without_id : List ℕ → List ModemMember → List ModemMember
without_id id [] = []
without_id id (m ∷ modems) =
    let rest = without_id id modems in if text_eq m.id id then rest else m ∷ rest

pub prepend_candidate : List ModemMember → ModemMember → List ModemMember
prepend_candidate modems first = first ∷ without_id first.id modems

-- The loop of the round robin over `i`, for `n` more modems; `m` is never taken.
pub rotate : ModemMember → List ModemMember → ℕ → ℕ → ℕ → List ModemMember
rotate m ready start i zero = []
rotate m ready start i (suc n) =
    get_or ready ((start + i) % length ready) m ∷ rotate m ready start (i + 1) n

abbrev pub is_ready : ModemMember → Bool
is_ready m = text_eq m.status (codes "ready")

-- What Candidates returns: modems or an error.
pub data Choice : Type 0 where
  chosen : List ModemMember → Choice
  refused : Error → Choice

pub data Sent : Type 0 where
  sent : List ℕ → Sent
  not_sent : Error → Sent

-- The loop of SendSMS: `attempt` is the modem's SendSMS, `none` an error.
pub try_modems : (ModemMember → Option (List ℕ)) → List ModemMember → Sent
try_modems attempt [] = not_sent all_modems_failed
try_modems attempt (m ∷ modems) = elim (attempt m) [
  | some ref ↦ sent ref
  | none ↦ try_modems attempt modems
]

pub send_by : (ModemMember → Option (List ℕ)) → Choice → Sent
send_by attempt (refused e) = not_sent e
send_by attempt (chosen modems) = try_modems attempt modems

-- `equal_fold` stands for strings.EqualFold.
module _ (equal_fold : List ℕ → List ℕ → Bool) where
  pub match_operator : List ℕ → ModemMember → List ModemMember → ModemMember
  match_operator target_op default [] = default
  match_operator target_op default (m ∷ modems) =
      if equal_fold m.operator target_op then m else match_operator target_op default modems

  -- pickOperatorMatch on `m ∷ modems`.
  pub pick_operator_match : ModemMember → List ModemMember → List ℕ → ModemMember
  pick_operator_match m modems number =
      let target_op = detect_operator_by_number number in
      if is_empty target_op then m else match_operator target_op m (m ∷ modems)

  -- orderCandidates on `m ∷ modems`, with the pool behind it.
  pub order_candidates :
      Pool → ModemMember → List ModemMember → SelectionCriteria → List ModemMember × Pool
  order_candidates p m modems criteria =
      let ready = m ∷ modems in
      if text_eq p.strategy strategy_failover
      then (ready, p)
      else (if text_eq p.strategy strategy_best_signal
          then (prepend_candidate ready (pick_best_signal m modems), p)
          else (if text_eq p.strategy strategy_operator_match
              then (
                prepend_candidate ready (pick_operator_match m modems criteria.recipient_number),
                p,
              )
              else (
                rotate m ready (p.rr_index % length ready) 0 (length ready),
                record p { rr_index = (p.rr_index + 1) % 2 ^ 64 },
              )))

  pub required : List ℕ → List ModemMember → Choice
  required id [] = refused modem_not_found
  required id (m ∷ modems) =
      if text_eq m.id id && is_ready m then chosen (m ∷ []) else required id modems

  -- The end of Candidates, on the ready modems.
  pub order_ready : Pool → List ModemMember → SelectionCriteria → Choice × Pool
  order_ready p [] criteria = (refused no_ready_modems, p)
  order_ready p (m ∷ modems) criteria =
      let ordered = order_candidates p m modems criteria in (chosen ordered.0, ordered.1)

  pub candidates : Pool → SelectionCriteria → Choice × Pool
  candidates p criteria =
      if length p.modems == 0
      then (refused no_ready_modems, p)
      else (if not (is_empty criteria.required_modem_id)
          then (required criteria.required_modem_id p.modems, p)
          else order_ready p (filter_by is_ready p.modems) criteria)

  pub send_sms :
      (ModemMember → List ℕ → List ℕ → Option (List ℕ)) → Pool → List ℕ → List ℕ → Sent × Pool
  send_sms modem_send_sms p to text =
      let c = candidates p (record { recipient_number = to; required_modem_id = [] }) in
      (send_by (λ m. modem_send_sms m to text) c.0, c.1)
