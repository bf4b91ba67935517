-- ===== src/Pool/Facade/Runs.antt =====
-- internal/pool/pool.go: a pool of two modems that hangs up, and its status.
use gsm2mqtt.Base.{none, some, [], ◌∷◌, ◌≡◌, refl, if◌then◌else◌, text_eq}
use gsm2mqtt.Base.Int.{pos}
use gsm2mqtt.Base.Text.{codes}
use gsm2mqtt.Pool.{Pool}
use gsm2mqtt.Pool.Facade.{hangup, hangup_all, status}

abbrev pool : Pool
pool = record {
  strategy = codes "failover";
  modems =
      record { id = codes "a"; status = codes "ready"; signal = pos 20; operator = codes "MTS" }
      ∷ record { id = codes "b"; status = codes "error"; signal = pos 9; operator = codes "Tele2" }
      ∷ [];
  rr_index = 0;
}

one_ready : (status pool).ready_modems ≡ 1
unfolding status
one_ready = refl

first_error :
    hangup (λ m. if text_eq m.id (codes "b") then some (codes "busy") else none) pool
    ≡ some (codes "busy")
unfolding hangup hangup_all
first_error = refl
