-- ===== src/Services/Call/Invariant.antt =====
-- internal/services/call.go, call_urc.go: what holds of the service between any two steps.
use gsm2mqtt.Services.Call.WellFormed.{WellFormed}
