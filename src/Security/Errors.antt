-- ===== src/Security/Errors.antt =====
-- internal/security/errors.go: the sentinel errors. A Go error is an option: `none` is nil.
pub data Error : Type 0 where
  number_blocked number_not_whitelisted invalid_filter_mode empty_phone_number raw_at_disabled :
      Error
  command_blocked empty_command dangerous_chars minute_exceeded hour_exceeded day_exceeded : Error
  per_number_exceeded cooldown_active : Error
