-- ===== src/Modem.antt =====
-- internal/modem: the modems.
pub mod Lines
pub mod Engine
