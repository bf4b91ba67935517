-- ===== src/Config.antt =====
-- internal/config: where settings come from.
pub mod Dotenv
