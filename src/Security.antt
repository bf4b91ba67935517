-- ===== src/Security.antt =====
-- internal/security: phone number filtering, rate limiting and the allowlist of raw AT commands.
pub mod Unicode
pub mod Errors
pub mod Filter
pub mod RateLimit
pub mod Sanitizer
pub mod Recipients
pub mod Mask
