-- ===== src/Sms.antt =====
-- internal/sms: the delivery tracker and the checks of what is sent.
pub mod Tracker
pub mod Assembler
pub mod Validator
pub mod Translit
