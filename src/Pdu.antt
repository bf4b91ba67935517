-- ===== src/Pdu.antt =====
-- internal/sms/pdu: 3GPP TS 23.040 and 23.038 encoding and decoding.
pub mod Septets
pub mod Alphabet
pub mod Ucs2
pub mod Address
pub mod Timestamp
pub mod Types
pub mod Encode
pub mod Decode
