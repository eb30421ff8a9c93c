-- ===== src/Sms.antt =====
-- internal/sms/sms.go.
pub mod Hex
pub mod Alphabet
pub mod Gsm7
pub mod Ucs2
pub mod Pdu
pub mod Indication
pub mod Delivery
pub mod Tests
mod Examples
