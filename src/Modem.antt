-- ===== src/Modem.antt =====
-- internal/modem/modem.go.
pub mod Channels
pub mod Init
mod Examples
