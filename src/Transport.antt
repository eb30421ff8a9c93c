-- ===== src/Transport.antt =====
-- internal/transport: how the modem is reached.
pub mod Serial
pub mod Usb
pub mod Select
mod Examples
