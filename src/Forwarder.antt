-- ===== src/Forwarder.antt =====
-- internal/forwarder/forwarder.go.
pub mod Backoff
pub mod Watchdog
pub mod Session
pub mod Sender
pub mod Executor
pub mod Start
mod Examples
