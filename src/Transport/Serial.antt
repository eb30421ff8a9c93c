-- ===== src/Transport/Serial.antt =====
-- internal/transport/serial/serial.go.
pub mod Rank
pub mod Probe
pub mod Detect
pub mod Score
use at_message_forward.Prelude.{Bool, ℤ}
use at_message_forward.Text.{Text}

pub record Candidate : Type 0 where
  pub port : Text
  pub source : Text
  pub score : ℤ
  pub probe_attempted : Bool
  pub probe_ok : Bool
  pub probe_error : Text
