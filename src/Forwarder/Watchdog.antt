-- ===== src/Forwarder/Watchdog.antt =====
-- `runSerialWatchdog` of internal/forwarder/forwarder.go, one tick at a time. The counter grows by one
-- a minute and stays far below the range of an `int`.
pub mod Streak
use at_message_forward.Prelude.{
  ℕ, suc, ◌+◌, Bool, true, false, ◌||◌, Option, none, some, List, [], ◌∷◌, ltb, if◌then◌else◌,
  Result, ok, err,
}
use at_message_forward.Text.{Text}

abbrev pub serial_watchdog_threshold : ℕ
serial_watchdog_threshold = 3

pub record Watchdog : Type 0 where
  pub failures : ℕ
  pub alerted : Bool

abbrev pub initial : Watchdog
initial = record { failures = 0; alerted = false }

-- What the reason of an alert prints: the count, and the error of the last probe.
pub record Alert : Type 0 where
  pub failures : ℕ
  pub error : Text

-- What `probeSerial` returns: no error, or an error with its text.
abbrev pub Probe : Type 0
Probe = Option Text

-- The body of the case for a tick.
unfoldable pub tick : Watchdog → Probe → Watchdog × Option Alert
tick w none = (record { failures = 0; alerted = false }, none)
tick w (some error) =
    let failures = w.failures + 1 in
    if ltb failures serial_watchdog_threshold || w.alerted
    then (record w { failures = failures }, none)
    else (
      record { failures = failures; alerted = true },
      some (record { failures = failures; error = error }),
    )

-- The alerts of each tick.
unfoldable pub watch : Watchdog → List Probe → List (Option Alert)
watch w [] = []
watch w (p ∷ probes) = let (w', alert) = tick w p in alert ∷ watch w' probes
