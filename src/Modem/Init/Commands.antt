-- ===== src/Modem/Init/Commands.antt =====
-- Which commands `initModem` of internal/modem/modem.go sends.
use at_message_forward.Prelude.{ℕ, zero, suc, true, List, [], ◌∷◌, ◌++◌, Option, ok, ◌≡◌}
use at_message_forward.Text.{Text}
use at_message_forward.Modem.Init.{Commander, cpin_command, has_line, cpin_ready_line}

-- `n` questions for the state of the SIM.
unfoldable pub questions : ℕ → List Text
questions zero = []
questions (suc n) = cpin_command ∷ questions n

-- The commands behind `n` questions, and the answer to the next.
pub SawReady : Commander → List Text → ℕ → List Text → Type 0
SawReady modem sent n lines =
    (modem (sent ++ questions n) cpin_command ≡ ok lines) × (has_line lines cpin_ready_line ≡ true)
