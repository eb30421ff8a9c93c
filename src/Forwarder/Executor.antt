-- ===== src/Forwarder/Executor.antt =====
-- `reconnectableExecutor` of internal/forwarder/forwarder.go. A modem is known by the address of its
-- `*modemat.AT`; what a command returns is a parameter.
pub mod Laws
use at_message_forward.Prelude.{
  ℕ, Bool, Option, none, some, List, ◌==◌, if◌then◌else◌, Result, ok, err,
}
use at_message_forward.Text.{Text}

pub data ExecuteError : Type 0 where
  context_done serial_not_connected : ExecuteError
  command_failed : Text → ExecuteError

abbrev pub Modem : Type 0
Modem = ℕ

pub record Executor : Type 0 where
  pub modem : Option Modem

unfoldable pub set_modem : Modem → Executor → Executor
set_modem m e = record { modem = some m }

abbrev pub clear_of : Modem → Option Modem → Option Modem
clear_of m none = none
clear_of m (some k) = if k == m then none else some k

-- `Clear`: only the modem that is given is taken out.
unfoldable pub clear_modem : Modem → Executor → Executor
clear_modem m e = record { modem = clear_of m e.modem }

abbrev pub run_on :
    (Modem → Text → Result ExecuteError (List Text))
    → Option Modem
    → Text
    → Result ExecuteError (List Text)
run_on command none cmd = err serial_not_connected
run_on command (some m) cmd = command m cmd

-- `ExecuteAT`; `done` is `ctx.Err() != nil`, and `command` is `modem.RunATCommand`.
unfoldable pub execute_at :
    (Modem → Text → Result ExecuteError (List Text))
    → Bool
    → Executor
    → Text
    → Result ExecuteError (List Text)
execute_at command done e cmd = if done then err context_done else run_on command e.modem cmd
