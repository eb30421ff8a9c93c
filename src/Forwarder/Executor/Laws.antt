-- ===== src/Forwarder/Executor/Laws.antt =====
-- Sessions that follow one another on `reconnectableExecutor` of internal/forwarder/forwarder.go.
use at_message_forward.Prelude.{◌≡◌, ◌≢◌, arith, Result, err, List, false}
use at_message_forward.Text.{Text}
use at_message_forward.Forwarder.Executor.{
  Modem, Executor, set_modem, clear_modem, execute_at, ExecuteError, serial_not_connected,
}

-- A session that ends late does not take out the modem of the session that came after it: after it
-- has cleared its own modem, commands still go to the new one. A session that clears the modem that
-- is set leaves none, and a command then reports that the port is not connected.
pub execute_at-clear_modem :
    (command : Modem → Text → Result ExecuteError (List Text)) (old new : Modem) (e : Executor)
    (cmd : Text)
    → old ≢ new
    → (execute_at command false (clear_modem old (set_modem new e)) cmd ≡ command new cmd)
      × (execute_at command false (clear_modem new (set_modem new e)) cmd
          ≡ err serial_not_connected)
unfolding execute_at clear_modem set_modem
execute_at-clear_modem command old new e cmd h = (ground arith, ground arith)
