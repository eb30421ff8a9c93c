-- ===== src/Forwarder/Session.antt =====
-- `runModemSession` and `runOpenedModemSession` of internal/forwarder/forwarder.go. What the modem
-- library and the transport return, and the order in which the cases of `select` are taken, are
-- arguments. The channels between the modem library and this loop are in Modem/Channels.
pub mod Laws
use at_message_forward.Prelude.{
  ℕ, Bool, true, false, Option, none, some, List, [], ◌∷◌, ◌++◌, if◌then◌else◌, Result, ok, err,
}
use at_message_forward.Text.{Text, codes}
use at_message_forward.Sms.Pdu.{Event}
use at_message_forward.Forwarder.Backoff.{SessionEnd, session_closed, session_failed, session_ended}
use at_message_forward.Forwarder.Executor.{Modem, Executor, set_modem, clear_modem}

-- What a session asks of the sender, in order.
pub data Output : Type 0 where
  out_sms : Event → Output
  out_raw : Text → Output
  out_watchdog : Text → Output

-- What the loop may receive.
pub data Input : Type 0 where
  context_done modem_closed : Input
  raw_line : Text → Input
  sms_event : Event → Input

-- `return nil`, `errSerialSessionClosed`, and the two wrapped errors.
pub data SessionResult : Type 0 where
  stopped closed : SessionResult
  init_failed open_failed : Text → SessionResult

-- What `errors.Is` makes of it in the reconnect loop.
unfoldable pub end_of : SessionResult → SessionEnd
end_of stopped = session_ended
end_of closed = session_closed
end_of (init_failed e) = session_failed
end_of (open_failed e) = session_failed

abbrev pub closed_reason : Text → Text
closed_reason port_name = codes "serial connection closed on " ++ port_name

abbrev pub with_output :
    Output → List Output × Option SessionResult → List Output × Option SessionResult
with_output o (os, r) = (o ∷ os, r)

-- The loop; `none` is a loop that still waits.
unfoldable pub session_loop : Bool → Text → List Input → List Output × Option SessionResult
session_loop telegram_raw port_name [] = ([], none)
session_loop telegram_raw port_name (context_done ∷ inputs) = ([], some stopped)
session_loop telegram_raw port_name (modem_closed ∷ inputs) =
    (out_watchdog (closed_reason port_name) ∷ [], some closed)
session_loop telegram_raw port_name (raw_line line ∷ inputs) =
    let rest = session_loop telegram_raw port_name inputs in
    if telegram_raw then with_output (out_raw line) rest else rest
session_loop telegram_raw port_name (sms_event event ∷ inputs) =
    with_output (out_sms event) (session_loop telegram_raw port_name inputs)

-- The executor and the port beside what the session has asked of the sender.
pub record World : Type 0 where
  pub executor : Executor
  pub port_open : Bool
  pub outputs : List Output

-- The deferred calls.
abbrev pub clean_up : Modem → World → World
clean_up m w = record w { executor = clear_modem m w.executor; port_open = false }

abbrev pub end_session :
    Modem → World → List Output → Option SessionResult → World × Option SessionResult
end_session m w out none =
    (record w { executor = set_modem m w.executor; outputs = w.outputs ++ out }, none)
end_session m w out (some r) = (
  clean_up m (record w { executor = set_modem m w.executor; outputs = w.outputs ++ out }),
  some r,
)

-- The session's settings: `cfg.InitModem`, `cfg.TelegramRaw`, and the name of the port.
pub record Settings : Type 0 where
  pub init_modem : Bool
  pub telegram_raw : Bool
  pub port_name : Text

abbrev pub listen : Settings → Modem → World → List Input → World × Option SessionResult
listen cfg m w inputs =
    let (out, r) = session_loop cfg.telegram_raw cfg.port_name inputs in end_session m w out r

-- `initialized` is the error of `modem.Init`, if it returned one.
unfoldable pub run_opened_modem_session :
    Settings → Modem → Option Text → World → List Input → World × Option SessionResult
run_opened_modem_session cfg m none w inputs = listen cfg m w inputs
run_opened_modem_session cfg m (some e) w inputs =
    if cfg.init_modem then (clean_up m w, some (init_failed e)) else listen cfg m w inputs

-- `link` is what `tr.Open` returned.
unfoldable pub run_modem_session :
    Settings → Result Text Modem → Option Text → World → List Input → World × Option SessionResult
run_modem_session cfg (err e) initialized w inputs = (w, some (open_failed e))
run_modem_session cfg (ok m) initialized w inputs =
    run_opened_modem_session cfg m initialized (record w { port_open = true }) inputs
