-- ===== src/Forwarder/Session/Laws.antt =====
-- What a session of internal/forwarder/forwarder.go forwards, and what it leaves behind.
use at_message_forward.Prelude.{
  Bool, true, false, Option, none, some, List, [], ◌∷◌, ◌++◌, map, ◌≡◌, ◌≢◌, refl, arith, ok, ap,
  Bool-cases, inl, inr,
}
use at_message_forward.Text.{Text}
use at_message_forward.Sms.Pdu.{Event}
use at_message_forward.Forwarder.Executor.{Modem, Executor, clear_modem, clear_of}
use at_message_forward.Forwarder.Session.{
  Output, out_sms, out_raw, out_watchdog, Input, context_done, modem_closed, raw_line, sms_event,
  SessionResult, stopped, closed, closed_reason, with_output, session_loop, World, Settings,
  run_opened_modem_session, run_modem_session, end_session, listen,
}

-- What the modem reports while the session lives.
pub data Report : Type 0 where
  line : Text → Report
  message : Event → Report

abbrev pub input_of : Report → Input
input_of (line t) = raw_line t
input_of (message e) = sms_event e

-- Every SMS is forwarded, and every line if raw lines are asked for.
abbrev pub forwarded : Bool → List Report → List Output
forwarded telegram_raw [] = []
forwarded true (line t ∷ reports) = out_raw t ∷ forwarded true reports
forwarded false (line t ∷ reports) = forwarded false reports
forwarded telegram_raw (message e ∷ reports) = out_sms e ∷ forwarded telegram_raw reports

-- How a session ends, and what it still asks of the sender.
pub data Ending : Type 0 where
  by_context by_modem : Ending

abbrev pub ending_input : Ending → Input
ending_input by_context = context_done
ending_input by_modem = modem_closed

abbrev pub ending_output : Text → Ending → List Output
ending_output port_name by_context = []
ending_output port_name by_modem = out_watchdog (closed_reason port_name) ∷ []

abbrev pub ending_result : Ending → SessionResult
ending_result by_context = stopped
ending_result by_modem = closed

-- Up to its end a session forwards every SMS, and every raw line if `telegram_raw` is set and else
-- none, in the order received. If the modem closed, one watchdog alert follows and the result is
-- `errSerialSessionClosed`; if the context is done, nothing follows and there is no error. What is
-- ready behind the end is not read.
pub session_loop-forwarded :
    (telegram_raw : Bool) (port_name : Text) (reports : List Report) (e : Ending)
    (rest : List Input)
    → session_loop telegram_raw port_name (map input_of reports ++ ending_input e ∷ rest)
      ≡ (forwarded telegram_raw reports ++ ending_output port_name e, some (ending_result e))
unfolding session_loop
session_loop-forwarded r p [] by_context rest = refl
session_loop-forwarded r p [] by_modem rest = refl
session_loop-forwarded true p (line t ∷ reports) e rest =
    ap (with_output (out_raw t)) (session_loop-forwarded true p reports e rest)
session_loop-forwarded false p (line t ∷ reports) e rest =
    session_loop-forwarded false p reports e rest
session_loop-forwarded true p (message m ∷ reports) e rest =
    ap (with_output (out_sms m)) (session_loop-forwarded true p reports e rest)
session_loop-forwarded false p (message m ∷ reports) e rest =
    ap (with_output (out_sms m)) (session_loop-forwarded false p reports e rest)

-- A session that has returned leaves the port closed and its modem out of the executor.
abbrev pub IsClean : Modem → World × Option SessionResult → Type 0
IsClean m (w, none) = Unit {0}
IsClean m (w, some r) = (w.port_open ≡ false) × (w.executor.modem ≢ some m)

clear_of-ne : (m : Modem) (o : Option Modem) → clear_of m o ≢ some m
clear_of-ne m none h = cc
clear_of-ne m (some k) h = ground arith

clear_modem-ne : (m : Modem) (e : Executor) → (clear_modem m e).modem ≢ some m
unfolding clear_modem
clear_modem-ne m e = clear_of-ne m e.modem

end_session-IsClean :
    (m : Modem) (w : World) (out : List Output) (r : Option SessionResult)
    → IsClean m (end_session m w out r)
end_session-IsClean m w out none = tt
end_session-IsClean m w out (some r) = (refl, clear_modem-ne m _)

listen-IsClean :
    (cfg : Settings) (m : Modem) (w : World) (inputs : List Input)
    → IsClean m (listen cfg m w inputs)
listen-IsClean cfg m w inputs =
    let (out, r) = session_loop cfg.telegram_raw cfg.port_name inputs in
    end_session-IsClean m w out r

-- On every path behind a transport that opened, whether initialisation fails, the modem closes or the
-- context is done, a session that returns has closed the port and taken its own modem out of the
-- executor.
pub run_modem_session-IsClean :
    (cfg : Settings) (m : Modem) (initialized : Option Text) (w : World) (inputs : List Input)
    → IsClean m (run_modem_session cfg (ok m) initialized w inputs)
unfolding run_modem_session run_opened_modem_session
run_modem_session-IsClean cfg m none w inputs = listen-IsClean cfg m _ inputs
run_modem_session-IsClean cfg m (some e) w inputs = elim (Bool-cases cfg.init_modem) [
  | inl init ↦ rw init (refl, clear_modem-ne m w.executor)
  | inr skip ↦ rw skip (listen-IsClean cfg m _ inputs)
]
