-- ===== src/Forwarder/Examples.antt =====
-- The theorems on internal/forwarder/forwarder.go at concrete inputs.
use at_message_forward.Prelude.{
  ◌↔◌, All, map, true, false, List, [], ◌∷◌, ◌++◌, none, some, Result, ok, err, pos, ◌≡◌, refl,
  arith,
}
use at_message_forward.Text.{Text, codes}
use at_message_forward.Config.{Config, default}
use at_message_forward.Forwarder.Start.{start}
use at_message_forward.Forwarder.Start.Laws.{IsReady, IsOrderly, start-IsOrderly}
use at_message_forward.Sms.Pdu.{Event}
use at_message_forward.Forwarder.Backoff.{
  Round, running, session_closed, session_failed, run_reconnect_loop,
}
use at_message_forward.Forwarder.Backoff.Schedule.{IsLive, run_reconnect_loop-schedule}
use at_message_forward.Forwarder.Backoff.Bounds.{
  InRange, run_reconnect_loop-InRange, run_reconnect_loop-running,
}
use at_message_forward.Forwarder.Watchdog.{Probe, initial, watch}
use at_message_forward.Forwarder.Watchdog.Streak.{watch-initial}
use at_message_forward.Forwarder.Executor.{
  Modem, execute_at, clear_modem, set_modem, serial_not_connected, ExecuteError,
}
use at_message_forward.Forwarder.Executor.Laws.{execute_at-clear_modem}
use at_message_forward.Forwarder.Sender.{
  Sender, Step, idle, run, new_sender, enqueue_sms, enqueue_raw, receive_important, finish_send,
  sms_item, raw_item, step, enqueue_important, push_raw,
}
use at_message_forward.Forwarder.Sender.Order.{IsValid}
use at_message_forward.Forwarder.Sender.Invariant.{run-IsValid}
use at_message_forward.Forwarder.Session.{
  modem_closed, sms_event, session_loop, Settings, World, run_modem_session,
}
use at_message_forward.Forwarder.Session.Laws.{
  Report, line, message, by_modem, forwarded, input_of, ending_output, ending_result, IsClean,
  session_loop-forwarded, run_modem_session-IsClean,
}

abbrev failed : Round
failed = record {
  done_before = false;
  ended = session_failed;
  done_after = false;
  wait_failed = false;
}

abbrev closed : Round
closed = record {
  done_before = false;
  ended = session_closed;
  done_after = false;
  wait_failed = false;
}

abbrev rounds : List Round
rounds = failed ∷ failed ∷ failed ∷ closed ∷ failed ∷ []

run_reconnect_loop-schedule_example :
    run_reconnect_loop (record { initial_backoff = pos 2; max_backoff = pos 5 }) rounds
    ≡ record { sessions = 5; waits = pos 2 ∷ pos 4 ∷ pos 5 ∷ pos 2 ∷ pos 2 ∷ []; status = running }
run_reconnect_loop-schedule_example =
    run_reconnect_loop-schedule 2 5 rounds (omega arith, omega arith, omega arith)
      (
        (refl, refl, refl),
        ((refl, refl, refl), ((refl, refl, refl), ((refl, refl, refl), ((refl, refl, refl), tt)))),
      )

run_reconnect_loop-InRange_example :
    All
      (InRange 2 5)
      (run_reconnect_loop (record { initial_backoff = pos 2; max_backoff = pos 5 }) rounds).waits
run_reconnect_loop-InRange_example =
    run_reconnect_loop-InRange 2 5 rounds (omega arith, omega arith, omega arith)

run_reconnect_loop-running_example :
    ((run_reconnect_loop (record { initial_backoff = pos 0; max_backoff = pos 0 }) rounds).status
      ≡ running)
    ↔ All IsLive rounds
run_reconnect_loop-running_example =
    run_reconnect_loop-running (record { initial_backoff = pos 0; max_backoff = pos 0 }) rounds

abbrev probes : List Probe
probes =
    some (codes "a")
    ∷ none
    ∷ some (codes "b")
    ∷ some (codes "c")
    ∷ some (codes "d")
    ∷ some (codes "e")
    ∷ []

watch-initial_example :
    watch initial probes
    ≡ none ∷ none ∷ none ∷ none ∷ some (record { failures = 3; error = codes "d" }) ∷ none ∷ []
watch-initial_example = watch-initial probes

abbrev answers : Modem → Text → Result ExecuteError (List Text)
answers m cmd = ok (cmd ∷ [])

execute_at-clear_modem_example :
    (execute_at answers false (clear_modem 1 (set_modem 2 (record { modem = none }))) (codes "+CSQ")
      ≡ answers 2 (codes "+CSQ"))
    × (execute_at answers false
          (clear_modem 2 (set_modem 2 (record { modem = none })))
          (codes "+CSQ")
        ≡ err serial_not_connected)
execute_at-clear_modem_example =
    execute_at-clear_modem answers 1 2 (record { modem = none }) (codes "+CSQ") (omega arith)

abbrev hello : Event
hello = record { from = codes "123"; text = codes "hello"; at = 1 }

abbrev steps : List Step
steps = enqueue_raw (codes "x") ∷ enqueue_sms hello ∷ receive_important ∷ finish_send ∷ []

abbrev reached : Sender
reached = record {
  important = [];
  raw = raw_item (codes "x") ∷ [];
  worker = idle;
  done = false;
  notified = sms_item hello ∷ [];
  entered_important = sms_item hello ∷ [];
  entered_raw = raw_item (codes "x") ∷ [];
  given_up = [];
}

run-IsValid_example : IsValid reached
unfolding run step enqueue_important push_raw new_sender
run-IsValid_example = run-IsValid steps reached refl

abbrev reports : List Report
reports = line (codes "x") ∷ message hello ∷ []

session_loop-forwarded_example :
    session_loop false (codes "p") (map input_of reports ++ modem_closed ∷ sms_event hello ∷ [])
    ≡ (forwarded false reports ++ ending_output (codes "p") by_modem, some (ending_result by_modem))
session_loop-forwarded_example =
    session_loop-forwarded false (codes "p") reports by_modem (sms_event hello ∷ [])

abbrev world : World
world = record { executor = record { modem = none }; port_open = false; outputs = [] }

abbrev settings : Settings
settings = record { init_modem = true; telegram_raw = false; port_name = codes "p" }

run_modem_session-IsClean_example :
    IsClean 1 (run_modem_session settings (ok 1) none world (sms_event hello ∷ modem_closed ∷ []))
run_modem_session-IsClean_example =
    run_modem_session-IsClean settings 1 none world (sms_event hello ∷ modem_closed ∷ [])

abbrev configured : Config
configured = record default {
  transport = codes "USB";
  usb_vendor = codes "0x2c7c";
  telegram_token = codes "123:abc";
  telegram_chat = codes "-1001234567890";
}

start-IsOrderly_example :
    IsOrderly (IsReady (λ token. none) none configured) (start (λ token. none) none configured)
start-IsOrderly_example = start-IsOrderly (λ token. none) none configured
