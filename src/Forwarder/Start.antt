-- ===== src/Forwarder/Start.antt =====
-- `Run` of internal/forwarder/forwarder.go, as the sequence of what it starts and stops. What the Bot API
-- client returns when it is created and when it is initialised is a parameter.
pub mod Laws
use at_message_forward.Prelude.{
  Bool, true, false, Option, none, some, List, [], ◌∷◌, ◌++◌, if◌then◌else◌, Result, ok, err, ℤ,
}
use at_message_forward.Text.{Text, is_empty}
use at_message_forward.Config.{Config}
use at_message_forward.Transport.Select.{SelectError, Transport, new_transport}
use at_message_forward.Telegram.Notify.{SetupError, parse_chat_id, new_service}

pub data Event : Type 0 where
  bot_created : ℤ → Event
  polling_started sender_started watchdog_started : Event
  reconnect_loop_run : Transport → Event
  watchdog_cancelled polling_cancelled bot_closed : Event

pub data StartError : Type 0 where
  token_required : StartError
  setup_failed : SetupError → StartError
  initialize_failed : Text → StartError
  transport_invalid : SelectError → StartError

-- The error at the start, or none if it got to the reconnect loop, which returns only when its context
-- is done; and the events.
pub record Started : Type 0 where
  pub error : Option StartError
  pub events : List Event

abbrev pub refused : StartError → Started
refused e = record { error = some e; events = [] }

-- The deferred calls, the last one first.
abbrev pub deferred : List Event
deferred = watchdog_cancelled ∷ polling_cancelled ∷ bot_closed ∷ []

abbrev pub with_transport : ℤ → Result SelectError Transport → Started
with_transport chat (err e) = record {
  error = some (transport_invalid e);
  events = bot_created chat ∷ polling_started ∷ sender_started ∷ watchdog_started ∷ deferred;
}
with_transport chat (ok t) = record {
  error = none;
  events =
      bot_created chat
      ∷ polling_started
      ∷ sender_started
      ∷ watchdog_started
      ∷ reconnect_loop_run t
      ∷ deferred;
}

abbrev pub initialized : ℤ → Config → Option Text → Started
initialized chat cfg (some e) = record {
  error = some (initialize_failed e);
  events = bot_created chat ∷ bot_closed ∷ [];
}
initialized chat cfg none = with_transport chat (new_transport cfg)

abbrev pub with_bot : Option Text → Config → Result SetupError ℤ → Started
with_bot initialize cfg (err e) = refused (setup_failed e)
with_bot initialize cfg (ok chat) = initialized chat cfg initialize

abbrev pub chat_checked : Result SetupError ℤ → Started → Started
chat_checked (err e) next = refused (setup_failed e)
chat_checked (ok chat) next = next

unfoldable pub start : (Text → Option Text) → Option Text → Config → Started
start create initialize cfg =
    if is_empty cfg.telegram_token
    then refused token_required
    else chat_checked (parse_chat_id cfg.telegram_chat)
        (with_bot initialize cfg (new_service create true cfg))
