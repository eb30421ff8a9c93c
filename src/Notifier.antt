-- ===== src/Notifier.antt =====
-- internal/notifier/notifier.go: the messages that are pushed out.
use at_message_forward.Prelude.{[]}
use at_message_forward.Text.{Text}
use at_message_forward.Sms.Pdu.{Event}

pub data Kind : Type 0 where
  kind_sms kind_raw kind_watchdog : Kind

pub record Message : Type 0 where
  pub kind : Kind
  pub sms : Event
  pub text : Text

-- The zero value of `sms.Event`.
abbrev pub no_event : Event
no_event = record { from = []; text = []; at = 0 }

unfoldable pub sms_message : Event → Message
sms_message event = record { kind = kind_sms; sms = event; text = [] }

unfoldable pub raw_message : Text → Message
raw_message line = record { kind = kind_raw; sms = no_event; text = line }

unfoldable pub watchdog_message : Text → Message
watchdog_message reason = record { kind = kind_watchdog; sms = no_event; text = reason }
