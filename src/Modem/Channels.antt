-- ===== src/Modem/Channels.antt =====
-- The indication handlers that `NewAT` of internal/modem/modem.go registers, and the two buffered
-- channels that they fill. A handler runs in the modem library's goroutine and never waits.
pub mod Laws
use at_message_forward.Prelude.{ℕ, List, [], ◌∷◌, ◌++◌, ltb, if◌then◌else◌, length, Result, ok, err}
use at_message_forward.Text.{Text}
use at_message_forward.Sms.Hex.{Error}
use at_message_forward.Sms.Pdu.{Event}
use at_message_forward.Sms.Indication.{parse_cmt_indication}

-- `make(chan string, 32)` and `make(chan sms.Event, 8)` of the session.
abbrev pub raw_lines_cap : ℕ
raw_lines_cap = 32

abbrev pub events_cap : ℕ
events_cap = 8

pub record Channels : Type 0 where
  pub raw_lines : List Text
  pub events : List Event

-- `select { case ch <- x: default: }`: a value that does not fit is dropped.
abbrev pub offer {ℓ} : {A : Type ℓ} → ℕ → A → List A → List A
offer cap x queue = if ltb (length queue) cap then queue ++ x ∷ [] else queue

unfoldable pub emit_raw_lines : List Text → List Text → List Text
emit_raw_lines queue [] = queue
emit_raw_lines queue (line ∷ lines) = emit_raw_lines (offer raw_lines_cap line queue) lines

unfoldable pub emit_sms_event : List Event → Event → List Event
emit_sms_event queue event = offer events_cap event queue

abbrev pub emit_parsed : Result Error Event → Channels → Channels
emit_parsed (ok event) c = record c { events = emit_sms_event c.events event }
emit_parsed (err e) c = c

-- The handler of `+CMT:`.
unfoldable pub on_cmt : ℕ → List Text → Channels → Channels
on_cmt now lines c =
    emit_parsed (parse_cmt_indication now lines)
      (record c { raw_lines = emit_raw_lines c.raw_lines lines })

-- The handlers of `+CMTI:` and of `+CDS:`.
unfoldable pub on_other : List Text → Channels → Channels
on_other lines c = record c { raw_lines = emit_raw_lines c.raw_lines lines }
