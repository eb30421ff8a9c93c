-- ===== src/Modem/Examples.antt =====
-- The theorems on internal/modem/modem.go at concrete inputs.
use at_message_forward.Prelude.{
  ℕ, ◌*◌, ◌==◌, if◌then◌else◌, List, [], ◌∷◌, ◌++◌, none, ok, err, pos, ◌≡◌, ◌≢◌, arith, length,
}
use at_message_forward.Text.{Text, codes}
use at_message_forward.Sms.Hex.{Error}
use at_message_forward.Sms.Pdu.{Event}
use at_message_forward.Sms.Indication.{parse_cmt_indication}
use at_message_forward.Modem.Channels.{Channels, raw_lines_cap, events_cap, on_cmt}
use at_message_forward.Modem.Channels.Laws.{fitting, on_cmt-fitting}
use at_message_forward.Modem.Init.{
  Commander, init, first_commands, last_commands, cpin_command, cpin_ready_line,
}
use at_message_forward.Modem.Init.Waiting.{init-total}

abbrev indication : List Text
indication = codes "+CMT: \"123\",,\"26/06/09\"" ∷ codes "hi" ∷ []

abbrev waiting : Channels
waiting = record { raw_lines = codes "x" ∷ []; events = [] }

on_cmt-fitting_example :
    ((on_cmt 7 indication waiting).raw_lines ≡ fitting raw_lines_cap waiting.raw_lines indication)
    × ((e : Event)
        → parse_cmt_indication 7 indication ≡ ok e
        → (on_cmt 7 indication waiting).events ≡ fitting events_cap waiting.events (e ∷ []))
    × ((x : Error)
        → parse_cmt_indication 7 indication ≡ err x
        → (on_cmt 7 indication waiting).events ≡ waiting.events)
on_cmt-fitting_example = on_cmt-fitting 7 indication waiting

-- A modem whose SIM is ready at the second question.
abbrev ready_at_second : Commander
ready_at_second sent cmd =
    if length sent == 2 then err (codes "busy") else ok (cpin_ready_line ∷ [])

abbrev seconds : ℕ → ℕ
seconds k = k * 2000000000

abbrev sent_commands : List Text
sent_commands = first_commands ++ (cpin_command ∷ cpin_command ∷ []) ++ last_commands

init-total_example : init 61 ready_at_second seconds 0 (pos 0) ≢ none
init-total_example =
    init-total 61 ready_at_second seconds 0 (pos 0) (λ i. omega arith) (omega arith) (omega arith)
