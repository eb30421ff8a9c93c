-- ===== src/Telegram/Examples.antt =====
-- The theorems on internal/notifier/telegram at concrete inputs.
use at_message_forward.Notifier.{sms_message}
use at_message_forward.Number.{show_ℤ}
use at_message_forward.Telegram.Notify.{parse_chat_id, notify}
use at_message_forward.Telegram.Notify.Laws.{
  IsDeliverable, notify-IsDeliverable, parse_chat_id-show_ℤ,
}
use at_message_forward.Prelude.{
  ℕ, negsuc, Option, ok, Bool, false, pos, ℤ, ◌≤◌, ◌≡◌, refl, arith, List, [], ◌∷◌, map, none, some,
  length,
}
use at_message_forward.Telegram.Menu.{action_for_id, find_action}
use at_message_forward.Telegram.Service.{
  Update, Executor, handle_action, chat_of, authorized_chat, callback_payload, run_commands,
}
use at_message_forward.Telegram.Service.Laws.{handle_action-authorized}
use at_message_forward.Text.{text_eq, Text, codes, trim_space}
use at_message_forward.Sms.Pdu.{Event}
use at_message_forward.Telegram.Parse.{split_csv}
use at_message_forward.Telegram.Parse.Csv.{join, split_csv-join}
use at_message_forward.Telegram.Format.{
  escape, format_sms_message, format_watchdog_alert, truncate_text, max_text,
}
use at_message_forward.Telegram.Explain.{CommandResult, format_command_result}
use at_message_forward.Telegram.Markup.{IsMarkup}
use at_message_forward.Telegram.Markup.Messages.{
  format_sms_message-IsMarkup, format_watchdog_alert-IsMarkup,
}
use at_message_forward.Telegram.Markup.Reply.{format_command_result-IsMarkup}

split_csv-join_example :
    split_csv (join (codes "1") (codes "\"a,b\"" ∷ codes " 2" ∷ []))
    ≡ map trim_space (codes "1" ∷ codes "\"a,b\"" ∷ codes " 2" ∷ [])
split_csv-join_example =
    split_csv-join (codes "1") (codes "\"a,b\"" ∷ codes " 2" ∷ []) refl (refl, (refl, tt))

abbrev hello : Event
hello = record { from = codes "+123"; text = codes "a < b & c"; at = 0 }

abbrev noon : Text
noon = codes "2026-06-09T12:00:00Z"

format_sms_message-IsMarkup_example :
    IsMarkup (format_sms_message hello noon)
    × (truncate_text (format_sms_message hello noon) ≡ format_sms_message hello noon)
unfolding escape
format_sms_message-IsMarkup_example = format_sms_message-IsMarkup hello noon (omega arith)

format_watchdog_alert-IsMarkup_example :
    IsMarkup (format_watchdog_alert (codes "<nil>") noon)
    × (truncate_text (format_watchdog_alert (codes "<nil>") noon)
        ≡ format_watchdog_alert (codes "<nil>") noon)
unfolding escape
format_watchdog_alert-IsMarkup_example =
    format_watchdog_alert-IsMarkup (codes "<nil>") noon (omega arith)

abbrev results : List CommandResult
results =
    record { command = codes "+CSQ"; lines = codes "+CSQ: 20,99" ∷ codes "OK" ∷ []; error = none }
    ∷ record { command = codes "+CPIN?"; lines = []; error = some (codes "<busy>") }
    ∷ []

format_command_result-IsMarkup_example :
    IsMarkup (format_command_result results)
    × (length (format_command_result results) ≤ max_text)
    × (truncate_text (format_command_result results) ≡ format_command_result results)
format_command_result-IsMarkup_example = format_command_result-IsMarkup results

abbrev from_chat : ℤ → Text → Option Update
from_chat chat id = some (record {
  message_chat = none;
  callback = some (record { message_chat = some chat; payload = ok (some id) });
})

abbrev silent : Executor
silent sent cmd = ok (codes "OK" ∷ [])

abbrev never : List Text → Bool
never sent = false

handle_action-authorized_example : chat_of (from_chat (pos 7) (codes "signal")) ≡ some (pos 7)
unfolding handle_action authorized_chat callback_payload action_for_id find_action run_commands
    text_eq
handle_action-authorized_example =
    handle_action-authorized silent never (pos 7) (from_chat (pos 7) (codes "signal"))
      (λ e. absurd (cc e))

abbrev show_time : ℕ → Text
show_time t = noon

notify-IsDeliverable_example :
    IsDeliverable
      (negsuc 1001234567889)
      (notify show_time 0 (negsuc 1001234567889) (sms_message hello))
unfolding escape
notify-IsDeliverable_example =
    notify-IsDeliverable show_time 0 (negsuc 1001234567889) (sms_message hello) (λ t. omega arith)

parse_chat_id-show_ℤ_example :
    parse_chat_id (show_ℤ (negsuc 1001234567889)) ≡ ok (negsuc 1001234567889)
parse_chat_id-show_ℤ_example = parse_chat_id-show_ℤ (negsuc 1001234567889) (omega arith)
