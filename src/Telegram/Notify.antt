-- ===== src/Telegram/Notify.antt =====
-- `New`, `ParseChatID`, `Notify` and `SendDefaultMenu` of internal/notifier/telegram/telegram.go and
-- `sendMessageParams` of menu.go: what is sent without being asked for. The Bot API client is a parameter
-- (the error of creating it); so are the printing of a time as RFC 3339 and the clock.
pub mod Laws
use at_message_forward.Prelude.{
  ℕ, Bool, true, false, Option, none, some, List, [], ◌∷◌, ◌++◌, if◌then◌else◌, Result, ok, err,
  ◌>>=◌, ℤ,
}
use at_message_forward.Text.{Text, codes, trim_space, is_empty}
use at_message_forward.Number.{parse_int}
use at_message_forward.Config.{Config}
use at_message_forward.Notifier
use at_message_forward.Notifier.{Kind, kind_sms, kind_raw, kind_watchdog}
use at_message_forward.Telegram.Format.{format_sms_message, format_watchdog_alert, truncate_text}
use at_message_forward.Telegram.Menu.{
  Button, Message, plain, main_menu_message, watchdog_alert_keyboard,
}

pub data SetupError : Type 0 where
  token_required chat_required executor_required : SetupError
  chat_not_int64 : Text → SetupError
  create_failed : Text → SetupError

abbrev pub or_not_int64 : Text → Option ℤ → Result SetupError ℤ
or_not_int64 value none = err (chat_not_int64 value)
or_not_int64 value (some chat) = ok chat

unfoldable pub parse_chat_id : Text → Result SetupError ℤ
parse_chat_id value =
    if is_empty (trim_space value)
    then err chat_required
    else or_not_int64 (trim_space value) (parse_int (trim_space value))

abbrev pub created : ℤ → Option Text → Result SetupError ℤ
created chat none = ok chat
created chat (some e) = err (create_failed e)

-- `New`: the chat of the service. `create` is the error of creating the client with a token.
unfoldable pub new_service : (Text → Option Text) → Bool → Config → Result SetupError ℤ
new_service create has_executor cfg =
    if is_empty (trim_space cfg.telegram_token)
    then err token_required
    else (parse_chat_id cfg.telegram_chat >>= λ chat.
        if has_executor then created chat (create cfg.telegram_token) else err executor_required)

pub record SendMessageParams : Type 0 where
  pub chat_id : ℤ
  pub text : Text
  pub html : Bool
  pub reply_markup : List Button

-- No keyboard is sent for no buttons.
unfoldable pub send_message_params : ℤ → Message → SendMessageParams
send_message_params chat msg = record {
  chat_id = chat;
  text = truncate_text msg.text;
  html = msg.html;
  reply_markup = msg.button;
}

abbrev pub html_message : Text → List Button → Message
html_message text button = record { text = text; html = true; button = button }

-- The message that `Notify` sends for each kind.
abbrev pub message_for : (ℕ → Text) → ℕ → Kind → Notifier.Message → Message
message_for show_time now kind_sms msg =
    html_message (format_sms_message msg.sms (show_time msg.sms.at)) []
message_for show_time now kind_raw msg = plain (codes "Modem raw: " ++ msg.text) []
message_for show_time now kind_watchdog msg =
    html_message (format_watchdog_alert msg.text (show_time now)) watchdog_alert_keyboard

unfoldable pub notify : (ℕ → Text) → ℕ → ℤ → Notifier.Message → SendMessageParams
notify show_time now chat msg = send_message_params chat (message_for show_time now msg.kind msg)

-- `SendDefaultMenu`.
unfoldable pub send_default_menu : ℤ → SendMessageParams
send_default_menu chat = send_message_params chat main_menu_message
