-- ===== src/Telegram/Format.antt =====
-- internal/notifier/telegram/format.go, and `truncatePlainText` of menu.go. The time of a message is
-- printed by the time package and is an argument.
pub mod Bounds
use at_message_forward.Prelude.{
  ℕ, ◌+◌, ◌-◌, Bool, true, false, not, ◌&&◌, ◌||◌, List, [], ◌∷◌, ◌++◌, ltb, leb, ◌==◌,
  if◌then◌else◌, length, take,
}
use at_message_forward.Text.{Text, codes, trim_space, is_empty}
use at_message_forward.Sms.Pdu.{Event}

abbrev pub sms_body_max : ℕ
sms_body_max = 3000

abbrev pub from_preview_max : ℕ
from_preview_max = 256

abbrev pub watchdog_reason_max : ℕ
watchdog_reason_max = 1200

abbrev pub cmgl_item_max : ℕ
cmgl_item_max = 600

abbrev pub max_text : ℕ
max_text = 3900

abbrev pub truncation_suffix : Text
truncation_suffix = codes "\n[truncated]"

-- `html.EscapeString`.
abbrev pub escape_char : ℕ → Text
escape_char c =
    if c == b'&'
    then codes "&amp;"
    else if c == b'\''
    then codes "&#39;"
    else if c == b'<'
    then codes "&lt;"
    else if c == b'>'
    then codes "&gt;"
    else if c == b'"'
    then codes "&#34;"
    else c ∷ []

unfoldable pub escape : Text → Text
escape [] = []
escape (c ∷ s) = escape_char c ++ escape s

unfoldable pub default_text : Text → Text → Text
default_text value fallback = if is_empty (trim_space value) then fallback else value

-- The loop of `escapeAndTruncate`, from a character on.
unfoldable pub truncate_from : ℕ → ℕ → Text → Text
truncate_from limit used [] = []
truncate_from limit used (r ∷ text) =
    let width = length (escape_char r) in
    let rest = truncate_from limit (used + width) text in
    if not (is_empty text) && ltb limit (used + width + length truncation_suffix)
    then truncation_suffix
    else if ltb limit (used + width)
    then truncation_suffix
    else escape_char r ++ rest

unfoldable pub escape_and_truncate : Text → ℕ → Text
escape_and_truncate text limit =
    if limit == 0
    then []
    else if leb (length (escape text)) limit
    then escape text
    else truncate_from limit 0 text

-- `formatSMSMessage`, its text.
unfoldable pub format_sms_message : Event → Text → Text
format_sms_message event at =
    escape_and_truncate (default_text event.text (codes "(empty)")) sms_body_max
    ++ (codes "\n\n<b>Contact/Phone</b>: "
        ++ (escape_and_truncate (default_text event.from (codes "unknown")) from_preview_max
            ++ (codes "\n<b>Received</b>: " ++ escape at)))

-- `formatWatchdogAlert`, its text.
unfoldable pub format_watchdog_alert : Text → Text → Text
format_watchdog_alert reason at =
    codes "<b>Modem Watchdog Alert</b>\n\n"
    ++ (escape_and_truncate
          (default_text reason (codes "serial watchdog reported an unknown error"))
          watchdog_reason_max
        ++ (codes "\n\n<b>Time</b>: <code>" ++ (escape at ++ codes "</code>")))

-- The calls of `appendHTMLChunk`, one for each line, from `used` characters on.
unfoldable pub append_lines : ℕ → List Text → Text
append_lines used [] = []
append_lines used (line ∷ lines) =
    let chunk = line ++ codes "\n" in
    let rest = append_lines (used + length chunk) lines in
    if ltb max_text (used + length chunk)
    then (if leb (used + length truncation_suffix) max_text then truncation_suffix else [])
    else if ltb max_text (used + length chunk + length truncation_suffix)
    then truncation_suffix
    else chunk ++ rest

-- `truncatePlainText` and `truncateText`.
unfoldable pub truncate_plain_text : Text → ℕ → Text
truncate_plain_text text limit =
    if leb (length text) limit
    then text
    else take (limit - length truncation_suffix) text ++ truncation_suffix

unfoldable pub truncate_text : Text → Text
truncate_text text = truncate_plain_text text max_text
