-- ===== src/Telegram/Markup/Messages.antt =====
-- The forwarded messages of internal/notifier/telegram/format.go as markup.
use at_message_forward.Prelude.{◌≤◌, ◌++◌, none, some, ◌≡◌, refl, arith, length, length-append}
use at_message_forward.Text.{Text, codes, text_eq}
use at_message_forward.Sms.Pdu.{Event}
use at_message_forward.Telegram.Format.{
  escape, escape_and_truncate, default_text, format_sms_message, format_watchdog_alert,
  truncate_text, sms_body_max, from_preview_max, watchdog_reason_max,
}
use at_message_forward.Telegram.Format.Bounds.{escape_and_truncate-le, truncate_text_fits}
use at_message_forward.Telegram.Markup.{
  inside, code_span, read, scan, scan-append, IsMarkup, IsPlain,
}
use at_message_forward.Telegram.Markup.Escape.{escape-IsPlain, escape_and_truncate-IsPlain}

-- Text in front of a message that goes on outside every element.
plain_then : (s t : Text) → IsPlain s → IsMarkup t → IsMarkup (s ++ t)
plain_then s t hs ht = scan-append s t (inside none) (hs none) ht

contact_label : IsMarkup (codes "\n\n<b>Contact/Phone</b>: ")
unfolding scan read text_eq
contact_label = refl

received_label : IsMarkup (codes "\n<b>Received</b>: ")
unfolding scan read text_eq
received_label = refl

alert_title : IsMarkup (codes "<b>Modem Watchdog Alert</b>\n\n")
unfolding scan read text_eq
alert_title = refl

time_label : scan (inside none) (codes "\n\n<b>Time</b>: <code>") ≡ some (inside (some code_span))
unfolding scan read text_eq
time_label = refl

end_of_code : scan (inside (some code_span)) (codes "</code>") ≡ some (inside none)
unfolding scan read text_eq
end_of_code = refl

-- The message about an SMS, whatever its sender and its text hold, is markup whose tags are closed and
-- whose special characters are entities, and it is sent whole, if the printed time has at most 100
-- characters when it is escaped.
pub format_sms_message-IsMarkup :
    (event : Event) (at : Text)
    → length (escape at) ≤ 100
    → IsMarkup (format_sms_message event at)
      × (truncate_text (format_sms_message event at) ≡ format_sms_message event at)
unfolding format_sms_message
format_sms_message-IsMarkup event at h =
    let body : Text =
      escape_and_truncate (default_text event.text (codes "(empty)")) sms_body_max in
    let from : Text =
      escape_and_truncate (default_text event.from (codes "unknown")) from_preview_max in
    (
      plain_then body _ (escape_and_truncate-IsPlain _ sms_body_max) (
          scan-append (codes "\n\n<b>Contact/Phone</b>: ") _ (inside none) contact_label (
            plain_then from _ (escape_and_truncate-IsPlain _ from_preview_max) (
              scan-append (codes "\n<b>Received</b>: ") _ (inside none) received_label
                (escape-IsPlain at none)))),
      truncate_text_fits _ (
          omega (
            arith,
            h,
            length-append body (
                codes "\n\n<b>Contact/Phone</b>: "
                ++ (from ++ (codes "\n<b>Received</b>: " ++ escape at))),
            length-append from (codes "\n<b>Received</b>: " ++ escape at),
            escape_and_truncate-le (default_text event.text (codes "(empty)")) sms_body_max
                (omega arith),
            escape_and_truncate-le (default_text event.from (codes "unknown")) from_preview_max
                (omega arith),
          )),
    )

-- The watchdog's alert, whatever its reason holds, is markup whose tags are closed and whose special
-- characters are entities, and it is sent whole, if the printed time has at most 100 characters when
-- it is escaped.
pub format_watchdog_alert-IsMarkup :
    (reason at : Text)
    → length (escape at) ≤ 100
    → IsMarkup (format_watchdog_alert reason at)
      × (truncate_text (format_watchdog_alert reason at) ≡ format_watchdog_alert reason at)
unfolding format_watchdog_alert
format_watchdog_alert-IsMarkup reason at h =
    let body : Text =
      escape_and_truncate (default_text reason (codes "serial watchdog reported an unknown error"))
        watchdog_reason_max in
    (
      scan-append (codes "<b>Modem Watchdog Alert</b>\n\n") _ (inside none) alert_title (
          plain_then body _ (escape_and_truncate-IsPlain _ watchdog_reason_max) (
            scan-append (codes "\n\n<b>Time</b>: <code>") _ (inside none) time_label (
              scan-append (escape at) _ (inside (some code_span))
                (escape-IsPlain at (some code_span)) end_of_code))),
      truncate_text_fits _ (
          omega (
            arith,
            h,
            length-append body (codes "\n\n<b>Time</b>: <code>" ++ (escape at ++ codes "</code>")),
            length-append (escape at) (codes "</code>"),
            escape_and_truncate-le
                (default_text reason (codes "serial watchdog reported an unknown error"))
                watchdog_reason_max (omega arith),
          )),
    )
