-- ===== src/Telegram/Markup/Switch.antt =====
-- Every branch of `explainCommandResult` of internal/notifier/telegram/explain.go.
use at_message_forward.Prelude.{
  true, false, List, [], ◌∷◌, ◌++◌, Option, none, some, ◌≡◌, refl, length, All, map,
}
use at_message_forward.Text.{Text, codes, text_eq}
use at_message_forward.Telegram.Format.{escape, default_text, escape_and_truncate, cmgl_item_max}
use at_message_forward.Telegram.Parse.{ListedSms, prefixed_csv, response_lines, parse_cmgl}
use at_message_forward.Telegram.Explain.{
  CommandResult, explain_csq, explain_cops, explain_cfun, explain_single_value, explain_cpms,
  listed_item, explain_messages, explain_cmgl, explain_default, storage_mode_lines, explain_lines,
  explain_outcome, explain_command_result,
}
use at_message_forward.Number.{show_ℕ}
use at_message_forward.Telegram.Markup.{inside, bold, code_span, read, scan, scan-append, IsMarkup}
use at_message_forward.Telegram.Markup.Escape.{escape-IsPlain, escape_and_truncate-IsPlain}
use at_message_forward.Telegram.Markup.Tables.{show_ℕ-IsPlain}
use at_message_forward.Telegram.Markup.Commands.{
  AreMarkup, all, choose, one, explain_cpin-AreMarkup, explain_quality-IsMarkup,
  explain_registration-IsMarkup, explain_operator-IsMarkup, explain_function-IsMarkup,
  explain_first-IsMarkup, explain_storage-IsMarkup,
}

number_label : scan (inside none) (codes "<b>SMS #") ≡ some (inside (some bold))
unfolding scan read text_eq
number_label = refl

end_of_bold : scan (inside (some bold)) (codes "</b> ") ≡ some (inside none)
unfolding scan read text_eq
end_of_bold = refl

blank_line : IsMarkup (codes "\n\n")
unfolding scan read
blank_line = refl

sender_label :
    scan (inside none) (codes "\n\n<b>Sender</b>: <code>") ≡ some (inside (some code_span))
unfolding scan read text_eq
sender_label = refl

received_label :
    scan (inside (some code_span)) (codes "</code>\n<b>Received</b>: <code>")
    ≡ some (inside (some code_span))
unfolding scan read text_eq
received_label = refl

end_of_code : scan (inside (some code_span)) (codes "</code>") ≡ some (inside none)
unfolding scan read text_eq
end_of_code = refl

listed_item-IsMarkup : (msg : ListedSms) → IsMarkup (listed_item msg)
unfolding listed_item
listed_item-IsMarkup msg = scan-append (codes "<b>SMS #") _ (inside none) number_label (
    scan-append (escape msg.index) _ (inside (some bold)) (escape-IsPlain msg.index (some bold)) (
      scan-append (codes "</b> ") _ (inside (some bold)) end_of_bold (
        scan-append (escape msg.status) _ (inside none) (escape-IsPlain msg.status none) (
          scan-append (codes "\n\n") _ (inside none) blank_line (
            scan-append
              (escape_and_truncate (default_text msg.text (codes "(empty)")) cmgl_item_max) _
              (inside none) (escape_and_truncate-IsPlain _ cmgl_item_max none)
              (scan-append (codes "\n\n<b>Sender</b>: <code>") _ (inside none) sender_label (
                scan-append (escape msg.from) _ (inside (some code_span))
                  (escape-IsPlain msg.from (some code_span))
                  (scan-append (codes "</code>\n<b>Received</b>: <code>") _
                    (inside (some code_span)) received_label
                    (scan-append (escape (default_text msg.at (codes "unknown"))) _
                      (inside (some code_span))
                      (escape-IsPlain (default_text msg.at (codes "unknown")) (some code_span))
                      end_of_code)))))))))

listed_items-IsMarkup : (messages : List ListedSms) → All IsMarkup (map listed_item messages)
listed_items-IsMarkup [] = tt
listed_items-IsMarkup (msg ∷ messages) = (listed_item-IsMarkup msg, listed_items-IsMarkup messages)

read_label : IsMarkup (codes "Read ")
unfolding scan read
read_label = refl

messages_label : IsMarkup (codes " SMS message(s).")
unfolding scan read
messages_label = refl

explain_messages-IsMarkup : (messages : List ListedSms) → All IsMarkup (explain_messages messages)
explain_messages-IsMarkup [] = (unfold scan read in refl, tt)
explain_messages-IsMarkup (msg ∷ messages) = (
  scan-append (codes "Read ") _ (inside none) read_label (
      scan-append (show_ℕ (length (msg ∷ messages))) _ (inside none)
        (show_ℕ-IsPlain (length (msg ∷ messages)) none) messages_label),
  (listed_item-IsMarkup msg, listed_items-IsMarkup messages),
)

module _ (lines : List Text) where
  csq : AreMarkup (explain_csq lines)
  unfolding explain_csq
  csq = all _ (explain_quality-IsMarkup (prefixed_csv lines (codes "+CSQ:")))

  cops : AreMarkup (explain_cops lines)
  unfolding explain_cops
  cops = all _ (explain_operator-IsMarkup (prefixed_csv lines (codes "+COPS:")))

  cfun : AreMarkup (explain_cfun lines)
  unfolding explain_cfun
  cfun = all _ (explain_function-IsMarkup (prefixed_csv lines (codes "+CFUN:")))

  cpms : AreMarkup (explain_cpms lines)
  unfolding explain_cpms
  cpms = all _ (explain_storage-IsMarkup (prefixed_csv lines (codes "+CPMS:")))

  cmgl : AreMarkup (explain_cmgl lines)
  unfolding explain_cmgl
  cmgl = all _ (explain_messages-IsMarkup (parse_cmgl lines))

  single : (label : Text) → AreMarkup (explain_single_value label lines)
  unfolding explain_single_value
  single label = all _ (explain_first-IsMarkup label (response_lines lines))

  otherwise : AreMarkup (explain_default lines)
  unfolding scan read
  otherwise =
      choose _ _ _ (one (codes "Command completed successfully.") refl)
        (one (codes "No structured explanation is available for this response yet.") refl)

  mode_lines : AreMarkup storage_mode_lines
  unfolding scan read
  mode_lines = all storage_mode_lines (refl, (refl, (refl, tt)))

  explain_lines-AreMarkup : (cmd : Text) → AreMarkup (explain_lines cmd lines)
  unfolding explain_lines scan read
  explain_lines-AreMarkup cmd = choose _ _ _ (explain_cpin-AreMarkup lines) (
      choose _ _ _ csq (
        choose _ _ _ (all _ (explain_registration-IsMarkup false lines)) (
          choose _ _ _ (all _ (explain_registration-IsMarkup true lines)) (
            choose _ _ _ cops (
              choose _ _ _ cfun (
                choose _ _ _ (single (codes "ICCID")) (
                  choose _ _ _ (single (codes "Manufacturer")) (
                    choose _ _ _ (single (codes "Model")) (
                      choose _ _ _ (single (codes "Firmware version")) (
                        choose _ _ _ (single (codes "IMEI/serial number")) (
                          choose _ _ _ (one (codes "SMS mode has been switched to text mode.") refl)
                            (choose _ _ _
                              (one
                                (codes
                                  "New SMS push has been configured to report directly over the serial port.")
                                refl)
                              (choose _ _ _ mode_lines (
                                choose _ _ _ cpms (
                                  choose _ _ _ cmgl (
                                    choose _ _ _
                                      (one
                                        (codes
                                          "Restart command sent. The serial connection may drop briefly while the module reboots.")
                                        refl)
                                      otherwise))))))))))))))))

failed_label :
    scan (inside none) (codes "Execution failed: <code>") ≡ some (inside (some code_span))
unfolding scan read text_eq
failed_label = refl

failure :
    (e : Text)
    → AreMarkup ((codes "Execution failed: <code>" ++ (escape e ++ codes "</code>")) ∷ [])
failure e = one (codes "Execution failed: <code>" ++ (escape e ++ codes "</code>")) (
    scan-append (codes "Execution failed: <code>") _ (inside none) failed_label (
      scan-append (escape e) _ (inside (some code_span)) (escape-IsPlain e (some code_span))
        end_of_code))

error_line :
    AreMarkup (codes "The module returned ERROR; the command did not complete successfully." ∷ [])
unfolding scan read
error_line =
    one (codes "The module returned ERROR; the command did not complete successfully.") refl

explain_outcome-AreMarkup :
    (cmd : Text) (lines : List Text) (error : Option Text)
    → AreMarkup (explain_outcome cmd lines error)
explain_outcome-AreMarkup cmd lines (some e) = failure e
explain_outcome-AreMarkup cmd lines none =
    choose _ _ _ error_line (explain_lines-AreMarkup lines cmd)

pub explain_command_result-AreMarkup : (r : CommandResult) → AreMarkup (explain_command_result r)
unfolding explain_command_result
explain_command_result-AreMarkup r = explain_outcome-AreMarkup r.command r.lines r.error
