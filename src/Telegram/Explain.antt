-- ===== src/Telegram/Explain.antt =====
-- internal/notifier/telegram/explain.go: responses in words. `formatCommandResult` of format.go stands
-- here, behind what it calls.
pub mod Tables
use at_message_forward.Prelude.{
  ℕ, zero, suc, ◌+◌, ◌-◌, Bool, true, false, ◌||◌, Option, none, some, List, [], ◌∷◌, ◌++◌,
  if◌then◌else◌, length,
}
use at_message_forward.Text.{Text, codes, trim_space, to_upper, text_eq, is_empty}
use at_message_forward.Telegram.Parse.{
  prefixed_value, prefixed_csv, has_error_line, response_lines, ok_only, unquote, ListedSms,
  parse_cmgl,
}
use at_message_forward.Telegram.Format.{
  escape, default_text, escape_and_truncate, cmgl_item_max, append_lines,
}
use at_message_forward.Number.{show_ℕ, atoi}
use Tables.{
  format_rssi, format_ber, registration_status, operator_mode, access_technology, function_mode,
}
use at_message_forward.Prelude.{map}

pub record CommandResult : Type 0 where
  pub command : Text
  pub lines : List Text
  pub error : Option Text

-- `fmt.Sprintf("<label>: <code>%s</code>.", html.EscapeString(value))`.
abbrev pub coded : Text → Text → Text
coded label value = label ++ (codes ": <code>" ++ (escape value ++ codes "</code>."))

-- `fmt.Sprintf("<label>: %s.", html.EscapeString(value))`.
abbrev pub labelled : Text → Text → Text
labelled label value = label ++ (codes ": " ++ (escape value ++ codes "."))

abbrev pub explain_pin : Text → List Text
explain_pin value =
    let status = map to_upper (trim_space value) in
    if text_eq status (codes "READY")
    then codes "SIM status: ready." ∷ []
    else if text_eq status (codes "SIM PIN")
    then codes "SIM status: PIN unlock required." ∷ []
    else if text_eq status (codes "SIM PUK")
    then codes "SIM status: PUK unlock required." ∷ []
    else coded (codes "SIM status") value ∷ []

unfoldable pub explain_cpin : List Text → List Text
explain_cpin lines =
    let value = prefixed_value lines (codes "+CPIN:") in
    if is_empty value then codes "No SIM status was read." ∷ [] else explain_pin value

abbrev pub explain_quality : List Text → List Text
explain_quality [] = codes "No signal quality was read." ∷ []
explain_quality (rssi ∷ []) = codes "No signal quality was read." ∷ []
explain_quality (rssi ∷ ber ∷ more) =
    labelled (codes "Signal strength") (format_rssi (atoi rssi))
    ∷ labelled (codes "Bit error rate (BER)") (format_ber (trim_space ber))
    ∷ []

unfoldable pub explain_csq : List Text → List Text
explain_csq lines = explain_quality (prefixed_csv lines (codes "+CSQ:"))

abbrev pub explain_status : Text → List Text → List Text
explain_status name [] = codes "No network registration status was read." ∷ []
explain_status name (stat ∷ []) = labelled name (registration_status stat) ∷ []
explain_status name (mode ∷ stat ∷ more) = labelled name (registration_status stat) ∷ []

-- For `+CREG?` and for `+CEREG?`.
unfoldable pub explain_registration : Bool → List Text → List Text
explain_registration false lines =
    explain_status (codes "2G/3G network registration") (prefixed_csv lines (codes "+CREG:"))
explain_registration true lines =
    explain_status (codes "EPS/LTE network registration") (prefixed_csv lines (codes "+CEREG:"))

abbrev pub explain_technology : List Text → List Text
explain_technology [] = []
explain_technology (technology ∷ more) =
    labelled (codes "Access technology") (access_technology technology) ∷ []

abbrev pub explain_operator : List Text → List Text
explain_operator [] = codes "No operator information was read." ∷ []
explain_operator (mode ∷ []) = codes "No operator information was read." ∷ []
explain_operator (mode ∷ format ∷ []) = codes "No operator information was read." ∷ []
explain_operator (mode ∷ format ∷ operator ∷ more) =
    labelled (codes "Network selection mode") (operator_mode mode)
    ∷ coded (codes "Operator") (unquote operator)
    ∷ explain_technology more

unfoldable pub explain_cops : List Text → List Text
explain_cops lines = explain_operator (prefixed_csv lines (codes "+COPS:"))

abbrev pub explain_function : List Text → List Text
explain_function [] = codes "No function mode was read." ∷ []
explain_function (mode ∷ more) = labelled (codes "Function mode") (function_mode mode) ∷ []

unfoldable pub explain_cfun : List Text → List Text
explain_cfun lines = explain_function (prefixed_csv lines (codes "+CFUN:"))

abbrev pub explain_first : Text → List Text → List Text
explain_first label [] = (codes "No " ++ (escape label ++ codes " was read.")) ∷ []
explain_first label (line ∷ lines) = coded (escape label) line ∷ []

unfoldable pub explain_single_value : Text → List Text → List Text
explain_single_value label lines = explain_first label (response_lines lines)

abbrev pub storage_item : Text → Text → Text → Text → Text
storage_item label name used total =
    label
    ++ (codes ": <code>"
        ++ (escape (unquote name)
            ++ (codes "</code>, used "
                ++ (escape used ++ (codes " / total " ++ (escape total ++ codes "."))))))

-- The loop over the labels, three values each.
unfoldable pub storage_items : List Text → List Text → List Text
storage_items (label ∷ labels) (name ∷ used ∷ total ∷ values) =
    storage_item label name used total ∷ storage_items labels values
storage_items [] values = []
storage_items (label ∷ labels) [] = []
storage_items (label ∷ labels) (name ∷ []) = []
storage_items (label ∷ labels) (name ∷ used ∷ []) = []

abbrev pub storage_labels : List Text
storage_labels =
    codes "Read/delete storage" ∷ codes "Write/send storage" ∷ codes "Receive storage" ∷ []

abbrev pub explain_storage : List Text → List Text
explain_storage (a ∷ b ∷ c ∷ values) = storage_items storage_labels (a ∷ b ∷ c ∷ values)
explain_storage [] = codes "No SMS storage information was read." ∷ []
explain_storage (a ∷ []) = codes "No SMS storage information was read." ∷ []
explain_storage (a ∷ b ∷ []) = codes "No SMS storage information was read." ∷ []

unfoldable pub explain_cpms : List Text → List Text
explain_cpms lines = explain_storage (prefixed_csv lines (codes "+CPMS:"))

unfoldable pub listed_item : ListedSms → Text
listed_item msg =
    codes "<b>SMS #"
    ++ (escape msg.index
        ++ (codes "</b> "
            ++ (escape msg.status
                ++ (codes "\n\n"
                    ++ (escape_and_truncate (default_text msg.text (codes "(empty)")) cmgl_item_max
                        ++ (codes "\n\n<b>Sender</b>: <code>"
                            ++ (escape msg.from
                                ++ (codes "</code>\n<b>Received</b>: <code>"
                                    ++ (escape (default_text msg.at (codes "unknown"))
                                        ++ codes "</code>")))))))))

abbrev pub explain_messages : List ListedSms → List Text
explain_messages [] = codes "No SMS messages matched the query." ∷ []
explain_messages (msg ∷ messages) =
    (codes "Read " ++ (show_ℕ (length (msg ∷ messages)) ++ codes " SMS message(s)."))
    ∷ listed_item msg
    ∷ map listed_item messages

unfoldable pub explain_cmgl : List Text → List Text
explain_cmgl lines = explain_messages (parse_cmgl lines)

abbrev pub explain_default : List Text → List Text
explain_default lines =
    if ok_only lines
    then codes "Command completed successfully." ∷ []
    else codes "No structured explanation is available for this response yet." ∷ []

abbrev pub storage_mode_lines : List Text
storage_mode_lines =
    codes "New SMS will be stored on the SIM/module and reported as an index notification (+CMTI:)."
    ∷ codes "Use \"Unread SMS\" or \"All SMS\" to read them."
    ∷ codes
        "Note: in this mode new SMS are not pushed directly, so auto-forwarding is paused until you re-enable SMS push."
    ∷ []

-- The `switch` on the command.
unfoldable pub explain_lines : Text → List Text → List Text
explain_lines cmd lines =
    if text_eq cmd (codes "+CPIN?")
    then explain_cpin lines
    else if text_eq cmd (codes "+CSQ")
    then explain_csq lines
    else if text_eq cmd (codes "+CREG?")
    then explain_registration false lines
    else if text_eq cmd (codes "+CEREG?")
    then explain_registration true lines
    else if text_eq cmd (codes "+COPS?")
    then explain_cops lines
    else if text_eq cmd (codes "+CFUN?")
    then explain_cfun lines
    else if text_eq cmd (codes "+CCID")
    then explain_single_value (codes "ICCID") lines
    else if text_eq cmd (codes "+CGMI")
    then explain_single_value (codes "Manufacturer") lines
    else if text_eq cmd (codes "+CGMM")
    then explain_single_value (codes "Model") lines
    else if text_eq cmd (codes "+CGMR")
    then explain_single_value (codes "Firmware version") lines
    else if text_eq cmd (codes "+CGSN")
    then explain_single_value (codes "IMEI/serial number") lines
    else if text_eq cmd (codes "+CMGF=1")
    then codes "SMS mode has been switched to text mode." ∷ []
    else if text_eq cmd (codes "+CNMI=2,2,0,0,0")
    then codes "New SMS push has been configured to report directly over the serial port." ∷ []
    else if text_eq cmd (codes "+CNMI=2,1,0,0,0")
    then storage_mode_lines
    else if text_eq cmd (codes "+CPMS?")
    then explain_cpms lines
    else if text_eq cmd (codes "+CMGL=\"REC UNREAD\"") || text_eq cmd (codes "+CMGL=\"ALL\"")
    then explain_cmgl lines
    else if text_eq cmd (codes "+RESET")
    then codes
        "Restart command sent. The serial connection may drop briefly while the module reboots."
      ∷ []
    else explain_default lines

abbrev pub explain_outcome : Text → List Text → Option Text → List Text
explain_outcome cmd lines (some e) =
    (codes "Execution failed: <code>" ++ (escape e ++ codes "</code>")) ∷ []
explain_outcome cmd lines none =
    if has_error_line lines
    then codes "The module returned ERROR; the command did not complete successfully." ∷ []
    else explain_lines cmd lines

unfoldable pub explain_command_result : CommandResult → List Text
explain_command_result r = explain_outcome r.command r.lines r.error

-- The lines of all the results, in order.
unfoldable pub explain_all : List CommandResult → List Text
explain_all [] = []
explain_all (r ∷ results) = explain_command_result r ++ explain_all results

-- `formatCommandResult`: a chunk that is refused ends both loops.
unfoldable pub format_command_result : List CommandResult → Text
format_command_result results = trim_space (append_lines 0 (explain_all results))
