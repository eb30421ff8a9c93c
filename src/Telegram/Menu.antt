-- ===== src/Telegram/Menu.antt =====
-- internal/notifier/telegram: menu.go and actions.go, with the menus that `handleMenu` of telegram.go
-- chooses from.
use at_message_forward.Prelude.{Bool, false, ◌||◌, Option, none, some, List, [], ◌∷◌, if◌then◌else◌}
use at_message_forward.Text.{Text, codes, text_eq, is_empty}

pub data Route : Type 0 where
  route_menu route_act : Route

pub record Button : Type 0 where
  pub text : Text
  pub route : Route
  pub id : Text

abbrev pub menu_button : Text → Text → Button
menu_button text id = record { text = text; route = route_menu; id = id }

abbrev pub action_button : Text → Text → Button
action_button text id = record { text = text; route = route_act; id = id }

-- A message with a keyboard of one column.
pub record Message : Type 0 where
  pub text : Text
  pub html : Bool
  pub button : List Button

abbrev pub plain : Text → List Button → Message
plain text button = record { text = text; html = false; button = button }

abbrev pub back_to_main : Button
back_to_main = menu_button (codes "Back") (codes "main")

abbrev pub main_menu_message : Message
main_menu_message = plain (codes "AT Modem Console\nChoose an action.") (
    menu_button (codes "Status") (codes "status")
    ∷ menu_button (codes "SMS History") (codes "sms")
    ∷ menu_button (codes "Device Control") (codes "device")
    ∷ menu_button (codes "Help") (codes "help")
    ∷ [])

abbrev pub status_menu_message : Message
status_menu_message = plain (codes "Status") (
    action_button (codes "Status Summary") (codes "status_summary")
    ∷ action_button (codes "Signal Quality") (codes "signal")
    ∷ action_button (codes "Network Registration") (codes "registration")
    ∷ action_button (codes "Operator") (codes "operator")
    ∷ action_button (codes "SIM Status") (codes "sim")
    ∷ action_button (codes "Module Info") (codes "module")
    ∷ back_to_main
    ∷ [])

abbrev pub sms_menu_message : Message
sms_menu_message = plain (codes "SMS History") (
    action_button (codes "Unread SMS") (codes "sms_unread")
    ∷ action_button (codes "All SMS") (codes "sms_all")
    ∷ action_button (codes "SMS Storage") (codes "sms_storage")
    ∷ action_button (codes "Store SMS to SIM") (codes "enable_sms_storage")
    ∷ back_to_main
    ∷ [])

abbrev pub device_menu_message : Message
device_menu_message = plain (codes "Device Control") (
    action_button (codes "Current Function Mode") (codes "function_mode")
    ∷ action_button (codes "Re-enable SMS Push") (codes "enable_sms_push")
    ∷ menu_button (codes "Restart Module") (codes "reset_confirm")
    ∷ back_to_main
    ∷ [])

abbrev pub reset_confirm_message : Message
reset_confirm_message =
    plain (codes "Restart the modem module? The serial connection may drop during reboot.") (
      action_button (codes "Confirm Restart") (codes "reset")
      ∷ menu_button (codes "Cancel / Back") (codes "device")
      ∷ [])

abbrev pub help_message : Message
help_message =
    plain
      (codes
        "Send /menu to open the control menu. New SMS messages are pushed to the authorized chat automatically. When telegram_raw=true, raw serial lines are pushed too.")
      (back_to_main ∷ [])

abbrev pub watchdog_alert_keyboard : List Button
watchdog_alert_keyboard =
    action_button (codes "Restart Module") (codes "reset")
    ∷ menu_button (codes "Device Control") (codes "device")
    ∷ []

abbrev pub back_to_main_keyboard : List Button
back_to_main_keyboard = menu_button (codes "Back to Main Menu") (codes "main") ∷ []

unfoldable pub action_result_keyboard : Text → List Button
action_result_keyboard parent =
    if is_empty parent || text_eq parent (codes "main")
    then back_to_main_keyboard
    else menu_button (codes "Back") parent ∷ menu_button (codes "Main Menu") (codes "main") ∷ []

-- The `switch` of `handleMenu`.
unfoldable pub menu_for_id : Text → Message
menu_for_id id =
    if text_eq id (codes "main")
    then main_menu_message
    else if text_eq id (codes "status")
    then status_menu_message
    else if text_eq id (codes "sms")
    then sms_menu_message
    else if text_eq id (codes "device")
    then device_menu_message
    else if text_eq id (codes "help")
    then help_message
    else if text_eq id (codes "reset_confirm")
    then reset_confirm_message
    else main_menu_message

-- An action but for its title, which nothing reads.
pub record Action : Type 0 where
  pub parent : Text
  pub commands : List Text

pub record Entry : Type 0 where
  pub id : Text
  pub act : Action

abbrev pub entry : Text → Text → List Text → Entry
entry id parent commands = record { id = id; act = record { parent = parent; commands = commands } }

abbrev pub actions_by_id : List Entry
actions_by_id =
    entry (codes "status_summary") (codes "status") (
      codes "+CPIN?"
      ∷ codes "+CSQ"
      ∷ codes "+CREG?"
      ∷ codes "+CEREG?"
      ∷ codes "+COPS?"
      ∷ codes "+CFUN?"
      ∷ [])
    ∷ entry (codes "signal") (codes "status") (codes "+CSQ" ∷ [])
    ∷ entry (codes "registration") (codes "status") (codes "+CREG?" ∷ codes "+CEREG?" ∷ [])
    ∷ entry (codes "operator") (codes "status") (codes "+COPS?" ∷ [])
    ∷ entry (codes "sim") (codes "status") (codes "+CPIN?" ∷ codes "+CCID" ∷ [])
    ∷ entry (codes "module") (codes "status")
        (codes "+CGMI" ∷ codes "+CGMM" ∷ codes "+CGMR" ∷ codes "+CGSN" ∷ [])
    ∷ entry (codes "sms_unread") (codes "sms") (codes "+CMGF=1" ∷ codes "+CMGL=\"REC UNREAD\"" ∷ [])
    ∷ entry (codes "sms_all") (codes "sms") (codes "+CMGF=1" ∷ codes "+CMGL=\"ALL\"" ∷ [])
    ∷ entry (codes "sms_storage") (codes "sms") (codes "+CPMS?" ∷ [])
    ∷ entry (codes "enable_sms_storage") (codes "sms")
        (codes "+CMGF=1" ∷ codes "+CNMI=2,1,0,0,0" ∷ [])
    ∷ entry (codes "function_mode") (codes "device") (codes "+CFUN?" ∷ [])
    ∷ entry (codes "enable_sms_push") (codes "device")
        (codes "+CMGF=1" ∷ codes "+CNMI=2,2,0,0,0" ∷ [])
    ∷ entry (codes "reset") (codes "device") (codes "+RESET" ∷ [])
    ∷ []

unfoldable pub find_action : Text → List Entry → Option Action
find_action id [] = none
find_action id (e ∷ entries) = if text_eq id e.id then some e.act else find_action id entries

unfoldable pub action_for_id : Text → Option Action
action_for_id id = find_action id actions_by_id
