-- ===== src/Telegram/Service.antt =====
-- The handlers of internal/notifier/telegram/telegram.go. The Telegram client, which delivers updates,
-- decodes callback data and sends replies, is not modelled: an update is what it delivers, and a handler
-- returns what it asks the client and the modem to do. An executor is a parameter: its answer may
-- depend on the commands sent before.
pub mod Laws
use at_message_forward.Prelude.{
  Bool, true, false, ◌||◌, Option, none, some, List, [], ◌∷◌, ◌++◌, ◌==◌, if◌then◌else◌, Result, ok,
  err, ℤ, pos, negsuc,
}
use at_message_forward.Text.{Text, codes}
use at_message_forward.Telegram.Explain.{CommandResult, format_command_result}
use at_message_forward.Telegram.Menu.{
  Message, plain, main_menu_message, menu_for_id, Action, action_for_id, action_result_keyboard,
  back_to_main_keyboard,
}

-- The commands sent before, and the one that is sent.
abbrev pub Executor : Type 0
Executor = List Text → Text → Result Text (List Text)

abbrev pub result_of : Text → Result Text (List Text) → CommandResult
result_of cmd (ok lines) = record { command = cmd; lines = lines; error = none }
result_of cmd (err e) = record { command = cmd; lines = []; error = some e }

abbrev pub failed : Result Text (List Text) → Bool
failed (ok lines) = false
failed (err e) = true

-- `runCommands`; `done` says whether the context is done behind the commands sent.
unfoldable pub run_commands :
    Executor → (List Text → Bool) → List Text → List Text → List CommandResult
run_commands execute done sent [] = []
run_commands execute done sent (cmd ∷ commands) =
    let answer = execute sent cmd in
    let rest = run_commands execute done (sent ++ cmd ∷ []) commands in
    result_of cmd answer ∷ (if failed answer || done (sent ++ cmd ∷ []) then [] else rest)

-- What an update carries: the chat of its message, or a callback query with the chat of its message,
-- and what decoding its data returns.
pub record Callback : Type 0 where
  pub message_chat : Option ℤ
  pub payload : Result Text (Option Text)

pub record Update : Type 0 where
  pub message_chat : Option ℤ
  pub callback : Option Callback

abbrev pub eq_ℤ : ℤ → ℤ → Bool
eq_ℤ (pos m) (pos n) = m == n
eq_ℤ (pos m) (negsuc n) = false
eq_ℤ (negsuc m) (pos n) = false
eq_ℤ (negsuc m) (negsuc n) = m == n

-- The chat that an update comes from.
abbrev pub callback_chat : Option Callback → Option ℤ
callback_chat none = none
callback_chat (some c) = c.message_chat

abbrev pub chat_or : Option ℤ → Option ℤ → Option ℤ
chat_or (some chat) other = some chat
chat_or none other = other

abbrev pub chat_of : Option Update → Option ℤ
chat_of none = none
chat_of (some u) = chat_or u.message_chat (callback_chat u.callback)

abbrev pub is_chat : ℤ → Option ℤ → Bool
is_chat chat_id none = false
is_chat chat_id (some chat) = eq_ℤ chat chat_id

unfoldable pub authorized_chat : Option Update → ℤ → Bool
authorized_chat update chat_id = is_chat chat_id (chat_of update)

-- What a handler does: the results of the commands it ran, and the message that it sends or its error.
pub data Outcome : Type 0 where
  nothing : Outcome
  send : Message → Outcome
  fail : Text → Outcome

pub record Handled : Type 0 where
  pub ran : List CommandResult
  pub outcome : Outcome

abbrev pub only : Outcome → Handled
only outcome = record { ran = []; outcome = outcome }

abbrev pub reject_to : Option ℤ → Handled
reject_to none = only nothing
reject_to (some chat) = only (send (plain (codes "unauthorized chat") []))

unfoldable pub reject_unauthorized : Option Update → Handled
reject_unauthorized update = reject_to (chat_of update)

abbrev pub payload_of : Result Text (Option Text) → Result Text Text
payload_of (err e) = err e
payload_of (ok none) = err (codes "missing callback payload")
payload_of (ok (some id)) = ok id

abbrev pub callback_of : Option Callback → Result Text Text
callback_of none = err (codes "missing callback query")
callback_of (some c) = payload_of c.payload

unfoldable pub callback_payload : Option Update → Result Text Text
callback_payload none = err (codes "missing callback query")
callback_payload (some u) = callback_of u.callback

unfoldable pub show_main_menu : ℤ → Option Update → Handled
show_main_menu chat_id update =
    if authorized_chat update chat_id
    then only (send main_menu_message)
    else reject_unauthorized update

abbrev pub show_menu : Result Text Text → Handled
show_menu (err e) = only (fail e)
show_menu (ok id) = only (send (menu_for_id id))

unfoldable pub handle_menu : ℤ → Option Update → Handled
handle_menu chat_id update =
    if authorized_chat update chat_id
    then show_menu (callback_payload update)
    else reject_unauthorized update

abbrev pub reply_to : Action → List CommandResult → Handled
reply_to act results = record {
  ran = results;
  outcome = send (record {
    text = format_command_result results;
    html = true;
    button = action_result_keyboard act.parent;
  });
}

abbrev pub perform : Executor → (List Text → Bool) → Option Action → Handled
perform execute done none = only (send (plain (codes "Unknown action") back_to_main_keyboard))
perform execute done (some act) = reply_to act (run_commands execute done [] act.commands)

abbrev pub act_on : Executor → (List Text → Bool) → Result Text Text → Handled
act_on execute done (err e) = only (fail e)
act_on execute done (ok id) = perform execute done (action_for_id id)

unfoldable pub handle_action : Executor → (List Text → Bool) → ℤ → Option Update → Handled
handle_action execute done chat_id update =
    if authorized_chat update chat_id
    then act_on execute done (callback_payload update)
    else reject_unauthorized update
