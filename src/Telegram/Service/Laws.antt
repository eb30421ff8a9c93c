-- ===== src/Telegram/Service/Laws.antt =====
-- Where the buttons of internal/notifier/telegram lead, and whose updates run commands.
use at_message_forward.Prelude.{
  ==_iff, pos, negsuc, Bool, true, false, ◌||◌, Option, none, some, List, [], ◌∷◌, ℤ, ◌≡◌, ◌≢◌,
  refl, All, Bool-cases, inl, inr, ap,
}
use at_message_forward.Text.{Text, codes, text_eq, is_some}
use at_message_forward.Telegram.Menu.{
  Route, route_menu, route_act, Button, Message, action_for_id, Action, action_result_keyboard,
}
use at_message_forward.Telegram.Service.{
  Executor, Update, authorized_chat, Outcome, send, fail, nothing, handle_action,
  reject_unauthorized, reject_to, chat_of, eq_ℤ, is_chat,
}

-- The menus that `handleMenu` names.
abbrev pub menu_ids : List Text
menu_ids =
    codes "main"
    ∷ codes "status"
    ∷ codes "sms"
    ∷ codes "device"
    ∷ codes "help"
    ∷ codes "reset_confirm"
    ∷ []

unfoldable pub is_among : Text → List Text → Bool
is_among id [] = false
is_among id (x ∷ xs) = text_eq id x || is_among id xs

-- A button leads to a menu that is named or to an action that is known.
abbrev pub leads : Route → Text → Bool
leads route_menu id = is_among id menu_ids
leads route_act id = is_some (action_for_id id)

abbrev pub Leads : Button → Type 0
Leads b = leads b.route b.id ≡ true

pub AllLead : Message → Type 0
AllLead m = All Leads m.button

abbrev KeyboardLeads : Action → Type 0
KeyboardLeads act = All Leads (action_result_keyboard act.parent)

abbrev pub OutcomeLeads : Outcome → Type 0
OutcomeLeads nothing = Unit {0}
OutcomeLeads (fail e) = Unit {0}
OutcomeLeads (send m) = AllLead m

eq_ℤ_sound : (m n : ℤ) → eq_ℤ m n ≡ true → m ≡ n
eq_ℤ_sound (pos m) (pos n) h = ap pos ((==_iff m n).0 h)
eq_ℤ_sound (pos m) (negsuc n) h = absurd (cc h)
eq_ℤ_sound (negsuc m) (pos n) h = absurd (cc h)
eq_ℤ_sound (negsuc m) (negsuc n) h = ap negsuc ((==_iff m n).0 h)

is_chat_sound : (chat_id : ℤ) (chat : Option ℤ) → is_chat chat_id chat ≡ true → chat ≡ some chat_id
is_chat_sound chat_id none h = absurd (cc h)
is_chat_sound chat_id (some chat) h = ap some (eq_ℤ_sound chat chat_id h)

reject_ran : (chat : Option ℤ) → (reject_to chat).ran ≡ []
reject_ran none = refl
reject_ran (some chat) = refl

-- A command is sent to the modem only for an update that comes from the configured chat.
pub handle_action-authorized :
    (execute : Executor) (done : List Text → Bool) (chat_id : ℤ) (update : Option Update)
    → (handle_action execute done chat_id update).ran ≢ []
    → chat_of update ≡ some chat_id
unfolding handle_action authorized_chat reject_unauthorized
handle_action-authorized execute done chat_id update ran =
    elim (Bool-cases (is_chat chat_id (chat_of update))) [
      | inl yes_chat ↦ is_chat_sound chat_id (chat_of update) yes_chat
      | inr no_chat ↦ absurd (ran (rw no_chat (reject_ran (chat_of update))))
    ]
