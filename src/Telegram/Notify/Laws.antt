-- ===== src/Telegram/Notify/Laws.antt =====
-- What can be sent by `Notify` of internal/notifier/telegram/telegram.go, and which chat is configured.
use at_message_forward.Prelude.{
  ℕ, zero, suc, ◌-◌, ◌≤◌, Bool, true, false, List, [], ◌∷◌, leb, ok, ℤ, pos, negsuc, ◌≡◌, refl, sym,
  length, take, length-append, arith, Bool-cases, inl, inr,
}
use mathlib.Core.Path.{subst}
use at_message_forward.Text.{Text, is_space, is_empty}
use at_message_forward.Number.{show_ℕ, show_ℤ}
use at_message_forward.Number.Laws.{show_ℕ-Digits, show_ℕ-length, IsInt64, parse_int-show_ℤ}
use at_message_forward.Text.Spaces.{NoSpace, trim_space-NoSpace, Digits-NoSpace}
use at_message_forward.Notifier
use at_message_forward.Notifier.{Kind, kind_sms, kind_raw, kind_watchdog}
use at_message_forward.Telegram.Format.{
  escape, truncate_text, truncate_plain_text, max_text, truncation_suffix,
}
use at_message_forward.Telegram.Markup.{IsMarkup}
use at_message_forward.Telegram.Markup.Messages.{
  format_sms_message-IsMarkup, format_watchdog_alert-IsMarkup,
}
use at_message_forward.Telegram.Notify.{
  parse_chat_id, SendMessageParams, send_message_params, message_for, notify,
}

take-le : {A : Type 0} (n : ℕ) (xs : List A) → length (take n xs) ≤ n
take-le zero xs = omega arith
take-le (suc n) [] = omega arith
take-le (suc n) (x ∷ xs) = omega (arith, take-le n xs)

truncate_text-le : (s : Text) → length (truncate_text s) ≤ max_text
unfolding truncate_text truncate_plain_text
truncate_text-le s = elim (Bool-cases (leb (length s) max_text)) [
  | inl fits ↦ rw fits (ground (arith, fits))
  | inr long ↦
      let cut : Text = take (max_text - length truncation_suffix) s in
      rw long (
        omega (
          arith,
          length-append cut truncation_suffix,
          take-le (max_text - length truncation_suffix) s,
        ))
]

-- Markup is announced only for a text that is markup.
abbrev pub IsMarkupIf : Bool → Text → Type 0
IsMarkupIf true text = IsMarkup text
IsMarkupIf false text = Unit

-- Sent to the chat, short enough for the Bot API, and markup if it says so.
abbrev pub IsDeliverable : ℤ → SendMessageParams → Type 0
IsDeliverable chat params =
    (params.chat_id ≡ chat) × (length params.text ≤ max_text) × IsMarkupIf params.html params.text

-- A printed time has at most 100 characters when it is escaped.
abbrev pub IsShort : (ℕ → Text) → Type 0
IsShort show_time = (t : ℕ) → length (escape (show_time t)) ≤ 100

sent_markup :
    (show_time : ℕ → Text) (now : ℕ) (kind : Kind) (msg : Notifier.Message)
    → IsShort show_time
    → IsMarkupIf
        (message_for show_time now kind msg).html
        (truncate_text (message_for show_time now kind msg).text)
sent_markup show_time now kind_sms msg short =
    let (markup, whole) =
      format_sms_message-IsMarkup msg.sms (show_time msg.sms.at) (short msg.sms.at) in
    subst IsMarkup (sym whole) markup
sent_markup show_time now kind_raw msg short = tt
sent_markup show_time now kind_watchdog msg short =
    let (markup, whole) = format_watchdog_alert-IsMarkup msg.text (show_time now) (short now) in
    subst IsMarkup (sym whole) markup

-- Whatever is to be notified, what is sent goes to the configured chat, has at most 3900 characters, and
-- is markup with closed tags and escaped characters if it is announced as markup, if a printed time
-- has at most 100 characters when it is escaped.
pub notify-IsDeliverable :
    (show_time : ℕ → Text) (now : ℕ) (chat : ℤ) (msg : Notifier.Message)
    → IsShort show_time
    → IsDeliverable chat (notify show_time now chat msg)
unfolding notify send_message_params
notify-IsDeliverable show_time now chat msg short = (
  refl,
  truncate_text-le (message_for show_time now msg.kind msg).text,
  sent_markup show_time now msg.kind msg short,
)

show_ℤ-NoSpace : (z : ℤ) → NoSpace (show_ℤ z)
show_ℤ-NoSpace (pos n) = Digits-NoSpace (show_ℕ n) (show_ℕ-Digits n)
show_ℤ-NoSpace (negsuc n) =
    (unfold is_space in refl, Digits-NoSpace (show_ℕ (suc n)) (show_ℕ-Digits (suc n)))

nonempty : (s : Text) → 1 ≤ length s → is_empty s ≡ false
nonempty [] h = absurd (omega arith)
nonempty (c ∷ s) h = refl

show_ℤ_nonempty : (z : ℤ) → is_empty (show_ℤ z) ≡ false
show_ℤ_nonempty (pos n) = nonempty (show_ℕ n) (show_ℕ-length n)
show_ℤ_nonempty (negsuc n) = refl

-- The chat of any number of 64 bits, negative ones included, printed in decimal, is read back.
pub parse_chat_id-show_ℤ : (z : ℤ) → IsInt64 z → parse_chat_id (show_ℤ z) ≡ ok z
unfolding parse_chat_id
parse_chat_id-show_ℤ z h =
    rw (trim_space-NoSpace (show_ℤ z) (show_ℤ-NoSpace z), show_ℤ_nonempty z, parse_int-show_ℤ z h)
      refl
