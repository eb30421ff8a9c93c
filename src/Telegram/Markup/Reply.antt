-- ===== src/Telegram/Markup/Reply.antt =====
-- The reply to a command, `formatCommandResult` of internal/notifier/telegram/format.go.
use at_message_forward.Prelude.{
  ℕ, ◌+◌, ◌≤◌, Bool, true, false, List, [], ◌∷◌, ◌++◌, none, ltb, leb, if◌then◌else◌, ◌≡◌, refl,
  arith, length, All, All-append,
}
use at_message_forward.Text.{Text, codes, trim_space}
use at_message_forward.Telegram.Format.{append_lines, max_text, truncation_suffix, truncate_text}
use at_message_forward.Telegram.Format.Bounds.{append_lines-le, trim_space-le, truncate_text_fits}
use at_message_forward.Telegram.Explain.{
  CommandResult, explain_command_result, explain_all, format_command_result,
}
use at_message_forward.Telegram.Markup.{inside, read, scan, scan-append, IsMarkup}
use at_message_forward.Telegram.Markup.Commands.{AreMarkup}
use at_message_forward.Telegram.Markup.Switch.{explain_command_result-AreMarkup}
use at_message_forward.Telegram.Markup.Trim.{trim_space-IsMarkup}

explain_all-IsMarkup : (results : List CommandResult) → All IsMarkup (explain_all results)
unfolding explain_all AreMarkup
explain_all-IsMarkup [] = tt
explain_all-IsMarkup (r ∷ results) =
    All-append IsMarkup (explain_command_result r) (explain_all results)
      (explain_command_result-AreMarkup r) (explain_all-IsMarkup results)

choose_text : (b : Bool) (s t : Text) → IsMarkup s → IsMarkup t → IsMarkup (if b then s else t)
choose_text true s t hs ht = hs
choose_text false s t hs ht = ht

suffix-IsMarkup : IsMarkup truncation_suffix
unfolding scan read
suffix-IsMarkup = refl

newline : IsMarkup (codes "\n")
unfolding scan read
newline = refl

append_lines-IsMarkup :
    (lines : List Text) (used : ℕ) → All IsMarkup lines → IsMarkup (append_lines used lines)
unfolding append_lines
append_lines-IsMarkup [] used h = unfold scan in refl
append_lines-IsMarkup (line ∷ lines) used h =
    let chunk : Text = line ++ codes "\n" in
    choose_text (ltb max_text (used + length chunk)) _ _
      (choose_text (leb (used + length truncation_suffix) max_text) truncation_suffix []
        suffix-IsMarkup (unfold scan in refl))
      (choose_text (ltb max_text (used + length chunk + length truncation_suffix)) truncation_suffix
        _ suffix-IsMarkup
        (scan-append chunk _ (inside none) (scan-append line (codes "\n") (inside none) h.0 newline)
          (append_lines-IsMarkup lines (used + length chunk) h.1)))

-- Whatever commands were sent and whatever the module answered or failed with, the reply is markup
-- whose tags are closed and whose special characters are entities, and has at most 3900 characters,
-- so that `truncateText` would leave it whole.
pub format_command_result-IsMarkup :
    (results : List CommandResult)
    → IsMarkup (format_command_result results)
      × (length (format_command_result results) ≤ max_text)
      × (truncate_text (format_command_result results) ≡ format_command_result results)
unfolding format_command_result
format_command_result-IsMarkup results =
    let text : Text = append_lines 0 (explain_all results) in
    let fits : length (trim_space text) ≤ max_text =
      omega (arith, trim_space-le text, append_lines-le (explain_all results) 0 (omega arith)) in
    (
      trim_space-IsMarkup text
          (append_lines-IsMarkup (explain_all results) 0 (explain_all-IsMarkup results)),
      fits,
      truncate_text_fits (trim_space text) fits,
    )
