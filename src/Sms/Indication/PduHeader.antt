-- ===== src/Sms/Indication/PduHeader.antt =====
-- The matcher for `cmtPDUHeaderRE` of internal/sms/sms.go against its grammar.
use at_message_forward.Prelude.{
  some, [], ◌∷◌, ◌++◌, ◌≡◌, ap, sym, ◌∙◌, append_assoc, inl, inr, ◌↔◌, Option-cases,
}
use mathlib.Core.Path.{subst}
use at_message_forward.Text.{Text}
use at_message_forward.Sms.Indication.{
  skip_spaces, match_length, match_quoted, match_plain, first_of_two, match_pdu_header,
}
use at_message_forward.Sms.Indication.Spaces.{
  Spaces, Lacks, IsLength, skip_spaces-append, skip_spaces-leading, leading, cut_at-append,
  match_length_complete,
}
use at_message_forward.Sms.Indication.Grammar.{prefix, quote, IsPduHeader, cut_prefix-append}
use at_message_forward.Sms.Indication.Commas.{
  Lacks-append, Lacks-Spaces, Lacks-IsLength, last_comma_unique,
}
use at_message_forward.Sms.Indication.Sound.{match_quoted_sound, match_pdu_header_sound}

match_quoted_complete :
    (q after t d : Text)
    → Lacks b'"' q
    → Spaces after
    → IsLength t d
    → match_quoted (skip_spaces (quote q ++ (after ++ b',' ∷ t))) ≡ some d
match_quoted_complete q after t d hq ha hl =
    unfold skip_spaces in
    rw (append_assoc q (b'"' ∷ []) (after ++ b',' ∷ t), cut_at-append b'"' q (after ++ b',' ∷ t) hq)
      (rw (skip_spaces-append after (b',' ∷ t) ha) (match_length_complete t d hl))

match_plain_complete :
    (a t d : Text) → Lacks b',' a → IsLength t d → match_plain (a ++ b',' ∷ t) ≡ some d
match_plain_complete a t d ha hl = rw (cut_at-append b',' a t ha) (match_length_complete t d hl)

-- Where both alternatives match, they capture the same digits.
plain_decides :
    (s a t d : Text)
    → s ≡ a ++ b',' ∷ t
    → Lacks b',' a
    → IsLength t d
    → first_of_two (match_quoted (skip_spaces s)) (match_plain s) ≡ some d
plain_decides s a t d e ha hl = elim (Option-cases (match_quoted (skip_spaces s))) [
  | inl other ↦
      rw other (subst (λ x. match_plain x ≡ some d) (sym e) (match_plain_complete a t d ha hl))
  | inr (d', quoted) ↦
      let f = match_quoted_sound (skip_spaces s) d' quoted in
      let (lead, spaces) = skip_spaces-leading s in
      let spelt : s ≡ (leading s ++ f.alpha ++ f.after) ++ b',' ∷ f.length_text =
        lead ∙ ap (λ x. leading s ++ x) f.splits ∙ (simp append_assoc) in
      let same : f.length_text ≡ t =
        last_comma_unique (leading s ++ f.alpha ++ f.after) a f.length_text t (sym spelt ∙ e)
          (Lacks-IsLength f.length_text d' f.is_length) (Lacks-IsLength t d hl) in
      rw quoted (
        sym (match_length_complete f.length_text d' f.is_length)
        ∙ ap match_length same
        ∙ match_length_complete t d hl)
]

match_pdu_header_complete :
    (header d : Text) → IsPduHeader header d → match_pdu_header header ≡ some d
unfolding match_pdu_header
match_pdu_header_complete header d g =
    let tail = g.after ++ b',' ∷ g.length_text in
    rw (g.splits, cut_prefix-append prefix (g.before ++ (g.alpha ++ tail)))
      (elim g.is_alpha [
        | inl (q, e, lacks) ↦ rw (
          skip_spaces-append g.before (g.alpha ++ tail) g.before_spaces,
          e,
          match_quoted_complete q g.after g.length_text d lacks g.after_spaces g.is_length,
        )
        | inr lacks ↦
            plain_decides (g.before ++ (g.alpha ++ tail)) (g.before ++ g.alpha ++ g.after)
              g.length_text d (simp append_assoc)
              (Lacks-append b',' (g.before ++ g.alpha) g.after
                (Lacks-append b',' g.before g.alpha (Lacks-Spaces g.before g.before_spaces) lacks)
                (Lacks-Spaces g.after g.after_spaces))
              g.is_length
      ])

-- The matcher for `cmtPDUHeaderRE` decides the regular expression: it returns a group exactly when
-- the header has that form, with those digits.
pub match_pdu_header_iff :
    (header d : Text) → (match_pdu_header header ≡ some d) ↔ IsPduHeader header d
match_pdu_header_iff header d =
    (match_pdu_header_sound header d, match_pdu_header_complete header d)
