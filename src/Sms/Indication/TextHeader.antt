-- ===== src/Sms/Indication/TextHeader.antt =====
-- The matcher for `cmtHeaderRE` of internal/sms/sms.go against its grammar.
use at_message_forward.Prelude.{
  some, [], ◌∷◌, ◌++◌, ◌==◌, ◌≡◌, ap, ◌∙◌, arith, append_assoc, Bool-cases, inl, inr, ◌↔◌,
  Option-cases,
}
use mathlib.Core.Option.{some-injective}
use mathlib.Core.Path.{subst}
use at_message_forward.Text.{Text, cut_prefix}
use at_message_forward.Sms.Indication.{skip_spaces, cut_at, match_text_header, quoted_text}
use at_message_forward.Sms.Indication.Spaces.{
  Lacks, skip_spaces-append, skip_spaces-leading, leading, cut_at-append, cut_at_sound,
}
use at_message_forward.Sms.Indication.Grammar.{
  prefix, quote, IsTextHeader, cut_prefix-append, cut_prefix_sound, and_then-eq-some,
}

quoted_text_sound :
    (s q : Text) → quoted_text s ≡ some q → (rest : Text) × (s ≡ quote q ++ rest) × Lacks b'"' q
quoted_text_sound [] q h = absurd (cc h)
quoted_text_sound (c ∷ s) q h = elim (Bool-cases (c == b'"')) [
  | inl quoted ↦ elim (Option-cases (cut_at b'"' s)) [
    | inl e ↦ absurd (cc (rw (quoted, e) at h))
    | inr (p, e) ↦
        let (splits, lacks) = cut_at_sound b'"' s p e in
        let same = some-injective _ _ (rw (quoted, e) at h) in
        (p.1, ground (arith, append_assoc q (b'"' ∷ []) p.1), subst (Lacks b'"') same lacks)
  ]
  | inr other ↦ absurd (cc (rw other at h))
]

match_text_header_sound :
    (header q : Text) → match_text_header header ≡ some q → IsTextHeader header q
unfolding match_text_header
match_text_header_sound header q h =
    let (s, cut, h') = and_then-eq-some (cut_prefix prefix header) _ h in
    let (lead, spaces) = skip_spaces-leading s in
    let (rest, e, lacks) = quoted_text_sound (skip_spaces s) q h' in
    record {
      before = leading s;
      rest = rest;
      splits =
          cut_prefix_sound prefix header s cut
          ∙ ap (λ x. prefix ++ x) (lead ∙ ap (λ x. leading s ++ x) e);
      before_spaces = spaces;
      lacks = lacks;
    }

match_text_header_complete :
    (header q : Text) → IsTextHeader header q → match_text_header header ≡ some q
unfolding match_text_header skip_spaces
match_text_header_complete header q g = rw (
  g.splits,
  cut_prefix-append prefix (g.before ++ (quote q ++ g.rest)),
  skip_spaces-append g.before (quote q ++ g.rest) g.before_spaces,
  append_assoc q (b'"' ∷ []) g.rest,
  cut_at-append b'"' q g.rest g.lacks,
)

-- The matcher for `cmtHeaderRE` decides the regular expression: it returns a group exactly when the
-- header has that form, with that quoted sender.
pub match_text_header_iff :
    (header q : Text) → (match_text_header header ≡ some q) ↔ IsTextHeader header q
match_text_header_iff header q =
    (match_text_header_sound header q, match_text_header_complete header q)
