-- ===== src/Sms/Indication/Sound.antt =====
-- What the matcher for `cmtPDUHeaderRE` of internal/sms/sms.go accepts.
use at_message_forward.Prelude.{
  ℕ, true, Option, none, some, [], ◌∷◌, ◌++◌, ◌==◌, ◌≡◌, refl, ap, ◌∙◌, arith, append_assoc,
  Bool-cases, inl, inr, ◌⊎◌,
}
use at_message_forward.Text.{Text, cut_prefix}
use at_message_forward.Sms.Indication.{
  skip_spaces, cut_at, match_quoted, match_plain, first_of_two, match_pdu_header,
}
use at_message_forward.Sms.Indication.Spaces.{
  Spaces, IsLength, skip_spaces-leading, leading, cut_at_sound, match_length_sound,
}
use at_message_forward.Sms.Indication.Grammar.{
  prefix, quote, IsAlpha, IsPduHeader, cut_prefix_sound, and_then-eq-some, match_comma_sound,
}

-- What follows the prefix, spaces aside.
pub record After (s d : Text) : Type 0 where
  pub alpha : Text
  pub after : Text
  pub length_text : Text
  pub splits : s ≡ alpha ++ (after ++ b',' ∷ length_text)
  pub is_alpha : IsAlpha alpha
  pub after_spaces : Spaces after
  pub is_length : IsLength length_text d

quoted_splits :
    (c : ℕ) (s q p lead skip t : Text)
    → (c == b'"') ≡ true
    → s ≡ q ++ b'"' ∷ p
    → p ≡ lead ++ skip
    → skip ≡ b',' ∷ t
    → c ∷ s ≡ quote q ++ (lead ++ b',' ∷ t)
quoted_splits c s q p lead skip t hc hs hp hk =
    ground (arith, append_assoc q (b'"' ∷ []) (lead ++ b',' ∷ t))

pub match_quoted_sound : (s d : Text) → match_quoted s ≡ some d → After s d
match_quoted_sound [] d h = absurd (cc h)
match_quoted_sound (c ∷ s) d h = elim (Bool-cases (c == b'"')) [
  | inl quoted ↦
      let (p, cut, h') = and_then-eq-some (cut_at b'"' s) _ (rw quoted at h) in
      let (e, lacks) = cut_at_sound b'"' s p cut in
      let (e', spaces) = skip_spaces-leading p.1 in
      let (t, e'', len) = match_comma_sound (skip_spaces p.1) d h' in
      record {
        alpha = quote p.0;
        after = leading p.1;
        length_text = t;
        splits = quoted_splits c s p.0 p.1 (leading p.1) (skip_spaces p.1) t quoted e e' e'';
        is_alpha = inl (p.0, refl, lacks);
        after_spaces = spaces;
        is_length = len;
      }
  | inr other ↦ absurd (cc (rw other at h))
]

match_plain_sound : (s d : Text) → match_plain s ≡ some d → After s d
match_plain_sound s d h =
    let (p, cut, h') = and_then-eq-some (cut_at b',' s) _ h in
    let (e, lacks) = cut_at_sound b',' s p cut in
    record {
      alpha = p.0;
      after = [];
      length_text = p.1;
      splits = e;
      is_alpha = inr lacks;
      after_spaces = tt;
      is_length = match_length_sound p.1 d h';
    }

first_of_two_sound :
    (a b : Option Text) {d : Text} → first_of_two a b ≡ some d → (a ≡ some d) ⊎ (b ≡ some d)
first_of_two_sound none b h = inr h
first_of_two_sound (some a) b h = inl h

After-sound :
    (s d : Text)
    → first_of_two (match_quoted (skip_spaces s)) (match_plain s) ≡ some d
    → (w : Text) × (t : Text) × (s ≡ w ++ t) × Spaces w × After t d
After-sound s d h = elim (first_of_two_sound (match_quoted (skip_spaces s)) (match_plain s) h) [
  | inl quoted ↦
      let (e, spaces) = skip_spaces-leading s in
      (leading s, skip_spaces s, e, spaces, match_quoted_sound (skip_spaces s) d quoted)
  | inr plain ↦ ([], s, refl, tt, match_plain_sound s d plain)
]

pub match_pdu_header_sound :
    (header d : Text) → match_pdu_header header ≡ some d → IsPduHeader header d
unfolding match_pdu_header
match_pdu_header_sound header d h =
    let (s, cut, h') = and_then-eq-some (cut_prefix prefix header) _ h in
    let (w, t, e, spaces, a) = After-sound s d h' in
    record {
      before = w;
      alpha = a.alpha;
      after = a.after;
      length_text = a.length_text;
      splits =
          cut_prefix_sound prefix header s cut
          ∙ ap (λ x. prefix ++ x) (e ∙ ap (λ x. w ++ x) a.splits);
      before_spaces = spaces;
      is_alpha = a.is_alpha;
      after_spaces = a.after_spaces;
      is_length = a.is_length;
    }
