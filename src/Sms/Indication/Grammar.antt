-- ===== src/Sms/Indication/Grammar.antt =====
-- The regular expressions `cmtPDUHeaderRE` and `cmtHeaderRE` of internal/sms/sms.go as grammars.
use at_message_forward.Prelude.{
  Option, none, some, and_then, [], ◌∷◌, ◌++◌, ◌==◌, ◌≡◌, refl, arith, Bool-cases, inl, inr, ◌⊎◌,
}
use at_message_forward.Text.{Text, codes, cut_prefix}
use at_message_forward.Sms.Indication.{match_comma}
use at_message_forward.Sms.Indication.Spaces.{Spaces, Lacks, IsLength, match_length_sound}

abbrev pub prefix : Text
prefix = codes "+CMT:"

-- `"[^"]*"`.
abbrev pub quote : Text → Text
quote q = b'"' ∷ (q ++ b'"' ∷ [])

-- `"[^"]*"|[^,]*`.
abbrev pub IsAlpha : Text → Type 0
IsAlpha x = ((q : Text) × (x ≡ quote q) × Lacks b'"' q) ⊎ Lacks b',' x

-- `^\+CMT:\s*(?:(?:"[^"]*"|[^,]*))?\s*,\s*(\d+)\s*$`, with the group `d`.
pub record IsPduHeader (header d : Text) : Type 0 where
  pub before : Text
  pub alpha : Text
  pub after : Text
  pub length_text : Text
  pub splits : header ≡ prefix ++ (before ++ (alpha ++ (after ++ b',' ∷ length_text)))
  pub before_spaces : Spaces before
  pub is_alpha : IsAlpha alpha
  pub after_spaces : Spaces after
  pub is_length : IsLength length_text d

-- `^\+CMT:\s*"([^"]*)"`, with the group `q`.
pub record IsTextHeader (header q : Text) : Type 0 where
  pub before : Text
  pub rest : Text
  pub splits : header ≡ prefix ++ (before ++ (quote q ++ rest))
  pub before_spaces : Spaces before
  pub lacks : Lacks b'"' q

pub cut_prefix-append : (p s : Text) → cut_prefix p (p ++ s) ≡ some s
unfolding cut_prefix
cut_prefix-append [] s = refl
cut_prefix-append (c ∷ p) s = ground (arith, cut_prefix-append p s)

pub cut_prefix_sound : (p s t : Text) → cut_prefix p s ≡ some t → s ≡ p ++ t
unfolding cut_prefix
cut_prefix_sound [] s t h = ground arith
cut_prefix_sound (c ∷ p) [] t h = absurd (cc h)
cut_prefix_sound (c ∷ p) (d ∷ s) t h = ground (arith, cut_prefix_sound p s t)

pub and_then-eq-some :
    {A B : Type 0} (o : Option A) (f : A → Option B) {b : B}
    → and_then o f ≡ some b
    → (a : A) × (o ≡ some a) × (f a ≡ some b)
and_then-eq-some none f h = absurd (cc h)
and_then-eq-some (some a) f h = (a, refl, h)

pub match_comma_sound :
    (s d : Text) → match_comma s ≡ some d → (t : Text) × (s ≡ b',' ∷ t) × IsLength t d
match_comma_sound [] d h = absurd (cc h)
match_comma_sound (c ∷ s) d h = elim (Bool-cases (c == b',')) [
  | inl comma ↦ (s, ground arith, match_length_sound s d (rw comma at h))
  | inr other ↦ absurd (cc (rw other at h))
]
