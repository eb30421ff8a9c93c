-- ===== src/Telegram/Markup/Escape.antt =====
-- What `html.EscapeString` and `escapeAndTruncate` of internal/notifier/telegram/format.go make of a text.
use at_message_forward.Prelude.{
  ℕ, ◌+◌, Bool, true, false, [], ◌∷◌, leb, ◌==◌, if◌then◌else◌, ◌≡◌, refl, length, Bool-cases, inl,
  inr,
}
use at_message_forward.Text.{Text, text_eq}
use at_message_forward.Telegram.Format.{
  escape_char, escape, truncation_suffix, truncate_from, escape_and_truncate,
}
use at_message_forward.Telegram.Markup.{inside, read, scan, IsPlain, scan-append}

ordinary :
    (c : ℕ) → (c == b'&') ≡ false → (c == b'<') ≡ false → (c == b'>') ≡ false → IsPlain (c ∷ [])
unfolding scan read
ordinary c a l g e = rw (l, g, a) refl

escape_char-IsPlain : (c : ℕ) → IsPlain (escape_char c)
unfolding scan read text_eq
escape_char-IsPlain c e = elim (Bool-cases (c == b'&')) [
  | inl amp ↦ rw amp refl
  | inr a ↦ elim (Bool-cases (c == b'\'')) [
    | inl quote ↦ rw (a, quote) refl
    | inr q ↦ elim (Bool-cases (c == b'<')) [
      | inl less ↦ rw (a, q, less) refl
      | inr l ↦ elim (Bool-cases (c == b'>')) [
        | inl greater ↦ rw (a, q, l, greater) refl
        | inr g ↦ elim (Bool-cases (c == b'"')) [
          | inl double ↦ rw (a, q, l, g, double) refl
          | inr d ↦ rw (a, q, l, g, d) (ordinary c a l g e)
        ]
      ]
    ]
  ]
]

pub escape-IsPlain : (s : Text) → IsPlain (escape s)
unfolding escape
escape-IsPlain [] e = unfold scan in refl
escape-IsPlain (c ∷ s) e =
    scan-append (escape_char c) (escape s) (inside e) (escape_char-IsPlain c e) (escape-IsPlain s e)

suffix-IsPlain : IsPlain truncation_suffix
unfolding scan read
suffix-IsPlain e = refl

choose : (b : Bool) (s t : Text) → IsPlain s → IsPlain t → IsPlain (if b then s else t)
choose true s t hs ht = hs
choose false s t hs ht = ht

truncate_from-IsPlain : (s : Text) (limit used : ℕ) → IsPlain (truncate_from limit used s)
unfolding truncate_from
truncate_from-IsPlain [] limit used = λ e. unfold scan in refl
truncate_from-IsPlain (c ∷ s) limit used = choose _ truncation_suffix _ suffix-IsPlain (
    choose _ truncation_suffix _ suffix-IsPlain (λ e.
      scan-append (escape_char c) _ (inside e) (escape_char-IsPlain c e)
        (truncate_from-IsPlain s limit (used + length (escape_char c)) e)))

pub escape_and_truncate-IsPlain : (s : Text) (limit : ℕ) → IsPlain (escape_and_truncate s limit)
unfolding escape_and_truncate
escape_and_truncate-IsPlain s limit =
    choose (limit == 0) [] _ (λ e. unfold scan in refl)
      (choose (leb (length (escape s)) limit) (escape s) _ (escape-IsPlain s)
        (truncate_from-IsPlain s limit 0))
