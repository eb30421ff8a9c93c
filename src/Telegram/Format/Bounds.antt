-- ===== src/Telegram/Format/Bounds.antt =====
-- How long the texts of internal/notifier/telegram/format.go become.
use at_message_forward.Prelude.{
  ℕ, suc, ◌+◌, ◌-◌, ◌≤◌, Bool, true, false, List, [], ◌∷◌, ◌++◌, ltb, leb, ◌==◌, if◌then◌else◌,
  length, length-append, ◌≡◌, refl, arith, leb→le,
}
use at_message_forward.Text.{Text, codes, trim_space, trim_left, trim_right, keep, is_space}
use at_message_forward.Telegram.Format.{
  escape_char, escape, truncation_suffix, truncate_from, escape_and_truncate, append_lines,
  max_text, truncate_text, truncate_plain_text,
}

if_le :
    (b : Bool) (s t : Text) (n : ℕ)
    → (b ≡ true → length s ≤ n)
    → (b ≡ false → length t ≤ n)
    → length (if b then s else t) ≤ n
if_le true s t n hs ht = hs refl
if_le false s t n hs ht = ht refl

not_over : (a b : ℕ) → ltb a b ≡ false → b ≤ a
not_over a b h = ground arith

append_le :
    (s t : Text) (used limit : ℕ)
    → length t ≤ limit - (used + length s)
    → used + length s ≤ limit
    → length (s ++ t) ≤ limit - used
append_le s t used limit h fits = omega (arith, h, fits, length-append s t)

truncate_from-le :
    (s : Text) (limit used : ℕ)
    → used + 12 ≤ limit
    → length (truncate_from limit used s) ≤ limit - used
unfolding truncate_from
truncate_from-le [] limit used h = omega arith
truncate_from-le (c ∷ []) limit used h =
    if_le (ltb limit (used + length (escape_char c))) truncation_suffix _ _
      (λ over. omega (arith, h))
      (λ fits.
        append_le (escape_char c) [] used limit (omega arith)
          (not_over limit (used + length (escape_char c)) fits))
truncate_from-le (c ∷ d ∷ s) limit used h =
    if_le (ltb limit (used + length (escape_char c) + 12)) truncation_suffix _ _
      (λ over. omega (arith, h))
      (λ fits.
        let room : used + length (escape_char c) + 12 ≤ limit = not_over limit _ fits in
        if_le (ltb limit (used + length (escape_char c))) truncation_suffix _ _
          (λ over. omega (arith, h))
          (λ fits'.
            append_le (escape_char c) _ used limit
              (truncate_from-le (d ∷ s) limit (used + length (escape_char c)) room)
              (omega (arith, room))))

-- With a limit of at least 12 characters, the length of the mark of truncation, the result of
-- `escapeAndTruncate` is not longer than the limit.
pub escape_and_truncate-le :
    (s : Text) (limit : ℕ) → 12 ≤ limit → length (escape_and_truncate s limit) ≤ limit
unfolding escape_and_truncate
escape_and_truncate-le s limit h =
    if_le (limit == 0) [] _ limit (λ zero_limit. omega arith)
      (λ some_limit.
        if_le (leb (length (escape s)) limit) (escape s) _ limit (leb→le (length (escape s)) limit)
          (λ over. omega (arith, truncate_from-le s limit 0 h)))

pub append_lines-le :
    (lines : List Text) (used : ℕ)
    → used + 12 ≤ max_text
    → length (append_lines used lines) ≤ max_text - used
unfolding append_lines
append_lines-le [] used h = omega arith
append_lines-le (line ∷ lines) used h =
    let chunk : Text = line ++ codes "\n" in
    if_le (ltb max_text (used + length chunk)) _ _ _
      (λ over.
        if_le (leb (used + length truncation_suffix) max_text) truncation_suffix [] _
          (λ fits. omega (arith, h)) (λ full. omega arith))
      (λ fits.
        if_le (ltb max_text (used + length chunk + 12)) truncation_suffix _ _
          (λ over. omega (arith, h))
          (λ fits'.
            let room : used + length chunk + 12 ≤ max_text = not_over max_text _ fits' in
            append_le chunk _ used max_text (append_lines-le lines (used + length chunk) room)
              (omega (arith, room))))

keep-le : (p : ℕ → Bool) (c : ℕ) (s : Text) → length (keep p c s) ≤ suc (length s)
keep-le p c [] = if_le (p c) [] (c ∷ []) 1 (λ h. omega arith) (λ h. omega arith)
keep-le p c (d ∷ s) = omega arith

trim_right-le : (p : ℕ → Bool) (s : Text) → length (trim_right p s) ≤ length s
unfolding trim_right
trim_right-le p [] = omega arith
trim_right-le p (c ∷ s) = omega (arith, keep-le p c (trim_right p s), trim_right-le p s)

trim_left-le : (p : ℕ → Bool) (s : Text) → length (trim_left p s) ≤ length s
unfolding trim_left
trim_left-le p [] = omega arith
trim_left-le p (c ∷ s) =
    if_le (p c) (trim_left p s) (c ∷ s) _ (λ h. omega (arith, trim_left-le p s)) (λ h. omega arith)

pub trim_space-le : (s : Text) → length (trim_space s) ≤ length s
unfolding trim_space
trim_space-le s =
    omega (arith, trim_right-le is_space (trim_left is_space s), trim_left-le is_space s)

-- A message that fits is sent as it is.
pub truncate_text_fits : (s : Text) → length s ≤ max_text → truncate_text s ≡ s
unfolding truncate_text truncate_plain_text
truncate_text_fits s h = ground arith
