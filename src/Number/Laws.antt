-- ===== src/Number/Laws.antt =====
-- Numbers printed in decimal and read again.
use at_message_forward.Prelude.{
  ℕ, zero, suc, ◌+◌, ◌-◌, ◌/◌, ◌%◌, ◌^◌, ◌≤◌, ◌<◌, true, false, some, [], ◌∷◌, ltb, ◌==◌, ℤ, pos,
  negsuc, ◌≡◌, refl, ap, ◌∙◌, arith, Bool-cases, inl, inr, All, length,
}
use native.Mathlib.Nat.{pow-suc}
use at_message_forward.Text.{Text, is_digit}
use at_message_forward.Number.{
  digits_from, show_ℕ, show_ℤ, all_digits, value_from, negate, digits_value, parse_int,
}

-- The digits of a number below `10 ^ rounds`, read behind a value.
digits_from-value :
    (rounds n : ℕ) (acc : Text)
    → n < 10 ^ rounds
    → value_from 0 (digits_from rounds n acc) ≡ value_from n acc
unfolding digits_from value_from
digits_from-value zero n acc h = ap (λ m. value_from m acc) (omega arith)
digits_from-value (suc rounds) n acc h = elim (Bool-cases (n / 10 == 0)) [
  | inl last ↦ rw last (ap (λ m. value_from m acc) (ground (arith, last)))
  | inr more ↦ rw more (
      digits_from-value rounds (n / 10) ((48 + n % 10) ∷ acc) (omega (arith, h, pow-suc 10 rounds))
      ∙ ap (λ m. value_from m acc) (omega arith))
]

abbrev pub Digits : Text → Type 0
Digits s = All (λ c. is_digit c ≡ true) s

digit : (d : ℕ) → d < 10 → is_digit (48 + d) ≡ true
unfolding is_digit
digit d h = ground arith

digits_from-Digits : (rounds n : ℕ) (acc : Text) → Digits acc → Digits (digits_from rounds n acc)
unfolding digits_from
digits_from-Digits zero n acc h = h
digits_from-Digits (suc rounds) n acc h =
    let more : Digits ((48 + n % 10) ∷ acc) = (digit (n % 10) (omega arith), h) in
    elim (Bool-cases (n / 10 == 0)) [
      | inl last ↦ rw last more
      | inr rest ↦ rw rest (digits_from-Digits rounds (n / 10) ((48 + n % 10) ∷ acc) more)
    ]

digits_from-length : (rounds n : ℕ) (acc : Text) → length acc ≤ length (digits_from rounds n acc)
unfolding digits_from
digits_from-length zero n acc = omega arith
digits_from-length (suc rounds) n acc = elim (Bool-cases (n / 10 == 0)) [
  | inl last ↦ rw last (omega arith)
  | inr rest ↦ rw rest (omega (arith, digits_from-length rounds (n / 10) ((48 + n % 10) ∷ acc)))
]

pub show_ℕ-Digits : (n : ℕ) → Digits (show_ℕ n)
unfolding show_ℕ
show_ℕ-Digits n = digits_from-Digits 20 n [] tt

pub show_ℕ-length : (n : ℕ) → 1 ≤ length (show_ℕ n)
unfolding show_ℕ digits_from
show_ℕ-length n = elim (Bool-cases (n / 10 == 0)) [
  | inl last ↦ rw last (omega arith)
  | inr rest ↦ rw rest (omega (arith, digits_from-length 19 (n / 10) ((48 + n % 10) ∷ [])))
]

pub show_ℕ-value : (n : ℕ) → n < 10 ^ 20 → value_from 0 (show_ℕ n) ≡ n
unfolding show_ℕ
show_ℕ-value n h = digits_from-value 20 n [] h ∙ unfold value_from in refl

all_digits-Digits : (s : Text) → Digits s → all_digits s ≡ true
unfolding all_digits
all_digits-Digits [] h = refl
all_digits-Digits (c ∷ s) h = rw h.0 (all_digits-Digits s h.1)

-- Digits that do not exceed the limit are read.
digits_value-some :
    (max : ℕ) (sign : ℕ → ℤ) (s : Text)
    → Digits s
    → 1 ≤ length s
    → value_from 0 s ≤ max
    → digits_value max sign s ≡ some (sign (value_from 0 s))
digits_value-some max sign [] h nonempty fits = absurd (omega arith)
digits_value-some max sign (c ∷ s) h nonempty fits =
    let whole : all_digits (c ∷ s) ≡ true = all_digits-Digits (c ∷ s) h in
    let small : ltb max (value_from 0 (c ∷ s)) ≡ false = ground (arith, fits) in
    rw (whole, small) refl

digit_no_sign : (c : ℕ) → is_digit c ≡ true → ((c == b'-') ≡ false) × ((c == b'+') ≡ false)
unfolding is_digit
digit_no_sign c h = (ground arith, ground arith)

unsigned_int : (s : Text) → Digits s → 1 ≤ length s → parse_int s ≡ digits_value (2 ^ 63 - 1) pos s
unfolding parse_int
unsigned_int [] h nonempty = absurd (omega arith)
unsigned_int (c ∷ s) h nonempty =
    let (no_minus, no_plus) = digit_no_sign c h.0 in rw (no_minus, no_plus) refl

-- The numbers of 64 bits.
abbrev pub IsInt64 : ℤ → Type 0
IsInt64 (pos n) = n < 2 ^ 63
IsInt64 (negsuc n) = n < 2 ^ 63

pub parse_int-show_ℤ : (z : ℤ) → IsInt64 z → parse_int (show_ℤ z) ≡ some z
parse_int-show_ℤ (pos n) h =
    let value : value_from 0 (show_ℕ n) ≡ n = show_ℕ-value n (omega arith) in
    unsigned_int (show_ℕ n) (show_ℕ-Digits n) (show_ℕ-length n)
    ∙ digits_value-some (2 ^ 63 - 1) pos (show_ℕ n) (show_ℕ-Digits n) (show_ℕ-length n)
        (omega (arith, value, h))
    ∙ ap (λ m. some (pos m)) value
parse_int-show_ℤ (negsuc n) h =
    let value : value_from 0 (show_ℕ (suc n)) ≡ suc n = show_ℕ-value (suc n) (omega arith) in
    unfold parse_int in
    digits_value-some (2 ^ 63) negate (show_ℕ (suc n)) (show_ℕ-Digits (suc n))
      (show_ℕ-length (suc n)) (omega (arith, value, h))
    ∙ ap (λ m. some (negate m)) value
