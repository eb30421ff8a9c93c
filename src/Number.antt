-- ===== src/Number.antt =====
-- `strconv.ParseInt` and `strconv.Atoi` in base 10 for 64 bits, and the verb `%d`.
pub mod Laws
use at_message_forward.Prelude.{
  ℕ, zero, suc, ◌+◌, ◌-◌, ◌*◌, ◌/◌, ◌%◌, ◌^◌, Bool, true, ◌&&◌, Option, none, some, [], ◌∷◌, ltb,
  ◌==◌, if◌then◌else◌, ℤ, pos, negsuc, Result, ok, err,
}
use at_message_forward.Text.{Text, is_digit}

-- The digits of `n` in front of `acc`; 20 rounds are enough below 10^20, so for every 64-bit number.
unfoldable pub digits_from : ℕ → ℕ → Text → Text
digits_from zero n acc = acc
digits_from (suc rounds) n acc =
    let more = digits_from rounds (n / 10) ((b'0' + n % 10) ∷ acc) in
    if n / 10 == 0 then (b'0' + n % 10) ∷ acc else more

unfoldable pub show_ℕ : ℕ → Text
show_ℕ n = digits_from 20 n []

abbrev pub show_ℤ : ℤ → Text
show_ℤ (pos n) = show_ℕ n
show_ℤ (negsuc n) = b'-' ∷ show_ℕ (suc n)

unfoldable pub all_digits : Text → Bool
all_digits [] = true
all_digits (c ∷ s) = is_digit c && all_digits s

unfoldable pub value_from : ℕ → Text → ℕ
value_from n [] = n
value_from n (c ∷ s) = value_from (n * 10 + (c - b'0')) s

abbrev pub clamp : ℕ → ℕ → ℕ
clamp max n = if ltb max n then max else n

abbrev pub negate : ℕ → ℤ
negate zero = pos 0
negate (suc n) = negsuc n

-- The value that `strconv.Atoi` returns, beside its error: 0 for a text that is no number, and the
-- nearest `int` for one out of range.
abbrev pub unsigned : ℕ → (ℕ → ℤ) → Text → ℤ
unsigned max sign [] = pos 0
unsigned max sign (c ∷ s) =
    if all_digits (c ∷ s) then sign (clamp max (value_from 0 (c ∷ s))) else pos 0

unfoldable pub atoi : Text → ℤ
atoi [] = pos 0
atoi (c ∷ s) =
    if c == b'-'
    then unsigned (2 ^ 63) negate s
    else if c == b'+'
    then unsigned (2 ^ 63 - 1) pos s
    else unsigned (2 ^ 63 - 1) pos (c ∷ s)

-- The value of the digits behind the sign, if there are digits alone and the value fits.
abbrev pub in_range : ℕ → (ℕ → ℤ) → ℕ → Option ℤ
in_range max sign n = if ltb max n then none else some (sign n)

abbrev pub digits_value : ℕ → (ℕ → ℤ) → Text → Option ℤ
digits_value max sign [] = none
digits_value max sign (c ∷ s) =
    if all_digits (c ∷ s) then in_range max sign (value_from 0 (c ∷ s)) else none

-- The value, or none for a syntax or a range error.
unfoldable pub parse_int : Text → Option ℤ
parse_int [] = none
parse_int (c ∷ s) =
    if c == b'-'
    then digits_value (2 ^ 63) negate s
    else if c == b'+'
    then digits_value (2 ^ 63 - 1) pos s
    else digits_value (2 ^ 63 - 1) pos (c ∷ s)
