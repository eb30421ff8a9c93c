-- ===== src/Transport/Select/Laws.antt =====
-- Identifiers in hexadecimal, as a configuration may spell them.
use at_message_forward.Prelude.{
  ℕ, ◌+◌, ◌*◌, ◌/◌, ◌%◌, ◌^◌, ◌<◌, true, false, none, some, [], ◌∷◌, ◌++◌, ltb, ◌==◌, map, ok, ◌≡◌,
  refl, ap, ◌∙◌, arith, Bool-cases, inl, inr,
}
use at_message_forward.Text.{
  Text, codes, trim_prefix, cut_prefix, to_lower, hex_digit, is_empty, is_space,
}
use at_message_forward.Sms.Pdu.Readers.{is_space-hex_char}
use at_message_forward.Text.Spaces.{NoSpace, trim_space-NoSpace}
use at_message_forward.Sms.Hex.{hex_char}
use at_message_forward.Transport.Select.{parse_uint_from, parse_uint, hex_part, parse_hex_id}

-- The four digits of a number of 16 bits, in capitals.
abbrev pub hex_id : ℕ → Text
hex_id n =
    hex_char (n / 4096 % 16)
    ∷ hex_char (n / 256 % 16)
    ∷ hex_char (n / 16 % 16)
    ∷ hex_char (n % 16)
    ∷ []

digit_back : (d : ℕ) → d < 16 → hex_digit (to_lower (hex_char d)) ≡ some d
unfolding hex_digit to_lower hex_char
digit_back d h = ground arith

no_x : (d : ℕ) → d < 16 → (b'x' == to_lower (hex_char d)) ≡ false
unfolding to_lower hex_char
no_x d h = ground arith

read_digit :
    (m d : ℕ) (s : Text)
    → d < 16
    → m * 16 + d < 2 ^ 16
    → parse_uint_from m (to_lower (hex_char d) ∷ s) ≡ parse_uint_from (m * 16 + d) s
unfolding parse_uint_from
read_digit m d s h fits =
    let small : ltb (m * 16 + d) (2 ^ 16) ≡ true = ground (arith, fits) in
    rw (digit_back d h) (rw small refl)

abbrev lower_id : ℕ → Text
lower_id n = map to_lower (hex_id n)

parse_uint-lower_id : (n : ℕ) → n < 2 ^ 16 → parse_uint (lower_id n) ≡ some n
unfolding parse_uint
parse_uint-lower_id n h =
    let a : ℕ = n / 4096 % 16 in
    let b : ℕ = n / 256 % 16 in
    let c : ℕ = n / 16 % 16 in
    let d : ℕ = n % 16 in
    let sum : ((a * 16 + b) * 16 + c) * 16 + d ≡ n = omega (arith, h) in
    read_digit 0 a (map to_lower (hex_char b ∷ hex_char c ∷ hex_char d ∷ [])) (omega arith)
      (omega arith)
    ∙ read_digit (0 * 16 + a) b (map to_lower (hex_char c ∷ hex_char d ∷ [])) (omega arith)
        (omega arith)
    ∙ read_digit ((0 * 16 + a) * 16 + b) c (map to_lower (hex_char d ∷ [])) (omega arith)
        (omega arith)
    ∙ read_digit (((0 * 16 + a) * 16 + b) * 16 + c) d [] (omega arith) (omega (arith, h))
    ∙ unfold parse_uint_from in ap some (omega (arith, sum))

prefix_stays :
    (c d : ℕ) (s : Text) → (b'x' == d) ≡ false → cut_prefix (codes "0x") (c ∷ d ∷ s) ≡ none
unfolding cut_prefix
prefix_stays c d s h = elim (Bool-cases (b'0' == c)) [
  | inl zero_first ↦ rw (zero_first, h) refl
  | inr other ↦ rw other refl
]

hex_part_bare : (n : ℕ) → hex_part (hex_id n) ≡ lower_id n
unfolding trim_prefix
hex_part_bare n =
    rw
      (prefix_stays (to_lower (hex_char (n / 4096 % 16))) (to_lower (hex_char (n / 256 % 16)))
        (to_lower (hex_char (n / 16 % 16)) ∷ to_lower (hex_char (n % 16)) ∷ [])
        (no_x (n / 256 % 16) (omega arith)))
      refl

hex_part_prefixed : (n x : ℕ) → to_lower x ≡ b'x' → hex_part (b'0' ∷ x ∷ hex_id n) ≡ lower_id n
unfolding trim_prefix cut_prefix to_lower
hex_part_prefixed n x h = rw h refl

hex_id-NoSpace : (n : ℕ) → NoSpace (hex_id n)
hex_id-NoSpace n = (
  is_space-hex_char (n / 4096 % 16) (omega arith),
  (
    is_space-hex_char (n / 256 % 16) (omega arith),
    (is_space-hex_char (n / 16 % 16) (omega arith), (is_space-hex_char (n % 16) (omega arith), tt)),
  ),
)

-- The ways to spell an identifier.
pub data Spelling : Type 0 where
  bare small_prefix large_prefix : Spelling

abbrev pub spell : Spelling → Text → Text
spell bare s = s
spell small_prefix s = codes "0x" ++ s
spell large_prefix s = codes "0X" ++ s

spell-NoSpace : (w : Spelling) (n : ℕ) → NoSpace (spell w (hex_id n))
spell-NoSpace bare n = hex_id-NoSpace n
spell-NoSpace small_prefix n = unfold is_space in (refl, (refl, hex_id-NoSpace n))
spell-NoSpace large_prefix n = unfold is_space in (refl, (refl, hex_id-NoSpace n))

hex_part-spell : (w : Spelling) (n : ℕ) → hex_part (spell w (hex_id n)) ≡ lower_id n
hex_part-spell bare n = hex_part_bare n
hex_part-spell small_prefix n = hex_part_prefixed n b'x' (unfold to_lower in refl)
hex_part-spell large_prefix n = hex_part_prefixed n b'X' (unfold to_lower in refl)

spell_nonempty : (w : Spelling) (n : ℕ) → is_empty (spell w (hex_id n)) ≡ false
spell_nonempty bare n = refl
spell_nonempty small_prefix n = refl
spell_nonempty large_prefix n = refl

-- Every number of 16 bits, written with four hexadecimal digits in capitals, is read back, with 0x or
-- 0X in front or neither.
pub parse_hex_id-spell :
    (w : Spelling) (n : ℕ) → n < 2 ^ 16 → parse_hex_id (spell w (hex_id n)) ≡ ok n
unfolding parse_hex_id
parse_hex_id-spell w n h =
    rw
      (
        trim_space-NoSpace (spell w (hex_id n)) (spell-NoSpace w n),
        spell_nonempty w n,
        hex_part-spell w n,
        parse_uint-lower_id n h,
      )
      refl
