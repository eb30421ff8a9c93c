-- ===== src/Sms/Pdu/Readers.antt =====
-- The readers of `DecodePDU` in internal/sms/sms.go on the hexadecimal text of octets.
use at_message_forward.Prelude.{
  ℕ, ◌+◌, ◌*◌, ◌/◌, ◌%◌, ◌<◌, false, List, [], ◌∷◌, ◌++◌, ltb, length, length-append, take-append,
  drop-append, ◌≡◌, refl, sym, arith, All, ◌∙◌, ok,
}
use at_message_forward.Text.{Text, is_space}
use at_message_forward.Text.Spaces.{NoSpace}
use at_message_forward.Sms.Hex.{IsByte, hex_text, hex_byte, hex_char, parse_byte-hex_byte}
use at_message_forward.Sms.Pdu.{read_hex, read_byte, read_hex_remaining}

pub hex_text-append : (vs ws : List ℕ) → hex_text (vs ++ ws) ≡ hex_text vs ++ hex_text ws
unfolding hex_text hex_byte
hex_text-append [] ws = refl
hex_text-append (v ∷ vs) ws = rw (hex_text-append vs ws)

pub length-hex_text : (vs : List ℕ) → length (hex_text vs) ≡ 2 * length vs
unfolding hex_text hex_byte
length-hex_text [] = refl
length-hex_text (v ∷ vs) = omega (arith, length-hex_text vs)

pub read_hex-append : (n : ℕ) (s rest : Text) → n ≡ length s → read_hex n (s ++ rest) ≡ ok (s, rest)
unfolding read_hex
read_hex-append n s rest e = rw (
  e,
  length-append s rest,
  not_short (length s) (length rest),
  take-append s rest,
  drop-append s rest,
)
  where
    not_short : (a b : ℕ) → ltb (a + b) a ≡ false
    not_short a b = ground arith

pub read_byte-hex_text :
    (v : ℕ) (vs : List ℕ) → IsByte v → read_byte (hex_text (v ∷ vs)) ≡ ok (v, hex_text vs)
unfolding read_byte hex_text hex_byte
read_byte-hex_text v vs h =
    rw (read_hex-append 2 (hex_byte v) (hex_text vs) refl, parse_byte-hex_byte v h)

pub read_hex-hex_text :
    (n : ℕ) (vs ws : List ℕ)
    → n ≡ 2 * length vs
    → read_hex n (hex_text (vs ++ ws)) ≡ ok (hex_text vs, hex_text ws)
read_hex-hex_text n vs ws e =
    rw (hex_text-append vs ws)
      (read_hex-append n (hex_text vs) (hex_text ws) (e ∙ sym (length-hex_text vs)))

pub read_hex_remaining-hex_text : (vs : List ℕ) → read_hex_remaining (hex_text vs) ≡ hex_text vs
unfolding read_hex_remaining hex_text hex_byte
read_hex_remaining-hex_text [] = refl
read_hex_remaining-hex_text (v ∷ vs) = rw (read_hex_remaining-hex_text vs)

pub is_space-hex_char : (n : ℕ) → n < 16 → is_space (hex_char n) ≡ false
unfolding is_space hex_char
is_space-hex_char n h = ground arith

pub hex_text-NoSpace : (vs : List ℕ) → All IsByte vs → NoSpace (hex_text vs)
unfolding hex_text hex_byte
hex_text-NoSpace [] h = tt
hex_text-NoSpace (v ∷ vs) h = (
  is_space-hex_char (v / 16) (omega arith),
  (is_space-hex_char (v % 16) (omega arith), hex_text-NoSpace vs h.1),
)
