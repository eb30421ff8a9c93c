-- ===== src/Sms/Pdu/Address.antt =====
-- Telephone numbers as semi-octets, and the address reader of internal/sms/sms.go as their inverse.
use mathlib.Core.Path.{ap₂}
use at_message_forward.Prelude.{
  ℕ, ◌+◌, ◌-◌, ◌*◌, ◌/◌, ◌%◌, ◌≤◌, ◌<◌, List, [], ◌∷◌, ◌++◌, ◌==◌, if◌then◌else◌, length, ◌≡◌, refl,
  ap, arith, All, ◌∙◌, ok,
}
use at_message_forward.Text.{Text, trim_right, keep}
use at_message_forward.Sms.Hex.{IsByte, hex_text, hex_byte, hex_char}
use at_message_forward.Sms.Pdu.{
  is_filler, swap_pairs, decode_semi_octets, address_hex_len, read_address,
}
use at_message_forward.Sms.Pdu.Readers.{read_byte-hex_text, read_hex-hex_text}

abbrev pub IsDigit : ℕ → Type 0
IsDigit c = (b'0' ≤ c) × (c ≤ b'9')

-- Two digits to an octet, the first in the low half; a last digit alone has the filler F above it.
unfoldable pub semi_octets : Text → List ℕ
semi_octets [] = []
semi_octets (a ∷ []) = (0xF0 + (a - b'0')) ∷ []
semi_octets (a ∷ b ∷ digits) = ((b - b'0') * 16 + (a - b'0')) ∷ semi_octets digits

-- The filler behind an odd number of digits.
abbrev padding : Text → Text
padding [] = []
padding (a ∷ []) = b'F' ∷ []
padding (a ∷ b ∷ digits) = padding digits

hex_char-digit : (a : ℕ) → IsDigit a → hex_char (a - b'0') ≡ a
unfolding hex_char
hex_char-digit a h = ground arith

low_half : (a b : ℕ) → IsDigit a → IsDigit b → ((b - b'0') * 16 + (a - b'0')) % 16 ≡ a - b'0'
low_half a b ha hb = omega arith

high_half : (a b : ℕ) → IsDigit a → IsDigit b → ((b - b'0') * 16 + (a - b'0')) / 16 ≡ b - b'0'
high_half a b ha hb = omega arith

swap_pairs-semi_octets :
    (digits : Text)
    → All IsDigit digits
    → swap_pairs (hex_text (semi_octets digits)) ≡ digits ++ padding digits
unfolding swap_pairs semi_octets hex_text hex_byte
swap_pairs-semi_octets [] h = refl
swap_pairs-semi_octets (a ∷ []) h = unfold hex_char in ground arith
swap_pairs-semi_octets (a ∷ b ∷ digits) h =
    ap₂ (◌∷◌) (ap hex_char (low_half a b h.0 h.1.0) ∙ hex_char-digit a h.0) (
      ap₂ (◌∷◌) (ap hex_char (high_half a b h.0 h.1.0) ∙ hex_char-digit b h.1.0)
        (swap_pairs-semi_octets digits h.1.1))

keep-digit : (a : ℕ) (s : Text) → IsDigit a → keep is_filler a s ≡ a ∷ s
keep-digit a [] h = ground arith
keep-digit a (c ∷ s) h = refl

trim_right-padding :
    (digits : Text) → All IsDigit digits → trim_right is_filler (digits ++ padding digits) ≡ digits
unfolding trim_right
trim_right-padding [] h = refl
trim_right-padding (a ∷ []) h = keep-digit a [] h.0
trim_right-padding (a ∷ b ∷ digits) h =
    rw (trim_right-padding digits h.1.1, keep-digit b digits h.1.0)

decode_semi_octets-semi_octets :
    (digits : Text)
    → All IsDigit digits
    → decode_semi_octets (hex_text (semi_octets digits)) (length digits) ≡ digits
unfolding decode_semi_octets
decode_semi_octets-semi_octets digits h =
    rw (swap_pairs-semi_octets digits h, trim_right-padding digits h) (ground arith)

pub length-semi_octets : (digits : Text) → length (semi_octets digits) ≡ (length digits + 1) / 2
unfolding semi_octets
length-semi_octets [] = refl
length-semi_octets (a ∷ []) = refl
length-semi_octets (a ∷ b ∷ digits) = omega (arith, length-semi_octets digits)

pub semi_octets-IsByte : (digits : Text) → All IsDigit digits → All IsByte (semi_octets digits)
unfolding semi_octets
semi_octets-IsByte [] h = tt
semi_octets-IsByte (a ∷ []) h = omega arith
semi_octets-IsByte (a ∷ b ∷ digits) h = (omega arith, semi_octets-IsByte digits h.1.1)

-- The octets of an address: the count of its digits, its type, its semi-octets.
unfoldable pub address_octets : ℕ → Text → List ℕ
address_octets toa digits = length digits ∷ toa ∷ semi_octets digits

-- The sender as the event shows it.
abbrev pub shown_number : ℕ → Text → Text
shown_number toa digits = if toa == 0x91 then b'+' ∷ digits else digits

-- What the reader returns in front of any octets, for up to 254 digits.
pub read_address-address_octets :
    (toa : ℕ) (digits : Text) (rest : List ℕ)
    → IsByte toa
    → All IsDigit digits
    → length digits < 255
    → read_address (hex_text (address_octets toa digits ++ rest))
      ≡ ok (shown_number toa digits, hex_text rest)
unfolding read_address address_octets address_hex_len
read_address-address_octets toa digits rest ht hd hl = rw (
  read_byte-hex_text (length digits) (toa ∷ (semi_octets digits ++ rest)) (omega arith),
  read_byte-hex_text toa (semi_octets digits ++ rest) ht,
  read_hex-hex_text ((length digits + 1) % 256 / 2 * 2) (semi_octets digits) rest
      (omega (arith, length-semi_octets digits)),
  decode_semi_octets-semi_octets digits hd,
)
