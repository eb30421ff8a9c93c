-- ===== src/Sms/Hex.antt =====
-- Hexadecimal text of internal/sms/sms.go: `hexLineRE`, `hexToBytes` and `strconv.ParseUint(s, 16, 8)`
-- on two characters.
use at_message_forward.Prelude.{
  ℕ, ◌+◌, ◌-◌, ◌*◌, ◌/◌, ◌%◌, ◌<◌, Bool, true, not, ◌&&◌, Option, none, some, List, [], ◌∷◌, ltb,
  if◌then◌else◌, Result, ok, err, ◌>>=◌, All, ◌≡◌, refl, arith, ◌++◌,
}
use at_message_forward.Text.{Text, is_empty, is_some, hex_digit}

-- The errors of the package, one constructor for each message.
pub data Error : Type 0 where
  missing_body not_hex bad_length unsupported_header odd_hex_length unexpected_eof bad_digit : Error
  length_mismatch : ℕ → Error
  unsupported_mti : ℕ → Error
  odd_ucs2_length : Error

abbrev pub byte_of : Option ℕ → Option ℕ → Result Error ℕ
byte_of (some h) (some l) = ok (h * 16 + l)
byte_of (some h) none = err bad_digit
byte_of none l = err bad_digit

-- `strconv.ParseUint(s, 16, 8)` for `s` of two characters.
unfoldable pub parse_byte : ℕ → ℕ → Result Error ℕ
parse_byte a b = byte_of (hex_digit a) (hex_digit b)

-- `hexToBytes`: an odd character at the end is not read.
unfoldable pub hex_to_bytes : Text → Result Error (List ℕ)
hex_to_bytes [] = ok []
hex_to_bytes (a ∷ []) = ok []
hex_to_bytes (a ∷ b ∷ s) = do v ← parse_byte a b; vs ← hex_to_bytes s; ok (v ∷ vs)

-- `[0-9A-Fa-f]*`; `hexLineRE` wants one character at least.
unfoldable pub all_hex : Text → Bool
all_hex [] = true
all_hex (c ∷ s) = is_some (hex_digit c) && all_hex s

unfoldable pub is_hex_line : Text → Bool
is_hex_line s = not (is_empty s) && all_hex s

-- An upper-case digit, as the verb `%X` prints it.
unfoldable pub hex_char : ℕ → ℕ
hex_char n = if ltb n 10 then b'0' + n else b'A' + n - 10

-- The verb `%02X` of a byte.
unfoldable pub hex_byte : ℕ → Text
hex_byte v = hex_char (v / 16) ∷ hex_char (v % 16) ∷ []

-- The text that a modem prints for these bytes.
unfoldable pub hex_text : List ℕ → Text
hex_text [] = []
hex_text (v ∷ vs) = hex_byte v ++ hex_text vs

abbrev pub IsByte : ℕ → Type 0
IsByte v = v < 256

pub parse_byte-hex_byte :
    (v : ℕ) → IsByte v → parse_byte (hex_char (v / 16)) (hex_char (v % 16)) ≡ ok v
unfolding parse_byte hex_digit hex_char
parse_byte-hex_byte v h = ground arith

pub hex_to_bytes-hex_text : (vs : List ℕ) → All IsByte vs → hex_to_bytes (hex_text vs) ≡ ok vs
unfolding hex_to_bytes hex_text hex_byte
hex_to_bytes-hex_text [] h = refl
hex_to_bytes-hex_text (v ∷ vs) h = rw (parse_byte-hex_byte v h.0, hex_to_bytes-hex_text vs h.1)
