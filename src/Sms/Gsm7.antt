-- ===== src/Sms/Gsm7.antt =====
-- `decodeGSM7` of internal/sms/sms.go: septets read bit by bit from packed octets.
pub mod Bits
pub mod RoundTrip
pub mod Header
use at_message_forward.Prelude.{
  ℕ, zero, suc, ◌+◌, ◌*◌, ◌/◌, ◌%◌, ◌^◌, Bool, true, false, List, [], ◌∷◌, ltb, leb, ◌==◌,
  if◌then◌else◌, Result, ok, err, ◌>>=◌, length, get_or,
}
use at_message_forward.Text.{Text}
use at_message_forward.Sms.Hex.{Error, unexpected_eof, hex_to_bytes}
use at_message_forward.Sms.Alphabet.{gsm7_rune}

-- The guards under `if hasUDH`, in `decodeGSM7` and in `decodeUCS2`: the octets of the header.
unfoldable pub header_bytes : List ℕ → Result Error ℕ
header_bytes [] = err unexpected_eof
header_bytes (d ∷ bytes) =
    if ltb (length (d ∷ bytes)) (d + 1) then err unexpected_eof else ok (d + 1)

unfoldable pub skip_bits : Bool → List ℕ → Result Error ℕ
skip_bits false bytes = ok 0
skip_bits true bytes = do n ← header_bytes bytes; ok (n * 8)

-- `octets[absolute/8] & (1 << (absolute%8)) != 0`.
unfoldable pub bit_set : List ℕ → ℕ → Bool
bit_set bytes absolute = get_or bytes (absolute / 8) 0 / 2 ^ (absolute % 8) % 2 == 1

-- The loop over `bit`, with the rounds left: bit `bit` of `value` is clear before it is set, so
-- `|=` is `+`, and the loop stops where the octets end.
unfoldable pub septet_from : ℕ → List ℕ → ℕ → ℕ → ℕ → ℕ
septet_from zero bytes bit_offset bit value = value
septet_from (suc rounds) bytes bit_offset bit value =
    let absolute = bit_offset + bit in
    if leb (length bytes) (absolute / 8)
    then value
    else septet_from rounds bytes bit_offset (bit + 1)
        (if bit_set bytes absolute then value + 2 ^ bit else value)

-- The loop over `septet`, with the rounds left.
unfoldable pub septets_from : ℕ → List ℕ → ℕ → ℕ → Text
septets_from zero bytes skip septet = []
septets_from (suc rounds) bytes skip septet =
    gsm7_rune (septet_from 7 bytes (skip + septet * 7) 0 0)
    ∷ septets_from rounds bytes skip (septet + 1)

unfoldable pub decode_gsm7 : Text → ℕ → Bool → Result Error Text
decode_gsm7 hex septets has_udh = do
  bytes ← hex_to_bytes hex
  skip ← skip_bits has_udh bytes
  ok (septets_from septets bytes skip 0)
