-- ===== src/Sms/Ucs2.antt =====
-- `decodeUCS2` of internal/sms/sms.go, with `utf16.Decode` of the standard library.
pub mod RoundTrip
use at_message_forward.Prelude.{
  ℕ, ◌+◌, ◌-◌, ◌*◌, ◌%◌, Bool, true, false, ◌&&◌, List, [], ◌∷◌, ltb, leb, ◌==◌, if◌then◌else◌,
  Result, ok, err, ◌>>=◌, length, drop,
}
use at_message_forward.Text.{Text}
use at_message_forward.Sms.Hex.{Error, odd_ucs2_length, hex_to_bytes}
use at_message_forward.Sms.Gsm7.{header_bytes}

-- The loop that fills `words`, high octet first.
unfoldable pub words_of : List ℕ → List ℕ
words_of [] = []
words_of (a ∷ []) = []
words_of (a ∷ b ∷ bytes) = (a * 256 + b) ∷ words_of bytes

abbrev pub is_high : ℕ → Bool
is_high r = leb 0xD800 r && ltb r 0xDC00

abbrev pub is_low : ℕ → Bool
is_low r = leb 0xDC00 r && ltb r 0xE000

-- `utf16.Decode`: a surrogate without its partner is U+FFFD.
unfoldable pub utf16_decode : List ℕ → Text
utf16_decode [] = []
utf16_decode (r ∷ []) = (if is_high r then 0xFFFD else if is_low r then 0xFFFD else r) ∷ []
utf16_decode (r ∷ s ∷ words) =
    let alone = utf16_decode (s ∷ words) in
    let paired = utf16_decode words in
    if is_high r && is_low s
    then ((r - 0xD800) * 0x400 + (s - 0xDC00) + 0x10000) ∷ paired
    else (if is_high r then 0xFFFD else if is_low r then 0xFFFD else r) ∷ alone

unfoldable pub strip_header : Bool → List ℕ → Result Error (List ℕ)
strip_header false bytes = ok bytes
strip_header true bytes = do n ← header_bytes bytes; ok (drop n bytes)

unfoldable pub decode_words : List ℕ → Result Error Text
decode_words bytes =
    if length bytes % 2 == 0 then ok (utf16_decode (words_of bytes)) else err odd_ucs2_length

unfoldable pub decode_ucs2 : Text → Bool → Result Error Text
decode_ucs2 hex has_udh = do
  all ← hex_to_bytes hex
  bytes ← strip_header has_udh all
  decode_words bytes
