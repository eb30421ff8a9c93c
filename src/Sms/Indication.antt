-- ===== src/Sms/Indication.antt =====
-- `ParseCMTIndication` of internal/sms/sms.go, its regular expressions as matchers by hand.
use at_message_forward.Prelude.{
  ℕ, ◌+◌, ◌-◌, ◌*◌, ◌%◌, ◌^◌, Bool, false, ◌&&◌, ◌||◌, Option, none, some, and_then, List, [], ◌∷◌,
  ltb, leb, ◌==◌, if◌then◌else◌, Result, ok, err, pos,
}
pub mod Spaces
pub mod Grammar
pub mod Commas
pub mod Sound
pub mod PduHeader
pub mod TextHeader
use mathlib.Core.Option
use at_message_forward.Text.{Text, codes, trim_space, cut_prefix, is_digit, is_empty, byte_len}
use at_message_forward.Sms.Hex.{
  Error, missing_body, not_hex, bad_length, unsupported_header, is_hex_line,
}
use at_message_forward.Sms.Ucs2.{decode_ucs2}
use at_message_forward.Sms.Pdu.{Event, decode_pdu}

-- The class `\s` of the regular expressions.
abbrev pub is_re_space : ℕ → Bool
is_re_space c = c == 0x09 || c == 0x0A || c == 0x0C || c == 0x0D || c == 0x20

unfoldable pub skip_spaces : Text → Text
skip_spaces [] = []
skip_spaces (c ∷ s) = if is_re_space c then skip_spaces s else c ∷ s

abbrev pub with_front : ℕ → Option (Text × Text) → Option (Text × Text)
with_front c none = none
with_front c (some (a, b)) = some (c ∷ a, b)

-- The text before the first `stop`, and the text behind it.
unfoldable pub cut_at : ℕ → Text → Option (Text × Text)
cut_at stop [] = none
cut_at stop (c ∷ s) = if c == stop then some ([], s) else with_front c (cut_at stop s)

-- `(\d+)\s*$`: the digits, with the digit in front of them.
unfoldable pub digits_to_end : ℕ → Text → Option Text
digits_to_end d [] = some (d ∷ [])
digits_to_end d (c ∷ s) =
    if is_digit c
    then Option.map (◌∷◌ d) (digits_to_end c s)
    else if is_empty (skip_spaces (c ∷ s))
    then some (d ∷ [])
    else none

abbrev pub first_digit : Text → Option Text
first_digit [] = none
first_digit (c ∷ s) = if is_digit c then digits_to_end c s else none

-- `\s*(\d+)\s*$`, behind the comma.
unfoldable pub match_length : Text → Option Text
match_length s = first_digit (skip_spaces s)

-- `,\s*(\d+)\s*$`.
abbrev pub match_comma : Text → Option Text
match_comma [] = none
match_comma (c ∷ s) = if c == b',' then match_length s else none

-- `"[^"]*"\s*,\s*(\d+)\s*$`.
abbrev pub match_quoted : Text → Option Text
match_quoted [] = none
match_quoted (c ∷ s) =
    if c == b'"' then and_then (cut_at b'"' s) (λ p. match_comma (skip_spaces p.1)) else none

-- `[^,]*,\s*(\d+)\s*$`; the spaces around `[^,]*` are of that class.
abbrev pub match_plain : Text → Option Text
match_plain s = and_then (cut_at b',' s) (λ p. match_length p.1)

abbrev pub first_of_two : Option Text → Option Text → Option Text
first_of_two (some a) b = some a
first_of_two none b = b

-- `cmtPDUHeaderRE.FindStringSubmatch(header)`: the captured length.
unfoldable pub match_pdu_header : Text → Option Text
match_pdu_header header =
    and_then (cut_prefix (codes "+CMT:") header)
      (λ s. first_of_two (match_quoted (skip_spaces s)) (match_plain s))

abbrev pub quoted_text : Text → Option Text
quoted_text [] = none
quoted_text (c ∷ s) = if c == b'"' then Option.map (λ p. p.0) (cut_at b'"' s) else none

-- `cmtHeaderRE.FindStringSubmatch(header)`: the captured sender.
unfoldable pub match_text_header : Text → Option Text
match_text_header header =
    and_then (cut_prefix (codes "+CMT:") header) (λ s. quoted_text (skip_spaces s))

-- The value of decimal digits behind `n`.
unfoldable pub decimal_from : ℕ → Text → ℕ
decimal_from n [] = n
decimal_from n (c ∷ s) = decimal_from (n * 10 + (c - b'0')) s

-- `strconv.Atoi` of a text of digits: an `int` has 64 bits.
unfoldable pub atoi_digits : Text → Option ℕ
atoi_digits s = let n = decimal_from 0 s in if ltb n (2 ^ 63) then some n else none

abbrev pub or_body : Text → Result Error Text → Text
or_body body (ok text) = text
or_body body (err e) = body

-- `decodeTextModeBody`.
unfoldable pub decode_text_mode_body : Text → Text
decode_text_mode_body body =
    if leb 4 (byte_len body) && byte_len body % 4 == 0 && is_hex_line body
    then or_body body (decode_ucs2 body false)
    else body

abbrev pub pdu_of_length : ℕ → Text → Option ℕ → Result Error Event
pdu_of_length now body none = err bad_length
pdu_of_length now body (some n) = decode_pdu now body (pos n)

abbrev pub text_event : ℕ → Text → Option Text → Result Error Event
text_event now body none = err unsupported_header
text_event now body (some from) =
    ok (record { from = from; text = decode_text_mode_body body; at = now })

abbrev pub parse_lines : ℕ → Text → Text → Option Text → Result Error Event
parse_lines now header body (some digits) =
    if is_hex_line body then pdu_of_length now body (atoi_digits digits) else err not_hex
parse_lines now header body none = text_event now body (match_text_header header)

unfoldable pub parse_cmt_indication : ℕ → List Text → Result Error Event
parse_cmt_indication now [] = err missing_body
parse_cmt_indication now (line ∷ []) = err missing_body
parse_cmt_indication now (line ∷ next ∷ lines) =
    let header = trim_space line in
    parse_lines now header (trim_space next) (match_pdu_header header)
