-- ===== src/Sms/Delivery.antt =====
-- Whole indications of internal/sms/sms.go: the two lines that a modem prints for a message, read by
-- `ParseCMTIndication`.
use at_message_forward.Prelude.{
  ℕ, ◌+◌, ◌-◌, ◌*◌, ◌/◌, ◌%◌, ◌^◌, ◌≤◌, ◌<◌, true, false, some, List, [], ◌∷◌, ◌++◌, ltb, map,
  length, ok, pos, ◌≡◌, refl, sym, ◌∙◌, arith, All, append_assoc, append-nil, length-map, ◌≢◌,
}
use at_message_forward.Text.{Text, codes, trim_space, is_space, is_some, hex_digit}
use at_message_forward.Number.{show_ℕ, value_from}
use at_message_forward.Number.Laws.{show_ℕ-Digits, show_ℕ-length, show_ℕ-value}
use at_message_forward.Sms.Hex.{IsByte, all_hex, is_hex_line, hex_char, hex_byte, hex_text}
use at_message_forward.Sms.Gsm7.RoundTrip.{
  IsGsm7, septet_of, pack_septets, pack_septets-IsByte, length-pack_septets-le,
}
use at_message_forward.Sms.Pdu.{decode_pdu, has_udh_of}
use at_message_forward.Sms.Pdu.Address.{shown_number}
use at_message_forward.Sms.Pdu.Deliver.{deliver_tpdu, length-deliver_tpdu, deliver_tpdu-IsByte}
use at_message_forward.Sms.Pdu.Layout.{Header, IsHeader, with_smsc}
use at_message_forward.Sms.Pdu.Messages.{decode_pdu_gsm7}
use at_message_forward.Sms.Pdu.Readers.{hex_text-NoSpace}
use at_message_forward.Text.Spaces.{trim_space-NoSpace, trim_space-between, Digits-NoSpace}
use at_message_forward.Sms.Indication.{decimal_from, atoi_digits, parse_cmt_indication}
use at_message_forward.Sms.Indication.Spaces.{Digits, IsLength}
use at_message_forward.Sms.Indication.Grammar.{IsAlpha, IsPduHeader}
use at_message_forward.Sms.Indication.PduHeader.{match_pdu_header_iff}

-- The header line of a modem: what stands for the sender's name, a comma, and the length.
abbrev pub header_line : Text → ℕ → Text
header_line alpha n = codes "+CMT: " ++ (alpha ++ b',' ∷ show_ℕ n)

digit_char : (d : ℕ) → d < 16 → is_some (hex_digit (hex_char d)) ≡ true
unfolding hex_digit hex_char
digit_char d h = ground arith

all_hex-hex_text : (vs : List ℕ) → All IsByte vs → all_hex (hex_text vs) ≡ true
unfolding all_hex hex_text hex_byte
all_hex-hex_text [] h = refl
all_hex-hex_text (v ∷ vs) h =
    rw (digit_char (v / 16) (omega (arith, h.0)), digit_char (v % 16) (omega arith))
      (all_hex-hex_text vs h.1)

is_hex_line-hex_text :
    (octets : List ℕ) → All IsByte octets → 1 ≤ length octets → is_hex_line (hex_text octets) ≡ true
unfolding is_hex_line
is_hex_line-hex_text [] h nonempty = absurd (omega arith)
is_hex_line-hex_text (v ∷ vs) h nonempty =
    let digits : all_hex (hex_text (v ∷ vs)) ≡ true = all_hex-hex_text (v ∷ vs) h in
    unfold hex_text hex_byte in rw digits refl

decimal_from-value : (n : ℕ) (s : Text) → decimal_from n s ≡ value_from n s
unfolding decimal_from value_from
decimal_from-value n [] = refl
decimal_from-value n (c ∷ s) = decimal_from-value (n * 10 + (c - b'0')) s

atoi_digits-show_ℕ : (n : ℕ) → n < 2 ^ 63 → atoi_digits (show_ℕ n) ≡ some n
unfolding atoi_digits
atoi_digits-show_ℕ n h =
    let value : decimal_from 0 (show_ℕ n) ≡ n =
      decimal_from-value 0 (show_ℕ n) ∙ show_ℕ-value n (omega (arith, h)) in
    let small : ltb n (2 ^ 63) ≡ true = ground (arith, h) in rw (value, small) refl

some_digit_lem : (d : Text) → 1 ≤ length d → d ≢ []
some_digit_lem [] h = absurd (omega arith)
some_digit_lem (c ∷ d) h = λ e. cc e

Digits-IsLength : (d : Text) → Digits d → 1 ≤ length d → IsLength d d
Digits-IsLength d h nonempty = record {
  before = [];
  rest = d;
  splits = refl;
  are_spaces = tt;
  ends = record {
    spaces = [];
    splits = sym (append-nil d);
    digits = h;
    some_digit = some_digit_lem d nonempty;
    are_spaces = tt;
  };
}

header-IsPduHeader :
    (alpha : Text) (n : ℕ) → IsAlpha alpha → IsPduHeader (header_line alpha n) (show_ℕ n)
header-IsPduHeader alpha n h = record {
  before = b' ' ∷ [];
  alpha = alpha;
  after = [];
  length_text = show_ℕ n;
  splits = refl;
  before_spaces = (refl, tt);
  is_alpha = h;
  after_spaces = tt;
  is_length = Digits-IsLength (show_ℕ n) (show_ℕ-Digits n) (show_ℕ-length n);
}

trim_space-header_line :
    (alpha : Text) (n : ℕ) → trim_space (header_line alpha n) ≡ header_line alpha n
trim_space-header_line alpha n = simp (sym (append_assoc alpha (b',' ∷ []) (show_ℕ n))) (
    trim_space-between b'+' (codes "CMT: " ++ (alpha ++ b',' ∷ [])) (show_ℕ n)
      (unfold is_space in refl) (show_ℕ-length n) (Digits-NoSpace (show_ℕ n) (show_ℕ-Digits n)))

-- An indication with a header of that form and a line of octets is decoded under the length that the
-- header prints.
parse_cmt_indication-hex_text :
    (now : ℕ) (alpha : Text) (n : ℕ) (octets : List ℕ) (lines : List Text)
    → IsAlpha alpha
    → n < 2 ^ 63
    → All IsByte octets
    → 1 ≤ length octets
    → parse_cmt_indication now (header_line alpha n ∷ hex_text octets ∷ lines)
      ≡ decode_pdu now (hex_text octets) (pos n)
unfolding parse_cmt_indication
parse_cmt_indication-hex_text now alpha n octets lines h fits bytes nonempty =
    rw
      (
        trim_space-header_line alpha n,
        trim_space-NoSpace (hex_text octets) (hex_text-NoSpace octets bytes),
        (match_pdu_header_iff (header_line alpha n) (show_ℕ n)).1 (header-IsPduHeader alpha n h),
        is_hex_line-hex_text octets bytes nonempty,
        atoi_digits-show_ℕ n fits,
      )
      refl

-- A text of up to 255 characters of the GSM alphabet, in one part with no header and coding 0x00, arrives
-- as it was written, with its sender, when the modem prints it as a line `+CMT: `, something in quotes or
-- without a comma, a comma and the length in decimal, then a line of hexadecimal octets.
pub parse_cmt_indication_gsm7 :
    (now : ℕ) (alpha : Text) (h : Header) (scts : List ℕ) (t : Text) (lines : List Text)
    → IsAlpha alpha
    → IsHeader h
    → (h.first_octet % 4 ≡ 0) × (has_udh_of h.first_octet ≡ false) × (h.dcs ≡ 0x00)
    → (length scts ≡ 7) × All IsByte scts
    → All IsGsm7 t
    → length t < 256
    → let tpdu = deliver_tpdu h scts (length t) (pack_septets (map septet_of t)) in
      parse_cmt_indication now
        (header_line alpha (length tpdu) ∷ hex_text (with_smsc h.smsc tpdu) ∷ lines)
      ≡ ok (record { from = shown_number h.toa h.digits; text = t; at = now })
parse_cmt_indication_gsm7 now alpha h scts t lines ha v kind hs ht hl =
    let tpdu : List ℕ = deliver_tpdu h scts (length t) (pack_septets (map septet_of t)) in
    let packed : List ℕ = pack_septets (map septet_of t) in
    let fits : length tpdu < 2 ^ 63 = omega (
      arith,
      v.digits_len,
      hl,
      length-deliver_tpdu h scts (length t) packed hs.0,
      length-pack_septets-le (map septet_of t),
      length-map t septet_of,
    ) in
    let (bytes, nonempty) =
      deliver_tpdu-IsByte h scts (length t) (pack_septets (map septet_of t)) v hs.1
        (hl, pack_septets-IsByte (map septet_of t)) in
    parse_cmt_indication-hex_text now alpha (length tpdu) (with_smsc h.smsc tpdu) lines ha fits
      bytes nonempty
    ∙ decode_pdu_gsm7 now h scts t v kind hs ht hl
