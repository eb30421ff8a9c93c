-- ===== src/Sms/Tests.antt =====
-- Runs of the decoder on the inputs of internal/sms/sms_test.go.
use at_message_forward.Prelude.{
  ℕ, String, ◌≡◌, refl, [], ◌∷◌, Option, some, none, Result, ok, err, pos,
}
use at_message_forward.Text.{
  Text, codes, cut_prefix, is_digit, trim_space, trim_left, is_space, trim_right, hex_digit,
  byte_len, rune_len,
}
use at_message_forward.Sms.Alphabet.{gsm7_rune}
use at_message_forward.Sms.Gsm7.{
  bit_set, septet_from, septets_from, skip_bits, header_bytes, decode_gsm7,
}
use at_message_forward.Sms.Hex.{
  Error, length_mismatch, unsupported_mti, parse_byte, hex_byte, hex_char, hex_to_bytes, all_hex,
  is_hex_line,
}
use at_message_forward.Sms.Indication.{
  skip_spaces, cut_at, digits_to_end, match_length, match_pdu_header, match_text_header,
  decimal_from, atoi_digits, decode_text_mode_body, parse_cmt_indication,
}
use at_message_forward.Sms.Pdu.{
  Event, decode_pdu, decode_trimmed, decode_tpdu, decode_deliver_tpdu, decode_submit_tpdu,
  skip_submit_validity_period, read_user_data, decode_user_data, read_address, address_hex_len,
  decode_semi_octets, swap_pairs, read_hex_remaining, read_byte, read_hex,
}
use at_message_forward.Sms.Ucs2.{decode_ucs2, strip_header, decode_words, words_of, utf16_decode}

unfoldable pub decoded : String → ℕ → Result Error Event
unfolding decode_pdu decode_trimmed decode_tpdu decode_deliver_tpdu decode_submit_tpdu
    skip_submit_validity_period read_user_data decode_user_data read_address address_hex_len
    decode_semi_octets swap_pairs trim_space trim_left is_space trim_right read_hex_remaining
    read_byte read_hex parse_byte hex_digit hex_byte hex_char decode_gsm7 hex_to_bytes skip_bits
    header_bytes septets_from septet_from bit_set gsm7_rune decode_ucs2 strip_header decode_words
    words_of utf16_decode
decoded pdu n = decode_pdu 5 (codes pdu) (pos n)

length_of : String → Option Text
unfolding match_pdu_header cut_prefix skip_spaces cut_at match_length digits_to_end is_digit
length_of header = match_pdu_header (codes header)

parsed : String → String → Result Error Event
unfolding decoded length_of parse_cmt_indication match_text_header atoi_digits decimal_from
    decode_text_mode_body byte_len rune_len is_hex_line all_hex
parsed header body = parse_cmt_indication 5 (codes header ∷ codes body ∷ [])

abbrev pub test_pdu : String
test_pdu = "07915892200417F5240BA14180889969F100006260918022320004F4F29C0E"

abbrev event : String → String → Event
event from text = record { from = codes from; text = codes text; at = 5 }

gsm7_vector : decoded test_pdu 23 ≡ ok (event "14088899961" "test")
unfolding decoded
gsm7_vector = refl

mismatch_vector : decoded test_pdu 24 ≡ err (length_mismatch 23)
unfolding decoded
mismatch_vector = refl

submit_vector :
    decoded "0011000B912143658709F10000AA04F4F29C0E" 18 ≡ ok (event "+12345678901" "test")
unfolding decoded
submit_vector = refl

mti_vector : decoded "0002" 1 ≡ err (unsupported_mti 2)
unfolding decoded
mti_vector = refl

pdu_headers :
    (length_of "+CMT:,23" ≡ some (codes "23"))
    × (length_of "+CMT: , 23" ≡ some (codes "23"))
    × (length_of "+CMT:\"\",23" ≡ some (codes "23"))
    × (length_of "+CMT:\"alpha\",5" ≡ some (codes "5"))
    × (length_of "+CMT: \"+86138xxxx0000\",\"\",\"26/06/19,16:30:00+32\"" ≡ none)
unfolding length_of
pdu_headers = (refl, refl, refl, refl, refl)

indication_text :
    parse_cmt_indication 5 (
      codes "+CMT: \"+86138xxxx0000\",\"\",\"26/06/19,16:30:00+32\""
      ∷ codes "Your code is 123456"
      ∷ [])
    ≡ ok (event "+86138xxxx0000" "Your code is 123456")
unfolding parsed
indication_text = refl

indication_ucs2 :
    parse_cmt_indication 5 (
      codes "+CMT: \"10686230813854910496\",,\"26/07/06,13:56:07+32\""
      ∷ codes
          "3010003500320054004F00590053301160A876849A8C8BC17801662F003700390031003930025982975E672C4EBA64CD4F5CFF0C8BF75FFD7565672C77ED4FE1"
      ∷ [])
    ≡ ok (event "10686230813854910496" "【52TOYS】您的验证码是7919。如非本人操作，请忽略本短信")
unfolding parsed
indication_ucs2 = refl

indication_pdu : parsed "+CMT:,23" test_pdu ≡ ok (event "14088899961" "test")
unfolding parsed
indication_pdu = refl
