-- ===== src/Sms/Examples.antt =====
-- The theorems on internal/sms/sms.go at concrete messages.
use at_message_forward.Prelude.{
  inl, ◌++◌, ◌/◌, err, ◌↔◌, some, ℕ, ◌≡◌, refl, List, [], ◌∷◌, length, map, ok, pos, false, arith,
  ◌+◌, ◌*◌, true,
}
use at_message_forward.Text.{Text, codes, trim_space}
use at_message_forward.Sms.Gsm7.Header.{header}
use at_message_forward.Sms.Gsm7.RoundTrip.{septet_of, pack_septets}
use at_message_forward.Sms.Hex.{length_mismatch, hex_text}
use at_message_forward.Sms.Indication.Grammar.{IsPduHeader, IsTextHeader}
use at_message_forward.Sms.Indication.PduHeader.{match_pdu_header_iff}
use at_message_forward.Sms.Indication.TextHeader.{match_text_header_iff}
use at_message_forward.Sms.Indication.{match_pdu_header, match_text_header}
use at_message_forward.Sms.Pdu.Address.{shown_number}
use at_message_forward.Sms.Pdu.Deliver.{deliver_tpdu, decode_pdu-deliver_tpdu}
use at_message_forward.Sms.Pdu.Layout.{event_of, Header, with_smsc}
use at_message_forward.Sms.Pdu.Length.{smsc_len, decode_pdu-length, decode_pdu-with_smsc_err}
use at_message_forward.Sms.Pdu.Messages.{
  septets_with, decode_pdu_gsm7_part, decode_pdu_gsm7, decode_pdu_ucs2,
}
use at_message_forward.Sms.Pdu.Submit.{submit_tpdu, validity_octets, decode_pdu-submit_tpdu}
use at_message_forward.Sms.Pdu.{Event, decode_pdu, decode_user_data}
use at_message_forward.Sms.Tests.{decoded, test_pdu}
use at_message_forward.Sms.Ucs2.RoundTrip.{ucs2_octets}
use at_message_forward.Sms.Indication.{parse_cmt_indication}
use at_message_forward.Sms.Delivery.{header_line, parse_cmt_indication_gsm7}

abbrev sample : ℕ → ℕ → Header
sample first dcs = record {
  smsc = 0x91 ∷ 0x44 ∷ [];
  first_octet = first;
  toa = 0x91;
  digits = codes "14088899961";
  pid = 0;
  dcs = dcs;
}

abbrev stamp : List ℕ
stamp = 0x62 ∷ 0x60 ∷ 0x90 ∷ 0x81 ∷ 0x22 ∷ 0x32 ∷ 0x00 ∷ []

abbrev greeting : Text
greeting = codes "Hi @ 5"

abbrev deliver_hi : List ℕ
deliver_hi =
    deliver_tpdu (sample 4 0) stamp (length greeting) (pack_septets (map septet_of greeting))

decode_pdu_gsm7_example :
    decode_pdu 5 (hex_text (with_smsc (sample 4 0).smsc deliver_hi)) (pos (length deliver_hi))
    ≡ ok (record { from = codes "+14088899961"; text = greeting; at = 5 })
decode_pdu_gsm7_example =
    decode_pdu_gsm7 5 (sample 4 0) stamp greeting (omega arith) (refl, refl, refl)
      (refl, omega arith) (refl, (refl, (refl, (refl, (refl, (refl, tt)))))) (omega arith)

parse_cmt_indication_gsm7_example :
    parse_cmt_indication 5 (
      header_line (codes "\"Mum\"") (length deliver_hi)
      ∷ hex_text (with_smsc (sample 4 0).smsc deliver_hi)
      ∷ [])
    ≡ ok (record { from = codes "+14088899961"; text = greeting; at = 5 })
parse_cmt_indication_gsm7_example =
    parse_cmt_indication_gsm7 5 (codes "\"Mum\"") (sample 4 0) stamp greeting []
      (inl (codes "Mum", refl, (refl, (refl, (refl, tt))))) (omega arith) (refl, refl, refl)
      (refl, omega arith) (refl, (refl, (refl, (refl, (refl, (refl, tt)))))) (omega arith)

abbrev raw : List ℕ
raw = deliver_tpdu (sample 0x44 4) stamp 3 (1 ∷ 2 ∷ 3 ∷ [])

decode_pdu-deliver_tpdu_example :
    decode_pdu 5 (hex_text (with_smsc (sample 0x44 4).smsc raw)) (pos (length raw))
    ≡ event_of 5
        (shown_number 0x91 (codes "14088899961"))
        (decode_user_data 4 true 3 (hex_text (1 ∷ 2 ∷ 3 ∷ [])))
decode_pdu-deliver_tpdu_example =
    decode_pdu-deliver_tpdu 5 (sample 0x44 4) stamp 3 (1 ∷ 2 ∷ 3 ∷ []) (omega arith) refl
      (refl, omega arith) (omega arith)

abbrev submitted : List ℕ
submitted = submit_tpdu (sample 0x11 4) 7 (0xAA ∷ []) 3 (1 ∷ 2 ∷ 3 ∷ [])

decode_pdu-submit_tpdu_example :
    decode_pdu 5 (hex_text (with_smsc (sample 0x11 4).smsc submitted)) (pos (length submitted))
    ≡ event_of 5
        (shown_number 0x91 (codes "14088899961"))
        (decode_user_data 4 false 3 (hex_text (1 ∷ 2 ∷ 3 ∷ [])))
unfolding validity_octets
decode_pdu-submit_tpdu_example =
    decode_pdu-submit_tpdu 5 (sample 0x11 4) 7 (0xAA ∷ []) 3 (1 ∷ 2 ∷ 3 ∷ []) (omega arith) refl
      (omega arith) (refl, omega arith) (omega arith)

abbrev vector_event : Event
vector_event = record { from = codes "14088899961"; text = codes "test"; at = 5 }

decode_pdu-length_example :
    (v : ℕ) × (smsc_len (trim_space (codes test_pdu)) ≡ ok v)
    × (length (trim_space (codes test_pdu)) ≡ 2 + 2 * v + 2 * 23)
unfolding decoded
decode_pdu-length_example = decode_pdu-length 5 (codes test_pdu) 23 {e = vector_event} refl

-- The vector cut short to three octets.
decode_pdu-with_smsc_err_example :
    decode_pdu 5 (hex_text (with_smsc (0x91 ∷ []) (0x24 ∷ 0x0B ∷ 0xA1 ∷ []))) (pos 23)
    ≡ err (length_mismatch 3)
decode_pdu-with_smsc_err_example =
    decode_pdu-with_smsc_err 5 (0x91 ∷ []) (0x24 ∷ 0x0B ∷ 0xA1 ∷ []) 23 (omega arith) (omega arith)
      (omega arith) (omega arith)

-- A concatenation header with a reference of 16 bits: the first of two parts.
abbrev concatenation : List ℕ
concatenation = 8 ∷ 4 ∷ 0x12 ∷ 0x34 ∷ 2 ∷ 1 ∷ []

abbrev part : List ℕ
part =
    deliver_tpdu (sample 0x44 0) stamp (septets_with concatenation greeting)
      (header concatenation ++ pack_septets (map septet_of greeting))

decode_pdu_gsm7_part_example :
    (tail : Text) × (length tail ≡ length (header concatenation) / 7 * 8)
    × (decode_pdu 5 (hex_text (with_smsc (sample 0x44 0).smsc part)) (pos (length part))
        ≡ ok (record { from = codes "+14088899961"; text = greeting ++ tail; at = 5 }))
decode_pdu_gsm7_part_example =
    decode_pdu_gsm7_part 5 (sample 0x44 0) stamp concatenation greeting (omega arith)
      (refl, refl, refl) (refl, omega arith) (omega arith, refl)
      (refl, (refl, (refl, (refl, (refl, (refl, tt)))))) (omega arith)

decode_pdu_ucs2_example :
    decode_pdu 5
      (hex_text (
        with_smsc (sample 4 8).smsc (deliver_tpdu (sample 4 8) stamp 6 (ucs2_octets (codes "a😀")))))
      (pos (length (deliver_tpdu (sample 4 8) stamp 6 (ucs2_octets (codes "a😀")))))
    ≡ ok (record { from = codes "+14088899961"; text = codes "a😀"; at = 5 })
decode_pdu_ucs2_example =
    decode_pdu_ucs2 5 (sample 4 8) stamp 6 (codes "a😀") (omega arith) (refl, refl, refl)
      (refl, omega arith) (omega arith) (omega arith)

match_pdu_header_iff_example :
    (match_pdu_header (codes "+CMT: \"Bob, x\", 23 ") ≡ some (codes "23"))
    ↔ IsPduHeader (codes "+CMT: \"Bob, x\", 23 ") (codes "23")
match_pdu_header_iff_example = match_pdu_header_iff (codes "+CMT: \"Bob, x\", 23 ") (codes "23")

match_text_header_iff_example :
    (match_text_header (codes "+CMT: \"+123\",,\"26/06/09\"") ≡ some (codes "+123"))
    ↔ IsTextHeader (codes "+CMT: \"+123\",,\"26/06/09\"") (codes "+123")
match_text_header_iff_example =
    match_text_header_iff (codes "+CMT: \"+123\",,\"26/06/09\"") (codes "+123")
