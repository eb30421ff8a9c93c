-- ===== src/Sms/Pdu/Messages.antt =====
-- Whole messages of internal/sms/sms.go: a text in the default alphabet and a text in UCS2.
use at_message_forward.Prelude.{
  ℕ, ◌+◌, ◌*◌, ◌/◌, ◌%◌, ◌<◌, ◌++◌, true, false, All-append, arith, List, length, ◌≡◌, ap, All, ◌∙◌,
  ok, map, pos,
}
use at_message_forward.Text.{Text}
use at_message_forward.Sms.Hex.{IsByte, hex_text}
use at_message_forward.Sms.Gsm7.RoundTrip.{
  IsGsm7, septet_of, pack_septets, pack_septets-IsByte, decode_gsm7-pack_septets,
}
use at_message_forward.Sms.Gsm7.Header.{header, decode_gsm7-header}
use at_message_forward.Sms.Ucs2.RoundTrip.{
  IsScalar, ucs2_octets, ucs2_octets-IsByte, decode_ucs2-ucs2_octets,
}
use at_message_forward.Sms.Pdu.{decode_pdu, decode_user_data, has_udh_of}
use at_message_forward.Sms.Pdu.Address.{shown_number}
use at_message_forward.Sms.Pdu.Deliver.{deliver_tpdu, decode_pdu-deliver_tpdu}
use at_message_forward.Sms.Pdu.Layout.{event_of, Header, IsHeader, with_smsc}

-- A text of up to 255 characters of the GSM alphabet, sent as an SMS-DELIVER in one part with no
-- header and coding 0x00, arrives as it was written, with its sender.
pub decode_pdu_gsm7 :
    (now : ℕ) (h : Header) (scts : List ℕ) (t : Text)
    → IsHeader h
    → (h.first_octet % 4 ≡ 0) × (has_udh_of h.first_octet ≡ false) × (h.dcs ≡ 0x00)
    → (length scts ≡ 7) × All IsByte scts
    → All IsGsm7 t
    → length t < 256
    → let tpdu = deliver_tpdu h scts (length t) (pack_septets (map septet_of t)) in
      decode_pdu now (hex_text (with_smsc h.smsc tpdu)) (pos (length tpdu))
      ≡ ok (record { from = shown_number h.toa h.digits; text = t; at = now })
decode_pdu_gsm7 now h scts t v kind hs ht hl =
    decode_pdu-deliver_tpdu now h scts (length t) (pack_septets (map septet_of t)) v kind.0 hs
      (hl, pack_septets-IsByte (map septet_of t))
    ∙ ap (event_of now (shown_number h.toa h.digits)) {y = ok t}
        (rw (kind.1, kind.2) (unfold decode_user_data in decode_gsm7-pack_septets t ht))

-- A text of Unicode scalar values, sent as an SMS-DELIVER in one part with no header and coding 0x08,
-- arrives as it was written, with its sender, whatever octet the length of the user data is.
pub decode_pdu_ucs2 :
    (now : ℕ) (h : Header) (scts : List ℕ) (len : ℕ) (t : Text)
    → IsHeader h
    → (h.first_octet % 4 ≡ 0) × (has_udh_of h.first_octet ≡ false) × (h.dcs ≡ 0x08)
    → (length scts ≡ 7) × All IsByte scts
    → All IsScalar t
    → IsByte len
    → let tpdu = deliver_tpdu h scts len (ucs2_octets t) in
      decode_pdu now (hex_text (with_smsc h.smsc tpdu)) (pos (length tpdu))
      ≡ ok (record { from = shown_number h.toa h.digits; text = t; at = now })
decode_pdu_ucs2 now h scts len t v kind hs ht hl =
    decode_pdu-deliver_tpdu now h scts len (ucs2_octets t) v kind.0 hs (hl, ucs2_octets-IsByte t ht)
    ∙ ap (event_of now (shown_number h.toa h.digits)) {y = ok t}
        (rw (kind.1, kind.2) (unfold decode_user_data in decode_ucs2-ucs2_octets t ht))

-- The announced septets of a text behind a header that fills whole septets.
abbrev pub septets_with : List ℕ → Text → ℕ
septets_with fields t = length t + length (header fields) / 7 * 8

-- One part of a long message: coding 0x00, with a header that fills whole septets (a multiple of seven
-- octets), its first octet counting the others, and at most 255 septets in all, those of the header
-- counted. The part's text arrives whole and at the beginning of the event's text, with its sender;
-- behind it the event has as many more characters as the header has septets.
pub decode_pdu_gsm7_part :
    (now : ℕ) (h : Header) (scts fields : List ℕ) (t : Text)
    → IsHeader h
    → (h.first_octet % 4 ≡ 0) × (has_udh_of h.first_octet ≡ true) × (h.dcs ≡ 0x00)
    → (length scts ≡ 7) × All IsByte scts
    → All IsByte fields × (length (header fields) % 7 ≡ 0)
    → All IsGsm7 t
    → septets_with fields t < 256
    → let user_data = header fields ++ pack_septets (map septet_of t) in
      let tpdu = deliver_tpdu h scts (septets_with fields t) user_data in
      (tail : Text) × (length tail ≡ length (header fields) / 7 * 8)
      × (decode_pdu now (hex_text (with_smsc h.smsc tpdu)) (pos (length tpdu))
          ≡ ok (record { from = shown_number h.toa h.digits; text = t ++ tail; at = now }))
decode_pdu_gsm7_part now h scts fields t v kind hs hf ht hl =
    let more : ℕ = length (header fields) / 7 * 8 in
    let packed : List ℕ = pack_septets (map septet_of t) in
    let counted : All IsByte (header fields) = (omega (arith, hl), hf.0) in
    let (tail, sized, read) = decode_gsm7-header fields t more counted ht in
    (
      tail,
      sized,
      decode_pdu-deliver_tpdu now h scts (septets_with fields t) (header fields ++ packed) v kind.0
            hs
            (
              hl,
              All-append IsByte (header fields) packed counted
                  (pack_septets-IsByte (map septet_of t)),
            )
          ∙ ap (event_of now (shown_number h.toa h.digits)) {y = ok (t ++ tail)}
              (rw (kind.1, kind.2) (unfold decode_user_data in read)),
    )
