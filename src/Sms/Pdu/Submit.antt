-- ===== src/Sms/Pdu/Submit.antt =====
-- SMS-SUBMIT as a modem prints it, and `DecodePDU` of internal/sms/sms.go on it.
use at_message_forward.Prelude.{
  ℕ, zero, suc, ◌%◌, ◌<◌, List, [], ◌∷◌, ◌++◌, length, ◌≡◌, refl, arith, All, All-append, ◌∙◌, ok,
  pos,
}
use at_message_forward.Sms.Hex.{IsByte, hex_text}
use at_message_forward.Sms.Pdu.{
  decode_pdu, decode_tpdu, decode_submit_tpdu, skip_submit_validity_period, vpf_of,
  decode_user_data, has_udh_of, skip_period,
}
use at_message_forward.Sms.Pdu.Layout.{
  event_of, Header, IsHeader, with_data, read_user_data-hex_text, with_smsc, decode_pdu-with_smsc,
  address-IsByte,
}
use at_message_forward.Sms.Pdu.Address.{address_octets, shown_number, read_address-address_octets}
use at_message_forward.Sms.Pdu.Readers.{read_byte-hex_text, read_hex-hex_text}

submit_body : Header → ℕ → List ℕ → ℕ → List ℕ → List ℕ
submit_body h reference validity len user_data =
    reference
    ∷ (address_octets h.toa h.digits ++ (h.pid ∷ h.dcs ∷ (validity ++ with_data len user_data)))

-- The TPDU of an SMS-SUBMIT, with its message reference and its validity period.
unfoldable pub submit_tpdu : Header → ℕ → List ℕ → ℕ → List ℕ → List ℕ
unfolding submit_body
submit_tpdu h reference validity len user_data =
    h.first_octet ∷ submit_body h reference validity len user_data

-- The octets of a validity period, by its format: none, enhanced, relative, absolute.
unfoldable pub validity_octets : ℕ → ℕ
validity_octets zero = 0
validity_octets (suc zero) = 7
validity_octets (suc (suc zero)) = 1
validity_octets (suc (suc (suc vpf))) = 7

skip_period-hex_text :
    (vpf : ℕ) (validity rest : List ℕ)
    → vpf < 4
    → length validity ≡ validity_octets vpf
    → skip_period vpf (hex_text (validity ++ rest)) ≡ ok (hex_text rest)
unfolding validity_octets skip_period
skip_period-hex_text zero [] rest h e = refl
skip_period-hex_text zero (v ∷ validity) rest h e = absurd (omega arith)
skip_period-hex_text (suc zero) validity rest h e =
    rw (read_hex-hex_text 14 validity rest (omega arith))
skip_period-hex_text (suc (suc zero)) validity rest h e =
    rw (read_hex-hex_text 2 validity rest (omega arith))
skip_period-hex_text (suc (suc (suc zero))) validity rest h e =
    rw (read_hex-hex_text 14 validity rest (omega arith))
skip_period-hex_text (suc (suc (suc (suc vpf)))) validity rest h e = absurd (omega arith)

skip-validity :
    (first_octet : ℕ) (validity rest : List ℕ)
    → length validity ≡ validity_octets (vpf_of first_octet)
    → skip_submit_validity_period first_octet (hex_text (validity ++ rest)) ≡ ok (hex_text rest)
unfolding skip_submit_validity_period
skip-validity first_octet validity rest e =
    skip_period-hex_text (vpf_of first_octet) validity rest (omega arith) e

decode_submit_tpdu-submit_body :
    (now : ℕ) (h : Header) (reference : ℕ) (validity : List ℕ) (len : ℕ) (user_data : List ℕ)
    → IsHeader h
    → IsByte reference
    → length validity ≡ validity_octets (vpf_of h.first_octet)
    → IsByte len
    → decode_submit_tpdu now h.first_octet
        (hex_text (submit_body h reference validity len user_data))
      ≡ event_of now
          (shown_number h.toa h.digits)
          (decode_user_data h.dcs (has_udh_of h.first_octet) len (hex_text user_data))
unfolding decode_submit_tpdu submit_body
decode_submit_tpdu-submit_body now h reference validity len user_data v hr hv hl = rw (
  read_byte-hex_text reference
      (address_octets h.toa h.digits ++ (h.pid ∷ h.dcs ∷ (validity ++ with_data len user_data))) hr,
  read_address-address_octets h.toa h.digits (h.pid ∷ h.dcs ∷ (validity ++ with_data len user_data))
      v.toa v.digits v.digits_len,
  read_byte-hex_text h.pid (h.dcs ∷ (validity ++ with_data len user_data)) v.pid,
  read_byte-hex_text h.dcs (validity ++ with_data len user_data) v.dcs,
  skip-validity h.first_octet validity (with_data len user_data) hv,
  read_user_data-hex_text h.dcs (has_udh_of h.first_octet) len user_data hl,
)

submit_body-IsByte :
    (h : Header) (reference : ℕ) (validity : List ℕ) (len : ℕ) (user_data : List ℕ)
    → IsHeader h
    → IsByte reference
    → All IsByte validity
    → All IsByte (with_data len user_data)
    → All IsByte (submit_body h reference validity len user_data)
unfolding submit_body
submit_body-IsByte h reference validity len user_data v hr hv hd = (
  hr,
  All-append IsByte (address_octets h.toa h.digits)
      (h.pid ∷ h.dcs ∷ (validity ++ with_data len user_data)) (address-IsByte h v)
      (v.pid, (v.dcs, All-append IsByte validity (with_data len user_data) hv hd)),
)

-- `DecodePDU` reads every field of an SMS-SUBMIT back, for each format of the validity period: the
-- event has the number that the message is for, with `+` for an international one, and what
-- `decodeUserData` makes of the user data. The fields are octets, the number has at most 254 digits,
-- and the length given is that of the TPDU.
pub decode_pdu-submit_tpdu :
    (now : ℕ) (h : Header) (reference : ℕ) (validity : List ℕ) (len : ℕ) (user_data : List ℕ)
    → IsHeader h
    → h.first_octet % 4 ≡ 1
    → IsByte reference
    → (length validity ≡ validity_octets (vpf_of h.first_octet)) × All IsByte validity
    → All IsByte (with_data len user_data)
    → let tpdu = submit_tpdu h reference validity len user_data in
      decode_pdu now (hex_text (with_smsc h.smsc tpdu)) (pos (length tpdu))
      ≡ event_of now
          (shown_number h.toa h.digits)
          (decode_user_data h.dcs (has_udh_of h.first_octet) len (hex_text user_data))
unfolding submit_tpdu
decode_pdu-submit_tpdu now h reference validity len user_data v mti hr hv hd =
    decode_pdu-with_smsc now h.smsc h.first_octet (submit_body h reference validity len user_data)
      v.smsc_octets v.smsc_len
      (v.first_octet, submit_body-IsByte h reference validity len user_data v hr hv.1 hd)
    ∙ unfold decode_tpdu in
      rw mti (decode_submit_tpdu-submit_body now h reference validity len user_data v hr hv.0 hd.0)
