-- ===== src/Sms/Pdu/Deliver.antt =====
-- SMS-DELIVER as a modem prints it, and `DecodePDU` of internal/sms/sms.go on it.
use at_message_forward.Prelude.{
  ℕ, ◌+◌, ◌/◌, ◌%◌, ◌≤◌, length-append, List, ◌∷◌, ◌++◌, length, ◌≡◌, arith, All, All-append, ◌∙◌,
  pos,
}
use at_message_forward.Sms.Hex.{IsByte, hex_text}
use at_message_forward.Sms.Pdu.{
  decode_pdu, decode_tpdu, decode_deliver_tpdu, decode_user_data, has_udh_of,
}
use at_message_forward.Sms.Pdu.Layout.{
  event_of, Header, IsHeader, with_data, read_user_data-hex_text, with_smsc, decode_pdu-with_smsc,
  address-IsByte,
}
use at_message_forward.Sms.Pdu.Address.{
  semi_octets, length-semi_octets, address_octets, shown_number, read_address-address_octets,
}
use at_message_forward.Sms.Pdu.Readers.{read_byte-hex_text, read_hex-hex_text}

deliver_body : Header → List ℕ → ℕ → List ℕ → List ℕ
deliver_body h scts len user_data =
    address_octets h.toa h.digits ++ (h.pid ∷ h.dcs ∷ (scts ++ with_data len user_data))

-- The TPDU of an SMS-DELIVER, with its seven octets of time stamp.
unfoldable pub deliver_tpdu : Header → List ℕ → ℕ → List ℕ → List ℕ
unfolding deliver_body
deliver_tpdu h scts len user_data = h.first_octet ∷ deliver_body h scts len user_data

decode_deliver_tpdu-deliver_body :
    (now : ℕ) (h : Header) (scts : List ℕ) (len : ℕ) (user_data : List ℕ)
    → IsHeader h
    → length scts ≡ 7
    → IsByte len
    → decode_deliver_tpdu now h.first_octet (hex_text (deliver_body h scts len user_data))
      ≡ event_of now
          (shown_number h.toa h.digits)
          (decode_user_data h.dcs (has_udh_of h.first_octet) len (hex_text user_data))
unfolding decode_deliver_tpdu deliver_body
decode_deliver_tpdu-deliver_body now h scts len user_data v hs hl = rw (
  read_address-address_octets h.toa h.digits (h.pid ∷ h.dcs ∷ (scts ++ with_data len user_data))
      v.toa v.digits v.digits_len,
  read_byte-hex_text h.pid (h.dcs ∷ (scts ++ with_data len user_data)) v.pid,
  read_byte-hex_text h.dcs (scts ++ with_data len user_data) v.dcs,
  read_hex-hex_text 14 scts (with_data len user_data) (omega arith),
  read_user_data-hex_text h.dcs (has_udh_of h.first_octet) len user_data hl,
)

deliver_body-IsByte :
    (h : Header) (scts : List ℕ) (len : ℕ) (user_data : List ℕ)
    → IsHeader h
    → All IsByte scts
    → All IsByte (with_data len user_data)
    → All IsByte (deliver_body h scts len user_data)
unfolding deliver_body
deliver_body-IsByte h scts len user_data v hs hd =
    All-append IsByte (address_octets h.toa h.digits)
      (h.pid ∷ h.dcs ∷ (scts ++ with_data len user_data)) (address-IsByte h v)
      (v.pid, (v.dcs, All-append IsByte scts (with_data len user_data) hs hd))

pub length-deliver_tpdu :
    (h : Header) (scts : List ℕ) (len : ℕ) (user_data : List ℕ)
    → length scts ≡ 7
    → length (deliver_tpdu h scts len user_data) ≡ (length h.digits + 1) / 2 + 13 + length user_data
unfolding deliver_tpdu deliver_body address_octets
length-deliver_tpdu h scts len user_data seven = omega (
  arith,
  seven,
  length-append (semi_octets h.digits) (h.pid ∷ h.dcs ∷ (scts ++ with_data len user_data)),
  length-append scts (with_data len user_data),
  length-semi_octets h.digits,
)

-- The whole message is a line of octets, of one at least.
pub deliver_tpdu-IsByte :
    (h : Header) (scts : List ℕ) (len : ℕ) (user_data : List ℕ)
    → IsHeader h
    → All IsByte scts
    → All IsByte (with_data len user_data)
    → All IsByte (with_smsc h.smsc (deliver_tpdu h scts len user_data))
      × (1 ≤ length (with_smsc h.smsc (deliver_tpdu h scts len user_data)))
unfolding with_smsc deliver_tpdu
deliver_tpdu-IsByte h scts len user_data v hs hd =
    let tpdu : List ℕ = h.first_octet ∷ deliver_body h scts len user_data in
    (
      (
        v.smsc_len,
        All-append IsByte h.smsc tpdu v.smsc_octets
            (v.first_octet, deliver_body-IsByte h scts len user_data v hs hd),
      ),
      omega arith,
    )

-- `DecodePDU` reads every field of an SMS-DELIVER back: the event has the sender, with `+` for an
-- international number, and what `decodeUserData` makes of the user data. The fields are octets, the
-- sender has at most 254 digits, and the length given is that of the TPDU.
pub decode_pdu-deliver_tpdu :
    (now : ℕ) (h : Header) (scts : List ℕ) (len : ℕ) (user_data : List ℕ)
    → IsHeader h
    → h.first_octet % 4 ≡ 0
    → (length scts ≡ 7) × All IsByte scts
    → All IsByte (with_data len user_data)
    → let tpdu = deliver_tpdu h scts len user_data in
      decode_pdu now (hex_text (with_smsc h.smsc tpdu)) (pos (length tpdu))
      ≡ event_of now
          (shown_number h.toa h.digits)
          (decode_user_data h.dcs (has_udh_of h.first_octet) len (hex_text user_data))
unfolding deliver_tpdu
decode_pdu-deliver_tpdu now h scts len user_data v mti hs hd =
    decode_pdu-with_smsc now h.smsc h.first_octet (deliver_body h scts len user_data) v.smsc_octets
      v.smsc_len (v.first_octet, deliver_body-IsByte h scts len user_data v hs.1 hd)
    ∙ unfold decode_tpdu in
      rw mti (decode_deliver_tpdu-deliver_body now h scts len user_data v hs.0 hd.0)
