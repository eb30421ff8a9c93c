-- ===== src/Sms/Pdu/Layout.antt =====
-- The parts that both layouts of `DecodePDU` in internal/sms/sms.go share, as octets.
use at_message_forward.Prelude.{
  ℕ, ◌*◌, ◌/◌, ◌%◌, ◌<◌, Bool, true, List, ◌∷◌, ◌++◌, ◌==◌, length, ◌≡◌, arith, All, All-append,
  Result, ok, ◌>>=◌, pos,
}
use at_message_forward.Text.{Text}
use at_message_forward.Sms.Hex.{Error, IsByte, hex_text}
use at_message_forward.Sms.Pdu.{
  Event, decode_pdu, decode_trimmed, decode_tpdu, read_user_data, decode_user_data,
}
use at_message_forward.Sms.Pdu.Address.{IsDigit, address_octets, semi_octets-IsByte}
use at_message_forward.Text.Spaces.{trim_space-NoSpace}
use at_message_forward.Sms.Pdu.Readers.{
  read_byte-hex_text, read_hex-hex_text, read_hex_remaining-hex_text, length-hex_text,
  hex_text-NoSpace,
}

-- The event of a decoded text.
abbrev pub event_of : ℕ → Text → Result Error Text → Result Error Event
event_of now from text = do t ← text; ok (record { from = from; text = t; at = now })

-- The fields that both layouts share.
pub record Header : Type 0 where
  pub smsc : List ℕ
  pub first_octet : ℕ
  pub toa : ℕ
  pub digits : Text
  pub pid : ℕ
  pub dcs : ℕ

-- The limits of those fields: octets, and a number of at most 254 digits.
pub record IsHeader (h : Header) : Type 0 where
  pub smsc_octets : All IsByte h.smsc
  pub smsc_len : length h.smsc < 256
  pub first_octet : h.first_octet < 256
  pub toa : h.toa < 256
  pub digits : All IsDigit h.digits
  pub digits_len : length h.digits < 255
  pub pid : h.pid < 256
  pub dcs : h.dcs < 256

-- The user data of both layouts: its length field, its octets.
abbrev pub with_data : ℕ → List ℕ → List ℕ
with_data len user_data = len ∷ user_data

pub read_user_data-hex_text :
    (dcs : ℕ) (udh : Bool) (len : ℕ) (user_data : List ℕ)
    → IsByte len
    → read_user_data dcs udh (hex_text (with_data len user_data))
      ≡ decode_user_data dcs udh len (hex_text user_data)
unfolding read_user_data
read_user_data-hex_text dcs udh len user_data h =
    rw (read_byte-hex_text len user_data h, read_hex_remaining-hex_text user_data)

-- The octets of the service centre stand in front, with their count.
unfoldable pub with_smsc : List ℕ → List ℕ → List ℕ
with_smsc smsc tpdu = length smsc ∷ (smsc ++ tpdu)

half_twice : (n : ℕ) → (2 * n / 2 == n) ≡ true
half_twice n = ground arith

even_twice : (n : ℕ) → (2 * n % 2 == 0) ≡ true
even_twice n = ground arith

decode_trimmed-with_smsc :
    (now : ℕ) (smsc : List ℕ) (first : ℕ) (body : List ℕ)
    → length smsc < 256
    → first < 256
    → decode_trimmed now (hex_text (with_smsc smsc (first ∷ body))) (pos (length (first ∷ body)))
      ≡ decode_tpdu now first (hex_text body)
unfolding decode_trimmed with_smsc
decode_trimmed-with_smsc now smsc first body hl hf = rw (
  read_byte-hex_text (length smsc) (smsc ++ first ∷ body) hl,
  read_hex-hex_text (length smsc * 2) smsc (first ∷ body) (omega arith),
  length-hex_text (first ∷ body),
  half_twice (length (first ∷ body)),
  read_byte-hex_text first body hf,
)

-- Behind the service centre the decoder is at the TPDU, whose length it compares.
pub decode_pdu-with_smsc :
    (now : ℕ) (smsc : List ℕ) (first : ℕ) (body : List ℕ)
    → All IsByte smsc
    → length smsc < 256
    → All IsByte (first ∷ body)
    → decode_pdu now (hex_text (with_smsc smsc (first ∷ body))) (pos (length (first ∷ body)))
      ≡ decode_tpdu now first (hex_text body)
unfolding decode_pdu
decode_pdu-with_smsc now smsc first body hs hl ht =
    let octets = with_smsc smsc (first ∷ body) in
    let all_octets : All IsByte octets =
      unfold with_smsc in (hl, All-append IsByte smsc (first ∷ body) hs ht) in
    rw
      (
        trim_space-NoSpace (hex_text octets) (hex_text-NoSpace octets all_octets),
        length-hex_text octets,
        even_twice (length octets),
      )
      (decode_trimmed-with_smsc now smsc first body hl ht.0)

pub address-IsByte : (h : Header) → IsHeader h → All IsByte (address_octets h.toa h.digits)
unfolding address_octets
address-IsByte h v = (omega (arith, v.digits_len), (v.toa, semi_octets-IsByte h.digits v.digits))
