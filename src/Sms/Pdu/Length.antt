-- ===== src/Sms/Pdu/Length.antt =====
-- The length check of `DecodePDU` in internal/sms/sms.go.
use at_message_forward.Prelude.{
  ℕ, ◌+◌, ◌*◌, ◌/◌, ◌%◌, ◌==◌, length, length-drop, take, ◌≡◌, ◌≢◌, ap, sym, arith, ◌∙◌, Result, ok,
  >>=-eq-ok, ok-injective, pos, Bool-cases, inl, inr, ◌<◌, ◌++◌, List, All, All-append, err, refl,
  true, false,
}
use at_message_forward.Text.{Text, trim_space}
use at_message_forward.Sms.Hex.{Error, length_mismatch, IsByte, hex_text}
use at_message_forward.Sms.Pdu.Layout.{with_smsc}
use at_message_forward.Sms.Pdu.Readers.{
  read_byte-hex_text, read_hex-hex_text, length-hex_text, hex_text-NoSpace,
}
use at_message_forward.Text.Spaces.{trim_space-NoSpace}
use at_message_forward.Sms.Pdu.{
  Event, decode_pdu, decode_trimmed, read_byte, read_hex, byte_at, check_length,
}

-- The count of the service centre's octets, which the first two characters spell.
abbrev pub smsc_len : Text → Result Error ℕ
smsc_len s = byte_at (take 2 s)

read_hex-length :
    (n : ℕ) (s : Text) {p : Text × Text}
    → read_hex n s ≡ ok p
    → (length s ≡ n + length p.1) × (p.0 ≡ take n s)
unfolding read_hex
read_hex-length n s h = ground (arith, length-drop n s)

read_byte-length :
    (s : Text) {p : ℕ × Text}
    → read_byte s ≡ ok p
    → (smsc_len s ≡ ok p.0) × (length s ≡ 2 + length p.1)
unfolding read_byte
read_byte-length s {p} h =
    let (q, read, h') = >>=-eq-ok (read_hex 2 s) _ h in
    let (v, parsed, h'') = >>=-eq-ok (byte_at q.0) _ h' in
    let (sized, taken) = read_hex-length 2 s read in
    let same = ok-injective h'' in
    (ap byte_at (sym taken) ∙ parsed ∙ ap (λ x. ok x.0) same, sized ∙ ap (λ x. 2 + length x.1) same)

check_length_eq : (n actual : ℕ) {u : Unit {0}} → check_length (pos n) actual ≡ ok u → actual ≡ n
check_length_eq n actual h = ground arith

decode_trimmed-length :
    (now : ℕ) (s : Text) (n : ℕ) {e : Event}
    → decode_trimmed now s (pos n) ≡ ok e
    → length s % 2 ≡ 0
    → (v : ℕ) × (smsc_len s ≡ ok v) × (length s ≡ 2 + 2 * v + 2 * n)
unfolding decode_trimmed
decode_trimmed-length now s n h even =
    let (p, first, h') = >>=-eq-ok (read_byte s) _ h in
    let (q, smsc, h'') = >>=-eq-ok (read_hex (p.0 * 2) p.1) _ h' in
    let (u, checked, _) = >>=-eq-ok (check_length (pos n) (length q.1 / 2)) _ h'' in
    let (spelt, all) = read_byte-length s first in
    let (sized, _) = read_hex-length (p.0 * 2) p.1 smsc in
    (p.0, spelt, omega (arith, even, all, sized, check_length_eq n (length q.1 / 2) checked))

-- A PDU that is decoded under a length `n` holds, when it is trimmed, the octet that counts the
-- service centre's octets, those octets, and a TPDU of exactly `n` octets.
pub decode_pdu-length :
    (now : ℕ) (pdu : Text) (n : ℕ) {e : Event}
    → decode_pdu now pdu (pos n) ≡ ok e
    → (v : ℕ) × (smsc_len (trim_space pdu) ≡ ok v) × (length (trim_space pdu) ≡ 2 + 2 * v + 2 * n)
unfolding decode_pdu
decode_pdu-length now pdu n h = elim (Bool-cases (length (trim_space pdu) % 2 == 0)) [
  | inl even ↦ decode_trimmed-length now (trim_space pdu) n (rw even at h) (ground arith)
  | inr odd ↦ absurd (cc (rw odd at h))
]

other_half : (m n : ℕ) → n ≢ m → (2 * m / 2 == n) ≡ false
other_half m n h = ground (arith, h)

refuse_trimmed :
    (now : ℕ) (smsc tpdu : List ℕ) (n : ℕ)
    → length smsc < 256
    → n ≢ length tpdu
    → decode_trimmed now (hex_text (with_smsc smsc tpdu)) (pos n)
      ≡ err (length_mismatch (length tpdu))
unfolding decode_trimmed with_smsc
refuse_trimmed now smsc tpdu n small differs =
    let half : 2 * length tpdu / 2 ≡ length tpdu = omega arith in
    rw
      (
        read_byte-hex_text (length smsc) (smsc ++ tpdu) small,
        read_hex-hex_text (length smsc * 2) smsc tpdu (omega arith),
        length-hex_text tpdu,
        other_half (length tpdu) n differs,
        half,
      )
      refl

-- A service-centre address of at most 255 octets, and behind it any octets, the TPDU cut short or
-- overlong included, or none at all: under an announced length that is not the number of those behind
-- the address, the PDU is refused before a field is read, and the error tells how many there were.
pub decode_pdu-with_smsc_err :
    (now : ℕ) (smsc tpdu : List ℕ) (n : ℕ)
    → All IsByte smsc
    → length smsc < 256
    → All IsByte tpdu
    → n ≢ length tpdu
    → decode_pdu now (hex_text (with_smsc smsc tpdu)) (pos n) ≡ err (length_mismatch (length tpdu))
unfolding decode_pdu
decode_pdu-with_smsc_err now smsc tpdu n hs small ht differs =
    let octets : List ℕ = with_smsc smsc tpdu in
    let all_octets : All IsByte octets =
      unfold with_smsc in (small, All-append IsByte smsc tpdu hs ht) in
    let even : (2 * length octets % 2 == 0) ≡ true = ground arith in
    rw
      (
        trim_space-NoSpace (hex_text octets) (hex_text-NoSpace octets all_octets),
        length-hex_text octets,
        even,
      )
      (refuse_trimmed now smsc tpdu n small differs)
