-- ===== src/Sms/Gsm7/Header.antt =====
-- `decodeGSM7` of internal/sms/sms.go on user data that begins with a header of whole septets and octets.
use native.Mathlib.Nat.{zero-add, suc-add, add-zero}
use at_message_forward.Prelude.{
  ℕ, zero, suc, ◌+◌, ◌*◌, true, false, List, [], ◌∷◌, ◌++◌, length, length-append, drop, drop-add,
  ltb, ◌≡◌, refl, sym, ap, arith, All, All-append, ◌∙◌, ok, map, length-map,
}
use at_message_forward.Text.{Text}
use at_message_forward.Sms.Hex.{IsByte, hex_text, hex_to_bytes-hex_text}
use at_message_forward.Sms.Alphabet.{gsm7_rune}
use at_message_forward.Sms.Gsm7.{header_bytes, septet_from, septets_from, skip_bits, decode_gsm7}
use at_message_forward.Sms.Gsm7.Bits.{stream}
use at_message_forward.Sms.Gsm7.RoundTrip.{
  IsGsm7, septet_of, pack_septets, pack_septets-IsByte, stream-pack_septets, septets_from-stream,
  septet_stream, septets_of,
}

septets_from-add :
    (m n : ℕ) (octets : List ℕ) (skip k : ℕ)
    → septets_from (m + n) octets skip k
      ≡ septets_from m octets skip k ++ septets_from n octets skip (k + m)
unfolding septets_from
septets_from-add zero n octets skip k = rw (zero-add n, add-zero k) refl
septets_from-add (suc m) n octets skip k =
    let shift : k + 1 + m ≡ k + suc m = omega arith in
    rw (suc-add m n) (
      ap (◌∷◌ (gsm7_rune (septet_from 7 octets (skip + k * 7) 0 0))) (
        septets_from-add m n octets skip (k + 1)
        ∙ ap (λ i. septets_from m octets skip (k + 1) ++ septets_from n octets skip i) shift))

length-septets_from :
    (n : ℕ) (octets : List ℕ) (skip k : ℕ) → length (septets_from n octets skip k) ≡ n
unfolding septets_from
length-septets_from zero octets skip k = refl
length-septets_from (suc n) octets skip k = ap suc (length-septets_from n octets skip (k + 1))

-- Octets in front take eight places each.
drop-stream :
    (front octets : List ℕ) → drop (length front * 8) (stream (front ++ octets)) ≡ stream octets
drop-stream [] octets = refl
drop-stream (v ∷ front) octets =
    ap (λ i. drop i (stream (v ∷ (front ++ octets)))) (omega arith)
    ∙ drop-add 8 (length front * 8) (stream (v ∷ (front ++ octets)))
    ∙ drop-stream front octets

-- A header: its first octet counts the others.
abbrev pub header : List ℕ → List ℕ
header fields = length fields ∷ fields

skip_bits-header :
    (fields octets : List ℕ)
    → skip_bits true (header fields ++ octets) ≡ ok (length (header fields) * 8)
unfolding skip_bits header_bytes
skip_bits-header fields octets =
    let enough : ltb (length (header fields ++ octets)) (length fields + 1) ≡ false =
      ground (arith, length-append fields octets) in
    rw enough (ap ok (omega arith))

-- The septets behind a header are read, whatever else is announced behind them.
pub decode_gsm7-header :
    (fields : List ℕ) (t : Text) (more : ℕ)
    → All IsByte (header fields)
    → All IsGsm7 t
    → (tail : Text) × (length tail ≡ more)
      × (decode_gsm7
            (hex_text (header fields ++ pack_septets (map septet_of t)))
            (length t + more)
            true
          ≡ ok (t ++ tail))
unfolding decode_gsm7
decode_gsm7-header fields t more hf ht =
    let septets : List ℕ = map septet_of t in
    let octets : List ℕ = header fields ++ pack_septets septets in
    let skip : ℕ = length (header fields) * 8 in
    let bytes : All IsByte octets =
      All-append IsByte (header fields) (pack_septets septets) hf (pack_septets-IsByte septets) in
    let (pad, packed) = stream-pack_septets septets in
    let (found, small) = septets_of t ht in
    let place : drop (skip + 0 * 7) (stream octets) ≡ septet_stream septets ++ pad =
      ap (λ i. drop i (stream octets)) (omega arith)
      ∙ drop-stream (header fields) (pack_septets septets)
      ∙ packed in
    let read : septets_from (length t) octets skip 0 ≡ t =
      ap (λ n. septets_from n octets skip 0) (sym (length-map t septet_of))
      ∙ septets_from-stream septets octets pad skip 0 small place
      ∙ found in
    (
      septets_from more octets skip (0 + length t),
      length-septets_from more octets skip (0 + length t),
      rw (hex_to_bytes-hex_text octets bytes, skip_bits-header fields (pack_septets septets))
          (ap ok (
            septets_from-add (length t) more octets skip 0
            ∙ ap (λ s. s ++ septets_from more octets skip (0 + length t)) read)),
    )
