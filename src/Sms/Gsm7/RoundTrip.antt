-- ===== src/Sms/Gsm7/RoundTrip.antt =====
-- Packing septets as 3GPP TS 23.038 does, and `decodeGSM7` of internal/sms/sms.go as its inverse.
use mathlib.Core.Path.{ap₂}
use native.Mathlib.Nat.{add-zero}
use at_message_forward.Prelude.{
  ℕ, suc, ◌+◌, ◌*◌, ◌/◌, ◌%◌, ◌≤◌, ◌<◌, Bool, true, false, ◌||◌, List, [], ◌∷◌, ◌++◌, ◌==◌,
  if◌then◌else◌, length, get_or, drop, ◌≡◌, refl, ap, drop-add, arith, All, ◌∙◌, ok, map,
  length-map, lt→leb,
}
use at_message_forward.Text.{Text}
use at_message_forward.Sms.Hex.{IsByte, hex_text, hex_to_bytes-hex_text}
use at_message_forward.Sms.Alphabet.{gsm7_default_alphabet, gsm7_rune}
use at_message_forward.Sms.Gsm7.{septet_from, septets_from, skip_bits, decode_gsm7}
use at_message_forward.Sms.Gsm7.Bits.{stream, octet_bits, septet_from-from_bits}

-- The seven bits of a septet in front of `rest`.
abbrev pub septet_bits : ℕ → List ℕ → List ℕ
septet_bits v rest =
    v % 2 ∷ v / 2 % 2 ∷ v / 4 % 2 ∷ v / 8 % 2 ∷ v / 16 % 2 ∷ v / 32 % 2 ∷ v / 64 % 2 ∷ rest

abbrev pub septet_stream : List ℕ → List ℕ
septet_stream [] = []
septet_stream (v ∷ septets) = septet_bits v (septet_stream septets)

abbrev weigh : ℕ → ℕ → ℕ → ℕ → ℕ → ℕ → ℕ → ℕ → ℕ
weigh a b c d e f g h = a + 2 * b + 4 * c + 8 * d + 16 * e + 32 * f + 64 * g + 128 * h

-- Octets from bits, the last octet filled up with zeros.
unfoldable pub pack : List ℕ → List ℕ
pack [] = []
pack (a ∷ []) = weigh a 0 0 0 0 0 0 0 ∷ []
pack (a ∷ b ∷ []) = weigh a b 0 0 0 0 0 0 ∷ []
pack (a ∷ b ∷ c ∷ []) = weigh a b c 0 0 0 0 0 ∷ []
pack (a ∷ b ∷ c ∷ d ∷ []) = weigh a b c d 0 0 0 0 ∷ []
pack (a ∷ b ∷ c ∷ d ∷ e ∷ []) = weigh a b c d e 0 0 0 ∷ []
pack (a ∷ b ∷ c ∷ d ∷ e ∷ f ∷ []) = weigh a b c d e f 0 0 ∷ []
pack (a ∷ b ∷ c ∷ d ∷ e ∷ f ∷ g ∷ []) = weigh a b c d e f g 0 ∷ []
pack (a ∷ b ∷ c ∷ d ∷ e ∷ f ∷ g ∷ h ∷ bits) = weigh a b c d e f g h ∷ pack bits

abbrev pub IsBit : ℕ → Type 0
IsBit b = b < 2

abbrev pub IsSeptet : ℕ → Type 0
IsSeptet v = v < 128

septet_bits-IsBit : (v : ℕ) (rest : List ℕ) → All IsBit rest → All IsBit (septet_bits v rest)
septet_bits-IsBit v rest h = (
  omega arith,
  (omega arith, (omega arith, (omega arith, (omega arith, (omega arith, (omega arith, h)))))),
)

septet_stream-IsBit : (septets : List ℕ) → All IsBit (septet_stream septets)
septet_stream-IsBit [] = tt
septet_stream-IsBit (v ∷ septets) =
    septet_bits-IsBit v (septet_stream septets) (septet_stream-IsBit septets)

octet_bits-weigh :
    (a b c d e f g h : ℕ) (rest : List ℕ)
    → All IsBit (a ∷ b ∷ c ∷ d ∷ e ∷ f ∷ g ∷ h ∷ [])
    → octet_bits (weigh a b c d e f g h) rest ≡ a ∷ b ∷ c ∷ d ∷ e ∷ f ∷ g ∷ h ∷ rest
octet_bits-weigh a b c d e f g h rest small = ground arith

-- The bits of the packed octets are the bits that were packed, and what fills the last octet.
stream-pack : (bits : List ℕ) → All IsBit bits → (pad : List ℕ) × (stream (pack bits) ≡ bits ++ pad)
unfolding pack
stream-pack [] small = ([], refl)
stream-pack (a ∷ []) small =
    (0 ∷ 0 ∷ 0 ∷ 0 ∷ 0 ∷ 0 ∷ 0 ∷ [], octet_bits-weigh a 0 0 0 0 0 0 0 [] (omega arith))
stream-pack (a ∷ b ∷ []) small =
    (0 ∷ 0 ∷ 0 ∷ 0 ∷ 0 ∷ 0 ∷ [], octet_bits-weigh a b 0 0 0 0 0 0 [] (omega arith))
stream-pack (a ∷ b ∷ c ∷ []) small =
    (0 ∷ 0 ∷ 0 ∷ 0 ∷ 0 ∷ [], octet_bits-weigh a b c 0 0 0 0 0 [] (omega arith))
stream-pack (a ∷ b ∷ c ∷ d ∷ []) small =
    (0 ∷ 0 ∷ 0 ∷ 0 ∷ [], octet_bits-weigh a b c d 0 0 0 0 [] (omega arith))
stream-pack (a ∷ b ∷ c ∷ d ∷ e ∷ []) small =
    (0 ∷ 0 ∷ 0 ∷ [], octet_bits-weigh a b c d e 0 0 0 [] (omega arith))
stream-pack (a ∷ b ∷ c ∷ d ∷ e ∷ f ∷ []) small =
    (0 ∷ 0 ∷ [], octet_bits-weigh a b c d e f 0 0 [] (omega arith))
stream-pack (a ∷ b ∷ c ∷ d ∷ e ∷ f ∷ g ∷ []) small =
    (0 ∷ [], octet_bits-weigh a b c d e f g 0 [] (omega arith))
stream-pack (a ∷ b ∷ c ∷ d ∷ e ∷ f ∷ g ∷ h ∷ bits) small =
    let (pad, packed) = stream-pack bits small.1.1.1.1.1.1.1.1 in
    (
      pad,
      octet_bits-weigh a b c d e f g h (stream (pack bits)) (omega arith)
          ∙ ap (λ t. a ∷ b ∷ c ∷ d ∷ e ∷ f ∷ g ∷ h ∷ t) packed,
    )

pack-IsByte : (bits : List ℕ) → All IsBit bits → All IsByte (pack bits)
unfolding pack
pack-IsByte [] small = tt
pack-IsByte (a ∷ []) small = omega arith
pack-IsByte (a ∷ b ∷ []) small = omega arith
pack-IsByte (a ∷ b ∷ c ∷ []) small = omega arith
pack-IsByte (a ∷ b ∷ c ∷ d ∷ []) small = omega arith
pack-IsByte (a ∷ b ∷ c ∷ d ∷ e ∷ []) small = omega arith
pack-IsByte (a ∷ b ∷ c ∷ d ∷ e ∷ f ∷ []) small = omega arith
pack-IsByte (a ∷ b ∷ c ∷ d ∷ e ∷ f ∷ g ∷ []) small = omega arith
pack-IsByte (a ∷ b ∷ c ∷ d ∷ e ∷ f ∷ g ∷ h ∷ bits) small =
    (omega arith, pack-IsByte bits small.1.1.1.1.1.1.1.1)

next_septet : (skip k : ℕ) → skip + (k + 1) * 7 ≡ skip + k * 7 + 7
next_septet skip k = omega arith

septet_from-septet_bits :
    (v : ℕ) (octets : List ℕ) (off : ℕ) (rest : List ℕ)
    → IsSeptet v
    → drop off (stream octets) ≡ septet_bits v rest
    → septet_from 7 octets off 0 0 ≡ v
septet_from-septet_bits v octets off rest small at_place =
    septet_from-from_bits 7 octets off 0 0 ∙ rw (add-zero off, at_place) (omega arith)

-- The loop reads back the septets whose bits stand at its place in the stream.
pub septets_from-stream :
    (septets octets pad : List ℕ) (skip k : ℕ)
    → All IsSeptet septets
    → drop (skip + k * 7) (stream octets) ≡ septet_stream septets ++ pad
    → septets_from (length septets) octets skip k ≡ map gsm7_rune septets
unfolding septets_from
septets_from-stream [] octets pad skip k small at_place = refl
septets_from-stream (v ∷ septets) octets pad skip k small at_place =
    ap₂ (◌∷◌) (ap gsm7_rune (septet_from-septet_bits v octets (skip + k * 7) _ small.0 at_place)) (
      septets_from-stream septets octets pad skip (k + 1) small.1 (
        ap (λ n. drop n (stream octets)) (next_septet skip k)
        ∙ drop-add (skip + k * 7) 7 (stream octets)
        ∙ ap (drop 7) at_place))

-- What `DecodePDU` is given for a text in the default alphabet: the septets of the text, packed.
unfoldable pub pack_septets : List ℕ → List ℕ
pack_septets septets = pack (septet_stream septets)

pub stream-pack_septets :
    (septets : List ℕ)
    → (pad : List ℕ) × (stream (pack_septets septets) ≡ septet_stream septets ++ pad)
unfolding pack_septets
stream-pack_septets septets = stream-pack (septet_stream septets) (septet_stream-IsBit septets)

length-pack-le : (bits : List ℕ) → length (pack bits) ≤ length bits
unfolding pack
length-pack-le [] = omega arith
length-pack-le (a ∷ []) = omega arith
length-pack-le (a ∷ b ∷ []) = omega arith
length-pack-le (a ∷ b ∷ c ∷ []) = omega arith
length-pack-le (a ∷ b ∷ c ∷ d ∷ []) = omega arith
length-pack-le (a ∷ b ∷ c ∷ d ∷ e ∷ []) = omega arith
length-pack-le (a ∷ b ∷ c ∷ d ∷ e ∷ f ∷ []) = omega arith
length-pack-le (a ∷ b ∷ c ∷ d ∷ e ∷ f ∷ g ∷ []) = omega arith
length-pack-le (a ∷ b ∷ c ∷ d ∷ e ∷ f ∷ g ∷ h ∷ bits) = omega (arith, length-pack-le bits)

length-septet_stream : (septets : List ℕ) → length (septet_stream septets) ≡ 7 * length septets
length-septet_stream [] = omega arith
length-septet_stream (v ∷ septets) = omega (arith, length-septet_stream septets)

-- A generous bound.
pub length-pack_septets-le : (septets : List ℕ) → length (pack_septets septets) ≤ 7 * length septets
unfolding pack_septets
length-pack_septets-le septets =
    omega (arith, length-pack-le (septet_stream septets), length-septet_stream septets)

pub pack_septets-IsByte : (septets : List ℕ) → All IsByte (pack_septets septets)
unfolding pack_septets
pack_septets-IsByte septets = pack-IsByte (septet_stream septets) (septet_stream-IsBit septets)

decode_gsm7-septets :
    (septets : List ℕ)
    → All IsSeptet septets
    → decode_gsm7 (hex_text (pack_septets septets)) (length septets) false
      ≡ ok (map gsm7_rune septets)
unfolding decode_gsm7 skip_bits
decode_gsm7-septets septets small =
    let (pad, packed) = stream-pack_septets septets in
    rw (hex_to_bytes-hex_text (pack_septets septets) (pack_septets-IsByte septets))
      (ap ok (septets_from-stream septets (pack_septets septets) pad 0 0 small packed))

-- The septet of a character: its place in the alphabet.
unfoldable pub index_of : ℕ → List ℕ → ℕ
index_of c [] = 0
index_of c (d ∷ alphabet) = if c == d then 0 else suc (index_of c alphabet)

abbrev pub septet_of : ℕ → ℕ
septet_of c = index_of c gsm7_default_alphabet

abbrev pub member : ℕ → List ℕ → Bool
member c [] = false
member c (d ∷ alphabet) = c == d || member c alphabet

get_or-index_of :
    (c : ℕ) (alphabet : List ℕ)
    → member c alphabet ≡ true
    → (get_or alphabet (index_of c alphabet) 0 ≡ c) × (index_of c alphabet < length alphabet)
unfolding index_of
get_or-index_of c [] m = cc
get_or-index_of c (d ∷ alphabet) m = ground (arith, get_or-index_of c alphabet)

-- A character of the default alphabet.
abbrev pub IsGsm7 : ℕ → Type 0
IsGsm7 c = member c gsm7_default_alphabet ≡ true

gsm7_rune-septet_of : (c : ℕ) → IsGsm7 c → (gsm7_rune (septet_of c) ≡ c) × IsSeptet (septet_of c)
unfolding gsm7_rune
gsm7_rune-septet_of c m =
    let (found, small) = get_or-index_of c gsm7_default_alphabet m in
    (rw (lt→leb (septet_of c) 128 small) found, small)

pub septets_of :
    (t : Text)
    → All IsGsm7 t
    → (map gsm7_rune (map septet_of t) ≡ t) × All IsSeptet (map septet_of t)
septets_of [] h = (refl, tt)
septets_of (c ∷ t) h =
    let (found, small) = gsm7_rune-septet_of c h.0 in
    let (rest, all_small) = septets_of t h.1 in (ap₂ (◌∷◌) found rest, (small, all_small))

-- Every text over the default alphabet, packed seven bits to a character, is read back by
-- `decodeGSM7` under the count of its characters, when there is no header.
pub decode_gsm7-pack_septets :
    (t : Text)
    → All IsGsm7 t
    → decode_gsm7 (hex_text (pack_septets (map septet_of t))) (length t) false ≡ ok t
decode_gsm7-pack_septets t h =
    let (found, small) = septets_of t h in
    rw (← length-map t septet_of) (decode_gsm7-septets (map septet_of t) small ∙ ap ok found)
