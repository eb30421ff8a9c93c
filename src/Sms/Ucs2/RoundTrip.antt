-- ===== src/Sms/Ucs2/RoundTrip.antt =====
-- Text as UTF-16 in octets, high octet first, and `decodeUCS2` of internal/sms/sms.go as its inverse.
use at_message_forward.Prelude.{
  ℕ, ◌+◌, ◌*◌, ◌-◌, ◌/◌, ◌%◌, ◌≤◌, ◌<◌, true, false, List, [], ◌∷◌, ltb, if◌then◌else◌, Bool-cases,
  length, ◌≡◌, refl, ap, inl, inr, arith, All, ok, ◌⊎◌,
}
use at_message_forward.Text.{Text}
use at_message_forward.Sms.Hex.{IsByte, hex_text, hex_to_bytes-hex_text}
use at_message_forward.Sms.Ucs2.{utf16_decode, words_of, decode_words, strip_header, decode_ucs2}

-- A Unicode scalar value.
abbrev pub IsScalar : ℕ → Type 0
IsScalar c = (c < 0xD800) ⊎ ((0xE000 ≤ c) × (c < 0x110000))

-- The words of one code point in front of `words`.
abbrev pub utf16_char : ℕ → List ℕ → List ℕ
utf16_char c words =
    if ltb c 0x10000
    then c ∷ words
    else (0xD800 + (c - 0x10000) / 0x400) ∷ (0xDC00 + (c - 0x10000) % 0x400) ∷ words

unfoldable pub utf16_encode : Text → List ℕ
utf16_encode [] = []
utf16_encode (c ∷ t) = utf16_char c (utf16_encode t)

-- Each word as two octets.
unfoldable pub octets_of : List ℕ → List ℕ
octets_of [] = []
octets_of (w ∷ words) = w / 256 ∷ w % 256 ∷ octets_of words

abbrev IsWord : ℕ → Type 0
IsWord w = w < 65536

utf16_decode-bmp :
    (c : ℕ) (words : List ℕ)
    → ltb c 0x10000 ≡ true
    → IsScalar c
    → utf16_decode (c ∷ words) ≡ c ∷ utf16_decode words
unfolding utf16_decode
utf16_decode-bmp c [] small h = ground arith
utf16_decode-bmp c (w ∷ words) small h = ground arith

utf16_decode-pair :
    (c : ℕ) (words : List ℕ)
    → ltb c 0x10000 ≡ false
    → IsScalar c
    → utf16_decode ((0xD800 + (c - 0x10000) / 0x400) ∷ (0xDC00 + (c - 0x10000) % 0x400) ∷ words)
      ≡ c ∷ utf16_decode words
unfolding utf16_decode
utf16_decode-pair c words large h = ground arith

utf16_decode-utf16_encode : (t : Text) → All IsScalar t → utf16_decode (utf16_encode t) ≡ t
unfolding utf16_encode
utf16_decode-utf16_encode [] h = unfold utf16_decode in refl
utf16_decode-utf16_encode (c ∷ t) h = elim (Bool-cases (ltb c 0x10000)) [
  | inl small ↦
      rw (small, utf16_decode-bmp c (utf16_encode t) small h.0, utf16_decode-utf16_encode t h.1)
  | inr large ↦
      rw (large, utf16_decode-pair c (utf16_encode t) large h.0, utf16_decode-utf16_encode t h.1)
]

utf16_encode-IsWord : (t : Text) → All IsScalar t → All IsWord (utf16_encode t)
unfolding utf16_encode
utf16_encode-IsWord [] h = tt
utf16_encode-IsWord (c ∷ t) h = elim (Bool-cases (ltb c 0x10000)) [
  | inl small ↦ rw small (ground arith, utf16_encode-IsWord t h.1)
  | inr large ↦ rw large (ground arith, (ground arith, utf16_encode-IsWord t h.1))
]

words_of-octets_of : (words : List ℕ) → words_of (octets_of words) ≡ words
unfolding words_of octets_of
words_of-octets_of [] = refl
words_of-octets_of (w ∷ words) = ground (arith, words_of-octets_of words)

octets_of-IsByte : (words : List ℕ) → All IsWord words → All IsByte (octets_of words)
unfolding octets_of
octets_of-IsByte [] h = tt
octets_of-IsByte (w ∷ words) h = (omega arith, (omega arith, octets_of-IsByte words h.1))

length-octets_of : (words : List ℕ) → length (octets_of words) ≡ 2 * length words
unfolding octets_of
length-octets_of [] = refl
length-octets_of (w ∷ words) = omega (arith, length-octets_of words)

decode_words-octets_of : (words : List ℕ) → decode_words (octets_of words) ≡ ok (utf16_decode words)
unfolding decode_words
decode_words-octets_of words = ground (arith, length-octets_of words, words_of-octets_of words)

-- The user data of a text in UCS2.
unfoldable pub ucs2_octets : Text → List ℕ
ucs2_octets t = octets_of (utf16_encode t)

pub ucs2_octets-IsByte : (t : Text) → All IsScalar t → All IsByte (ucs2_octets t)
unfolding ucs2_octets
ucs2_octets-IsByte t h = octets_of-IsByte (utf16_encode t) (utf16_encode-IsWord t h)

-- Every text of Unicode scalar values, sent as UTF-16 with surrogate pairs and the high octet first,
-- is read back by `decodeUCS2`, when there is no header.
pub decode_ucs2-ucs2_octets :
    (t : Text) → All IsScalar t → decode_ucs2 (hex_text (ucs2_octets t)) false ≡ ok t
unfolding decode_ucs2 strip_header
decode_ucs2-ucs2_octets t h = rw (hex_to_bytes-hex_text (ucs2_octets t) (ucs2_octets-IsByte t h)) (
    unfold ucs2_octets in
    rw (decode_words-octets_of (utf16_encode t)) (ap ok (utf16_decode-utf16_encode t h)))
