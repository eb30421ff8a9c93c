-- ===== src/Sms/Gsm7/Bits.antt =====
-- The bit stream of packed octets, lowest bit first, which `decodeGSM7` of internal/sms/sms.go reads.
use native.Mathlib.Nat.{pow-suc}
use native.Mathlib.Numerals.{add-one}
use at_message_forward.Prelude.{
  ℕ, zero, suc, ◌+◌, ◌*◌, ◌/◌, ◌%◌, ◌^◌, ◌≤◌, ◌<◌, true, List, [], ◌∷◌, leb, leb→le, ◌==◌,
  if◌then◌else◌, Bool-cases, length, get_or, drop, ◌≡◌, refl, ap, sym, inl, inr, arith, ◌∙◌,
}
use at_message_forward.Sms.Gsm7.{bit_set, septet_from}

-- The eight bits of an octet in front of `rest`.
abbrev pub octet_bits : ℕ → List ℕ → List ℕ
octet_bits v rest =
    v % 2
    ∷ v / 2 % 2
    ∷ v / 4 % 2
    ∷ v / 8 % 2
    ∷ v / 16 % 2
    ∷ v / 32 % 2
    ∷ v / 64 % 2
    ∷ v / 128 % 2
    ∷ rest

abbrev pub stream : List ℕ → List ℕ
stream [] = []
stream (v ∷ octets) = octet_bits v (stream octets)

-- The number whose lowest `n` bits stand in front of the list.
abbrev pub from_bits : ℕ → List ℕ → ℕ
from_bits zero bits = 0
from_bits (suc n) bits = get_or bits 0 0 + 2 * from_bits n (drop 1 bits)

pub get_or-drop : (n : ℕ) (bits : List ℕ) → get_or (drop n bits) 0 0 ≡ get_or bits n 0
get_or-drop zero bits = refl
get_or-drop (suc n) [] = refl
get_or-drop (suc n) (b ∷ bits) = get_or-drop n bits

pub drop-drop : (n : ℕ) (bits : List ℕ) → drop 1 (drop n bits) ≡ drop (suc n) bits
drop-drop zero bits = refl
drop-drop (suc n) [] = refl
drop-drop (suc n) (b ∷ bits) = drop-drop n bits

pub length-stream : (octets : List ℕ) → length (stream octets) ≡ 8 * length octets
length-stream [] = refl
length-stream (v ∷ octets) = omega (arith, length-stream octets)

drop_past : (n : ℕ) (bits : List ℕ) → length bits ≤ n → drop n bits ≡ []
drop_past zero [] h = refl
drop_past zero (b ∷ bits) h = absurd (omega arith)
drop_past (suc n) [] h = refl
drop_past (suc n) (b ∷ bits) h = drop_past n bits (omega arith)

-- One bit of the octets by its place in the stream.
abbrev bit_of : List ℕ → ℕ → ℕ
bit_of octets i = get_or octets (i / 8) 0 / 2 ^ (i % 8) % 2

bit_of-cons : (v : ℕ) (octets : List ℕ) (i : ℕ) → bit_of (v ∷ octets) (8 + i) ≡ bit_of octets i
bit_of-cons v octets i = rw (div_past i, mod_past i)
  where
    div_past : (i : ℕ) → (8 + i) / 8 ≡ suc (i / 8)
    div_past i = omega arith

    mod_past : (i : ℕ) → (8 + i) % 8 ≡ i % 8
    mod_past i = omega arith

get_or-stream : (octets : List ℕ) (i : ℕ) → get_or (stream octets) i 0 ≡ bit_of octets i
get_or-stream [] i = omega arith
get_or-stream (v ∷ octets) zero = omega arith
get_or-stream (v ∷ octets) (suc zero) = refl
get_or-stream (v ∷ octets) (suc (suc zero)) = refl
get_or-stream (v ∷ octets) (suc (suc (suc zero))) = refl
get_or-stream (v ∷ octets) (suc (suc (suc (suc zero)))) = refl
get_or-stream (v ∷ octets) (suc (suc (suc (suc (suc zero))))) = refl
get_or-stream (v ∷ octets) (suc (suc (suc (suc (suc (suc zero)))))) = refl
get_or-stream (v ∷ octets) (suc (suc (suc (suc (suc (suc (suc zero))))))) = refl
get_or-stream (v ∷ octets) (suc (suc (suc (suc (suc (suc (suc (suc i)))))))) =
    get_or-stream octets i ∙ sym (bit_of-cons v octets i) ∙ ap (bit_of (v ∷ octets)) (omega arith)

get_or_past : (octets : List ℕ) (i : ℕ) → length octets ≤ i → get_or octets i 0 ≡ 0
get_or_past [] i h = refl
get_or_past (v ∷ octets) zero h = absurd (omega arith)
get_or_past (v ∷ octets) (suc i) h = get_or_past octets i (omega arith)

from_bits_past : (n i : ℕ) (bits : List ℕ) → length bits ≤ i → from_bits n (drop i bits) ≡ 0
from_bits_past zero i bits h = refl
from_bits_past (suc n) i bits h =
    rw (get_or-drop i bits, get_or_past bits i h, drop-drop i bits)
      (omega (arith, from_bits_past n (suc i) bits (omega arith)))

add_bit : (b value k : ℕ) → b < 2 → (if b == 1 then value + k else value) ≡ value + k * b
add_bit zero value k h = omega arith
add_bit (suc zero) value k h = omega arith
add_bit (suc (suc b)) value k h = absurd (omega arith)

pub pow_double : (k : ℕ) → 2 ^ (k + 1) ≡ 2 * 2 ^ k
pow_double k = rw add-one (pow-suc 2 k ∙ omega arith)

next_place : (off bit : ℕ) → off + (bit + 1) ≡ suc (off + bit)
next_place off bit = omega arith

stream_ends :
    (octets : List ℕ) (i : ℕ) → leb (length octets) (i / 8) ≡ true → length (stream octets) ≤ i
stream_ends octets i h = omega (arith, length-stream octets, leb→le _ _ h)

-- One round of the loop adds its bit.
septet_from_step :
    (n : ℕ) (octets : List ℕ) (off bit value : ℕ)
    → septet_from (suc n) octets off bit value ≡ (
        if leb (length octets) ((off + bit) / 8)
        then value
        else septet_from n octets off (bit + 1) (value + 2 ^ bit * bit_of octets (off + bit)))
unfolding septet_from bit_set
septet_from_step n octets off bit value =
    ap
      (λ t.
        if leb (length octets) ((off + bit) / 8)
        then value
        else septet_from n octets off (bit + 1) t)
      (add_bit (bit_of octets (off + bit)) value (2 ^ bit) (omega arith))

pub septet_from-from_bits :
    (n : ℕ) (octets : List ℕ) (off bit value : ℕ)
    → septet_from n octets off bit value
      ≡ value + 2 ^ bit * from_bits n (drop (off + bit) (stream octets))
septet_from-from_bits zero octets off bit value = unfold septet_from in omega arith
septet_from-from_bits (suc n) octets off bit value =
    elim (Bool-cases (leb (length octets) ((off + bit) / 8))) [
      | inl past ↦
          rw
            (
              septet_from_step n octets off bit value,
              past,
              from_bits_past (suc n) (off + bit) (stream octets)
                  (stream_ends octets (off + bit) past),
            )
            (omega arith)
      | inr more ↦
          rw
            (
              septet_from_step n octets off bit value,
              more,
              septet_from-from_bits n octets off (bit + 1)
                  (value + 2 ^ bit * bit_of octets (off + bit)),
              get_or-drop (off + bit) (stream octets),
              get_or-stream octets (off + bit),
              drop-drop (off + bit) (stream octets),
            )
            (rw (next_place off bit, pow_double bit) (omega arith))
    ]
