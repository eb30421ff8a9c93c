-- ===== src/Sms/Pdu.antt =====
-- `DecodePDU` of internal/sms/sms.go and the decoders that it calls. The closures `readHex` and
-- `readByte` share the position `pos`; here a reader takes the unread text `pdu[pos:]` and gives it
-- back. A PDU is ASCII, so its characters are its bytes. The event that Go returns beside an error
-- is not kept: no caller reads it.
pub mod Readers
pub mod Address
pub mod Layout
pub mod Deliver
pub mod Submit
pub mod Messages
pub mod Length
use at_message_forward.Prelude.{
  ℕ, ◌+◌, ◌*◌, ◌/◌, ◌%◌, Bool, ◌&&◌, ◌||◌, [], ◌∷◌, ◌++◌, ltb, ◌==◌, if◌then◌else◌, Result, ok, err,
  ◌>>=◌, length, take, drop, ℤ, pos, negsuc,
}
use at_message_forward.Text.{Text, codes, trim_space, trim_right}
use at_message_forward.Sms.Hex.{
  Error, odd_hex_length, unexpected_eof, length_mismatch, unsupported_mti, parse_byte, hex_byte,
}
use at_message_forward.Sms.Gsm7.{decode_gsm7}
use at_message_forward.Sms.Ucs2.{decode_ucs2}

-- `Event`; the time is the number of nanoseconds on the clock.
pub record Event : Type 0 where
  pub from : Text
  pub text : Text
  pub at : ℕ

abbrev pub Reader : Type 0 → Type 0
Reader A = Text → Result Error (A × Text)

-- `readHex`.
unfoldable pub read_hex : ℕ → Reader Text
read_hex n rest = if ltb (length rest) n then err unexpected_eof else ok (take n rest, drop n rest)

abbrev pub byte_at : Text → Result Error ℕ
byte_at (a ∷ b ∷ s) = parse_byte a b
byte_at s = err unexpected_eof

-- `readByte`.
unfoldable pub read_byte : Reader ℕ
read_byte rest = do (s, rest') ← read_hex 2 rest; v ← byte_at s; ok (v, rest')

-- `readHexRemaining`: two characters at a time, until `readHex` reports the end.
unfoldable pub read_hex_remaining : Text → Text
read_hex_remaining (a ∷ b ∷ rest) = a ∷ b ∷ read_hex_remaining rest
read_hex_remaining rest = []

-- The loop of `decodeSemiOctets`.
unfoldable pub swap_pairs : Text → Text
swap_pairs (a ∷ b ∷ hex) = b ∷ a ∷ swap_pairs hex
swap_pairs hex = []

abbrev pub is_filler : ℕ → Bool
is_filler c = c == b'F' || c == b'f'

unfoldable pub decode_semi_octets : Text → ℕ → Text
decode_semi_octets hex digits =
    let out = trim_right is_filler (swap_pairs hex) in
    if ltb 0 digits && ltb digits (length out) then take digits out else out

-- `int((n + 1) / 2 * 2)` for a byte `n`: the sum wraps.
unfoldable pub address_hex_len : ℕ → ℕ
address_hex_len n = (n + 1) % 256 / 2 * 2

-- The address of both layouts: its length, its type, its semi-octets.
unfoldable pub read_address : Reader Text
read_address rest = do
  (len, rest) ← read_byte rest
  (toa, rest) ← read_byte rest
  (raw, rest) ← read_hex (address_hex_len len) rest
  let number = decode_semi_octets raw len
  ok (if toa == 0x91 then b'+' ∷ number else number, rest)

-- `decodeUserData`.
unfoldable pub decode_user_data : ℕ → Bool → ℕ → Text → Result Error Text
decode_user_data dcs has_udh user_data_len user_data =
    if dcs == 0x00
    then decode_gsm7 user_data user_data_len has_udh
    else if dcs == 0x08
    then decode_ucs2 user_data has_udh
    else if dcs == 0x04
    then ok (codes "[8-bit user data] " ++ user_data)
    else ok (codes "[unsupported dcs=0x" ++ (hex_byte dcs ++ (codes "] " ++ user_data)))

-- The end of both layouts: the length of the user data, and the rest as user data.
unfoldable pub read_user_data : ℕ → Bool → Text → Result Error Text
read_user_data dcs has_udh rest = do
  (len, rest) ← read_byte rest
  decode_user_data dcs has_udh len (read_hex_remaining rest)

-- `firstOctet & 0x40 != 0`.
abbrev pub has_udh_of : ℕ → Bool
has_udh_of first_octet = first_octet / 0x40 % 2 == 1

unfoldable pub decode_deliver_tpdu : ℕ → ℕ → Text → Result Error Event
decode_deliver_tpdu now first_octet rest = do
  (from, rest) ← read_address rest
  (pid, rest) ← read_byte rest
  (dcs, rest) ← read_byte rest
  (scts, rest) ← read_hex 14 rest
  text ← read_user_data dcs (has_udh_of first_octet) rest
  ok (record { from = from; text = text; at = now })

-- `firstOctet & 0x18` is 0x08 times this.
abbrev pub vpf_of : ℕ → ℕ
vpf_of first_octet = first_octet / 0x08 % 4

-- The characters that `skipSubmitValidityPeriod` reads.
abbrev pub validity_hex_len : ℕ → ℕ
validity_hex_len vpf = if vpf == 0 then 0 else if vpf == 2 then 2 else 14

unfoldable pub skip_period : ℕ → Text → Result Error Text
skip_period vpf rest =
    if vpf == 0 then ok rest else do (period, rest) ← read_hex (validity_hex_len vpf) rest; ok rest

unfoldable pub skip_submit_validity_period : ℕ → Text → Result Error Text
unfolding skip_period
skip_submit_validity_period first_octet rest = skip_period (vpf_of first_octet) rest

unfoldable pub decode_submit_tpdu : ℕ → ℕ → Text → Result Error Event
decode_submit_tpdu now first_octet rest = do
  (mr, rest) ← read_byte rest
  (to, rest) ← read_address rest
  (pid, rest) ← read_byte rest
  (dcs, rest) ← read_byte rest
  rest ← skip_submit_validity_period first_octet rest
  text ← read_user_data dcs (has_udh_of first_octet) rest
  ok (record { from = to; text = text; at = now })

-- `expectedTPDULength >= 0` and the comparison under it.
abbrev pub check_length : ℤ → ℕ → Result Error (Unit {0})
check_length (negsuc n) actual = ok tt
check_length (pos n) actual = if actual == n then ok tt else err (length_mismatch actual)

unfoldable pub decode_tpdu : ℕ → ℕ → Text → Result Error Event
decode_tpdu now first_octet rest =
    let mti = first_octet % 4 in
    if mti == 0
    then decode_deliver_tpdu now first_octet rest
    else if mti == 1
    then decode_submit_tpdu now first_octet rest
    else err (unsupported_mti mti)

-- Behind the trimming and the test for an odd length.
unfoldable pub decode_trimmed : ℕ → Text → ℤ → Result Error Event
decode_trimmed now pdu expected = do
  (smsc_len, rest) ← read_byte pdu
  (smsc, rest) ← read_hex (smsc_len * 2) rest
  _ ← check_length expected (length rest / 2)
  (first_octet, rest) ← read_byte rest
  decode_tpdu now first_octet rest

unfoldable pub decode_pdu : ℕ → Text → ℤ → Result Error Event
decode_pdu now pdu expected =
    let trimmed = trim_space pdu in
    if length trimmed % 2 == 0 then decode_trimmed now trimmed expected else err odd_hex_length
