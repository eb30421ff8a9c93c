-- ===== src/Transport/Select.antt =====
-- `New` and `parseHexID` of internal/transport/transport.go.
pub mod Laws
use at_message_forward.Prelude.{
  ℕ, ◌+◌, ◌*◌, ◌^◌, Bool, true, false, Option, none, some, and_then, List, [], ◌∷◌, ltb,
  if◌then◌else◌, map, Result, ok, err, ◌>>=◌, pos,
}
use at_message_forward.Text.{
  Text, codes, trim_space, trim_prefix, to_lower, equal_fold, hex_digit, is_empty,
}
use at_message_forward.Config.{Config, transport_usb}
use at_message_forward.Transport.Serial.Detect.{SerialTransport}
use at_message_forward.Transport.Usb.{Options}

-- The text that is not read, as the message of the source shows it.
pub data HexError : Type 0 where
  invalid_hex_id : Text → HexError

-- `strconv.ParseUint(s, 16, 16)` behind the digits that have given `n`. The first digit that is none, or
-- that exceeds 16 bits, is an error.
unfoldable pub parse_uint_from : ℕ → Text → Option ℕ
parse_uint_from n [] = some n
parse_uint_from n (c ∷ s) =
    and_then (hex_digit c)
      (λ d. if ltb (n * 16 + d) (2 ^ 16) then parse_uint_from (n * 16 + d) s else none)

unfoldable pub parse_uint : Text → Option ℕ
parse_uint [] = none
parse_uint (c ∷ s) = parse_uint_from 0 (c ∷ s)

abbrev pub or_invalid : Text → Option ℕ → Result HexError ℕ
or_invalid value none = err (invalid_hex_id value)
or_invalid value (some n) = ok n

abbrev pub hex_part : Text → Text
hex_part value = trim_prefix (map to_lower value) (codes "0x")

unfoldable pub parse_hex_id : Text → Result HexError ℕ
parse_hex_id value =
    if is_empty (trim_space value)
    then ok 0
    else or_invalid (hex_part (trim_space value)) (parse_uint (hex_part (trim_space value)))

pub data SelectError : Type 0 where
  usb_vendor_invalid usb_product_invalid : HexError → SelectError

pub data Transport : Type 0 where
  serial_transport : SerialTransport → Transport
  usb_transport : Options → Transport

abbrev pub vendor_id : Result HexError ℕ → Result SelectError ℕ
vendor_id (ok n) = ok n
vendor_id (err e) = err (usb_vendor_invalid e)

abbrev pub product_id : Result HexError ℕ → Result SelectError ℕ
product_id (ok n) = ok n
product_id (err e) = err (usb_product_invalid e)

abbrev pub usb_from : Config → Result SelectError Transport
usb_from cfg = do
  vid ← vendor_id (parse_hex_id cfg.usb_vendor)
  pid ← product_id (parse_hex_id cfg.usb_product)
  ok (
      usb_transport
        (record { vendor = vid; product = pid; forced = cfg.usb_interface; probe_timeout = pos 0 }))

-- `New`.
unfoldable pub new_transport : Config → Result SelectError Transport
new_transport cfg =
    if equal_fold cfg.transport transport_usb
    then usb_from cfg
    else ok (serial_transport (record { port = cfg.port; baud = cfg.baud }))
