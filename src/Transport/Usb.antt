-- ===== src/Transport/Usb.antt =====
-- internal/transport/usb/usb.go and usb_stub.go. The files below this one model usb_cgo.go; libusb, as the
-- package gousb shows it, is a parameter of theirs.
pub mod Descriptor
pub mod Handles
pub mod Open
pub mod Listing
pub mod Reader
use at_message_forward.Prelude.{ℕ, ◌*◌, ◌^◌, zero, suc, Bool, Result, err, ℤ, pos, negsuc}
use at_message_forward.Text.{Text}

-- A `time.Duration` counts nanoseconds; the product and the vendor are numbers of 16 bits.
pub record Options : Type 0 where
  pub vendor : ℕ
  pub product : ℕ
  pub forced : ℤ
  pub probe_timeout : ℤ

pub record Candidate : Type 0 where
  pub vid : ℕ
  pub pid : ℕ
  pub interface_number : ℤ
  pub manufacturer : Text
  pub product_name : Text
  pub probe_ok : Bool
  pub probe_error : Text

abbrev pub default_probe_timeout : ℕ
default_probe_timeout = 1500 * 10 ^ 6

-- The timeout that `openLink` and `List` probe with.
abbrev pub or_default_timeout : ℤ → ℕ
or_default_timeout (pos zero) = default_probe_timeout
or_default_timeout (pos (suc n)) = suc n
or_default_timeout (negsuc n) = default_probe_timeout

pub data Error : Type 0 where
  not_supported : Error
  config_failed enumerate_failed list_failed : Text → Error
  no_matching_modem no_at_capable : Error
  claim_failed in_endpoint_failed out_endpoint_failed : ℕ → Text → Error
  no_bulk_pair : ℕ → Error

-- `openLink` of a build without libusb.
unfoldable pub stub_open_link : {Link : Type 0} → Options → Result Error Link
stub_open_link opts = err not_supported
