-- ===== src/Transport/Usb/Listing.antt =====
-- `List` of internal/transport/usb/usb_cgo.go, with the handles that it opens and closes.
pub mod Laws
use at_message_forward.Prelude.{
  ℕ, ◌+◌, Bool, true, false, ◌&&◌, Option, none, some, List, [], ◌∷◌, ◌++◌, if◌then◌else◌, Result,
  ok, err, ℤ, pos, negsuc,
}
use at_message_forward.Text.{Text, codes, is_empty}
use at_message_forward.Transport.Usb.{Candidate, Error, list_failed, or_default_timeout}
use at_message_forward.Transport.Usb.Descriptor.{candidate_interfaces, has_vendor_bulk_interface}
use at_message_forward.Transport.Usb.Handles.{
  context, configuration, interface, Event, opens, closes, Traced, plain, behind,
}
use at_message_forward.Transport.Usb.Open.{
  Interface, UsbConfig, Device, Bus, claim_interface, probe_at, open_all, close_all,
}

-- One turn of the loop over the interfaces: the number if the interface answers.
abbrev pub answered : ℕ → ℕ → ℕ → Result Error Interface → Traced (Option ℕ) → Traced (Option ℕ)
answered i timeout n (err e) rest = rest
answered i timeout n (ok intf) rest =
    behind (closes (interface i n) ∷ []) (if probe_at intf timeout then plain (some n) else rest)

unfoldable pub first_answering : ℕ → ℕ → UsbConfig → List ℕ → Traced (Option ℕ)
first_answering i timeout cfg [] = plain none
first_answering i timeout cfg (n ∷ nums) =
    behind ((claim_interface i cfg n).trace)
      (answered i timeout n ((claim_interface i cfg n).result) (first_answering i timeout cfg nums))

abbrev pub listed : Device → ℤ → Bool → Text → Candidate
listed dev n found error = record {
  vid = dev.desc.vendor;
  pid = dev.desc.product;
  interface_number = n;
  manufacturer = dev.manufacturer;
  product_name = dev.product;
  probe_ok = found;
  probe_error = error;
}

abbrev pub with_answer : Device → Option ℕ → Candidate
with_answer dev (some n) = listed dev (pos n) true []
with_answer dev none = listed dev (negsuc 0) false (codes "no interface answered AT")

abbrev pub configured : ℕ → ℕ → Device → Result Text UsbConfig → Traced Candidate
configured i timeout dev (err e) = plain (listed dev (negsuc 0) false e)
configured i timeout dev (ok cfg) =
    let first = first_answering i timeout cfg (candidate_interfaces dev.desc (negsuc 0)) in
    record {
      result = with_answer dev first.result;
      trace = opens (configuration i) ∷ (first.trace ++ closes (configuration i) ∷ []);
    }

unfoldable pub list_device : ℕ → ℕ → Device → Traced Candidate
list_device i timeout dev = configured i timeout dev dev.config

unfoldable pub list_devices : ℕ → ℕ → List Device → Traced (List Candidate)
list_devices i timeout [] = plain []
list_devices i timeout (d ∷ devs) =
    let rest = list_devices (i + 1) timeout devs in
    record {
      result = (list_device i timeout d).result ∷ rest.result;
      trace = (list_device i timeout d).trace ++ rest.trace;
    }

-- `err` is looked at only if no device was opened.
abbrev pub listing : ℕ → List Device → Option Text → Traced (Result Error (List Candidate))
listing timeout [] (some e) = plain (err (list_failed e))
listing timeout [] none = plain (ok [])
listing timeout (d ∷ devs) error =
    let found = list_devices 0 timeout (d ∷ devs) in
    record {
      result = ok found.result;
      trace = open_all 0 (d ∷ devs) ++ (found.trace ++ close_all 0 (d ∷ devs));
    }

abbrev pub in_context : {A : Type 0} → Traced A → Traced A
in_context t = record {
  result = t.result;
  trace = opens context ∷ (t.trace ++ closes context ∷ []);
}

unfoldable pub list : ℤ → Bus → Traced (Result Error (List Candidate))
list probe_timeout bus = in_context (
    listing (or_default_timeout probe_timeout) (bus.devices has_vendor_bulk_interface)
      (bus.enumerate_error has_vendor_bulk_interface))
