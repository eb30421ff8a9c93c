-- ===== src/Transport/Usb/Open.antt =====
-- `openLink`, `findDevice`, `claimInterface`, `probeAT` and `Close` of internal/transport/usb/usb_cgo.go, with
-- the handles that they open and close. What libusb answers is a parameter. A read of `probeAT` that meets
-- the end of its context is not made, so the reads that are made before it are a finite list.
pub mod Laws
use at_message_forward.Prelude.{
  ℕ, suc, ◌+◌, Bool, true, false, not, ◌&&◌, ◌||◌, Option, none, some, List, [], ◌∷◌, ◌++◌,
  if◌then◌else◌, Result, ok, err, ℤ, pos, negsuc,
}
use at_message_forward.Text.{Text, codes, trim_space, contains, is_empty, is_some, or_else}
use at_message_forward.Number.{show_ℕ}
use at_message_forward.Transport.Usb.{
  Options, or_default_timeout, Error, config_failed, enumerate_failed, no_matching_modem,
  no_at_capable, claim_failed, in_endpoint_failed, out_endpoint_failed, no_bulk_pair,
}
use at_message_forward.Transport.Usb.Descriptor.{
  Direction, Endpoint, DeviceDesc, is_bulk, is_in, is_out, candidate_interfaces, is_wanted,
}
use at_message_forward.Transport.Usb.Handles.{
  Handle, context, read_context, device, configuration, interface, Event, opens, closes, Traced,
  plain, behind, deferring,
}

-- One call of `ReadContext`.
pub record Transfer : Type 0 where
  pub received : List ℕ
  pub error : Option Text

-- A claimed interface: the endpoints of its setting, the errors of `InEndpoint` and `OutEndpoint` for a
-- number, the error of a write, and the reads that a timeout leaves time for.
pub record Interface : Type 0 where
  pub endpoints : List Endpoint
  pub in_endpoint : ℤ → Option Text
  pub out_endpoint : ℤ → Option Text
  pub write_error : Option Text
  pub reads : ℕ → List Transfer

-- `cfg.Interface`.
pub record UsbConfig : Type 0 where
  pub claim : ℕ → Result Text Interface

-- `dev.Config(1)` and the texts, which are empty if they cannot be read.
pub record Device : Type 0 where
  pub desc : DeviceDesc
  pub config : Result Text UsbConfig
  pub manufacturer : Text
  pub product : Text

-- `OpenDevices` for a test: the devices it opened, and its error; and how gousb prints an id.
pub record Bus : Type 0 where
  pub devices : (DeviceDesc → Bool) → List Device
  pub enumerate_error : (DeviceDesc → Bool) → Option Text
  pub show_id : ℕ → Text

abbrev pub is_negative : ℤ → Bool
is_negative (pos n) = false
is_negative (negsuc n) = true

-- `inNum` and `outNum`: the last bulk endpoint of the direction, -1 if there is none.
unfoldable pub last_number : (Direction → Bool) → ℤ → List Endpoint → ℤ
last_number wanted number [] = number
last_number wanted number (ep ∷ eps) =
    last_number wanted
      (if is_bulk ep.transfer_type && wanted ep.direction then pos ep.number else number) eps

abbrev pub with_endpoints : ℕ → Interface → Option Text → Option Text → Result Error Interface
with_endpoints n intf (some e) out_error = err (in_endpoint_failed n e)
with_endpoints n intf none (some e) = err (out_endpoint_failed n e)
with_endpoints n intf none none = ok intf

abbrev pub endpoints_of : ℕ → Interface → Result Error Interface
endpoints_of n intf =
    let in_num = last_number is_in (negsuc 0) intf.endpoints in
    let out_num = last_number is_out (negsuc 0) intf.endpoints in
    if is_negative in_num || is_negative out_num
    then err (no_bulk_pair n)
    else with_endpoints n intf (intf.in_endpoint in_num) (intf.out_endpoint out_num)

-- Each return with an error behind the claim closes the interface first.
abbrev pub claimed : ℕ → ℕ → Result Text Interface → Traced (Result Error Interface)
claimed i n (err e) = plain (err (claim_failed n e))
claimed i n (ok intf) =
    behind (opens (interface i n) ∷ []) (deferring (interface i n) (plain (endpoints_of n intf)))

-- For the configuration of the `i`-th device.
unfoldable pub claim_interface : ℕ → UsbConfig → ℕ → Traced (Result Error Interface)
claim_interface i cfg n = claimed i n (cfg.claim n)

unfoldable pub hear_ok : List ℕ → List Transfer → Bool
hear_ok acc [] = false
hear_ok acc (r ∷ reads) =
    let rest = hear_ok (acc ++ r.received) reads in
    if not (is_empty r.received) && contains (acc ++ r.received) (codes "OK")
    then true
    else if is_some r.error
    then false
    else rest

abbrev pub unless_write_error : Option Text → List Transfer → Bool
unless_write_error (some e) reads = false
unless_write_error none reads = hear_ok [] reads

unfoldable pub probe_at : Interface → ℕ → Bool
probe_at intf timeout = unless_write_error intf.write_error (intf.reads timeout)

-- What `OpenDevices` opens, and what the loops over its devices close.
unfoldable pub open_all : {A : Type 0} → ℕ → List A → List Event
open_all i [] = []
open_all i (d ∷ devs) = opens (device i) ∷ open_all (i + 1) devs

unfoldable pub close_all : {A : Type 0} → ℕ → List A → List Event
close_all i [] = []
close_all i (d ∷ devs) = closes (device i) ∷ close_all (i + 1) devs

abbrev pub nothing_found : Option Text → Error
nothing_found (some e) = enumerate_failed e
nothing_found none = no_matching_modem

abbrev pub keep_first : List Device → Option Text → Traced (Result Error Device)
keep_first [] error = plain (err (nothing_found error))
keep_first (d ∷ devs) error = record {
  result = ok d;
  trace = open_all 0 (d ∷ devs) ++ close_all 1 devs;
}

unfoldable pub find_device : Bus → ℕ → ℕ → Traced (Result Error Device)
find_device bus vid pid =
    keep_first (bus.devices (is_wanted vid pid)) (bus.enumerate_error (is_wanted vid pid))

-- What one turn of the loop does with what it claimed; `next` is the rest of the loop.
abbrev pub attempt :
    ℤ
    → ℕ
    → ℕ
    → Option Error
    → (Option Error → Traced (Result Error ℕ))
    → Result Error Interface
    → Traced (Result Error ℕ)
attempt forced timeout n last next (err e) = next (some e)
attempt forced timeout n last next (ok intf) =
    if not (is_negative forced) || probe_at intf timeout
    then record { result = ok n; trace = opens read_context ∷ [] }
    else behind (closes (interface 0 n) ∷ []) (next last)

unfoldable pub try_interfaces : ℤ → ℕ → UsbConfig → List ℕ → Option Error → Traced (Result Error ℕ)
try_interfaces forced timeout cfg [] last = plain (err (or_else last no_at_capable))
try_interfaces forced timeout cfg (n ∷ nums) last = behind ((claim_interface 0 cfg n).trace) (
    attempt forced timeout n last (λ e. try_interfaces forced timeout cfg nums e)
      ((claim_interface 0 cfg n).result))

abbrev pub configured : Options → ℕ → Device → Result Text UsbConfig → Traced (Result Error ℕ)
configured opts timeout dev (err e) = plain (err (config_failed e))
configured opts timeout dev (ok cfg) = behind (opens (configuration 0) ∷ []) (
    deferring (configuration 0)
      (try_interfaces opts.forced timeout cfg (candidate_interfaces dev.desc opts.forced) none))

-- The number of the interface that is open, and the name of the link.
pub record Link : Type 0 where
  pub number : ℕ
  pub name : Text

unfoldable pub link_name : (ℕ → Text) → Device → ℕ → Text
link_name show_id dev n = trim_space (
    codes "usb "
    ++ show_id dev.desc.vendor
    ++ codes ":"
    ++ show_id dev.desc.product
    ++ codes " if"
    ++ show_ℕ n
    ++ codes " ("
    ++ trim_space dev.manufacturer
    ++ codes " "
    ++ trim_space dev.product
    ++ codes ")")

abbrev pub named : (ℕ → Text) → Device → Result Error ℕ → Result Error Link
named show_id dev (err e) = err e
named show_id dev (ok n) = ok (record { number = n; name = link_name show_id dev n })

abbrev pub as_link : (ℕ → Text) → Device → Traced (Result Error ℕ) → Traced (Result Error Link)
as_link show_id dev t = record { result = named show_id dev t.result; trace = t.trace }

abbrev pub with_device : Options → ℕ → Bus → Result Error Device → Traced (Result Error Link)
with_device opts timeout bus (err e) = plain (err e)
with_device opts timeout bus (ok dev) =
    deferring (device 0) (as_link bus.show_id dev (configured opts timeout dev dev.config))

unfoldable pub open_link : Options → Bus → Traced (Result Error Link)
open_link opts bus =
    let found = find_device bus opts.vendor opts.product in
    behind (opens context ∷ []) (
      deferring context (
        behind found.trace
          (with_device opts (or_default_timeout opts.probe_timeout) bus found.result)))

-- `Close`, on whether it ran before: `closeOnce` lets it run once.
unfoldable pub close : Bool → Link → List Event
close true l = []
close false l =
    closes read_context
    ∷ closes (interface 0 l.number)
    ∷ closes (configuration 0)
    ∷ closes (device 0)
    ∷ closes context
    ∷ []
