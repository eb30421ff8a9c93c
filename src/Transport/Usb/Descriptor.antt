-- ===== src/Transport/Usb/Descriptor.antt =====
-- `candidateInterfaces`, `hasVendorBulkInterface` and the test of `findDevice` of
-- internal/transport/usb/usb_cgo.go, on the part of gousb's descriptors that they read. The map of
-- configurations is a list here, in the order in which the loop meets them.
pub mod Laws
use at_message_forward.Prelude.{
  ℕ, Bool, true, false, not, ◌&&◌, ◌||◌, List, [], ◌∷◌, ◌++◌, ltb, ◌==◌, if◌then◌else◌, ℤ, pos,
  negsuc,
}
use at_message_forward.Text.{is_empty}
use at_message_forward.Sorting.{sort}

pub data TransferType : Type 0 where
  control isochronous bulk interrupt : TransferType

pub data Direction : Type 0 where
  direction_in direction_out : Direction

pub record Endpoint : Type 0 where
  pub number : ℕ
  pub transfer_type : TransferType
  pub direction : Direction

pub record Setting : Type 0 where
  pub class : ℕ
  pub endpoints : List Endpoint

pub record InterfaceDesc : Type 0 where
  pub number : ℕ
  pub alt_settings : List Setting

pub record ConfigDesc : Type 0 where
  pub interfaces : List InterfaceDesc

pub record DeviceDesc : Type 0 where
  pub vendor : ℕ
  pub product : ℕ
  pub configs : List ConfigDesc

abbrev pub is_bulk : TransferType → Bool
is_bulk control = false
is_bulk isochronous = false
is_bulk bulk = true
is_bulk interrupt = false

abbrev pub is_in : Direction → Bool
is_in direction_in = true
is_in direction_out = false

-- `hasIn` and `hasOut` behind the loop over the endpoints.
unfoldable pub has_bulk : (Direction → Bool) → List Endpoint → Bool
has_bulk wanted [] = false
has_bulk wanted (ep ∷ eps) =
    (is_bulk ep.transfer_type && wanted ep.direction) || has_bulk wanted eps

unfoldable pub seen : ℕ → List ℕ → Bool
seen number [] = false
seen number (n ∷ nums) = number == n || seen number nums

abbrev pub is_out : Direction → Bool
is_out d = not (is_in d)

unfoldable pub is_vendor_bulk : Setting → Bool
is_vendor_bulk alt =
    alt.class == 0xFF && (has_bulk is_in alt.endpoints && has_bulk is_out alt.endpoints)

-- The three loops. The map `seen` of the source holds the numbers in `nums`.
unfoldable pub scan_settings : ℕ → List ℕ → List Setting → List ℕ
scan_settings number nums [] = nums
scan_settings number nums (alt ∷ alts) =
    scan_settings number
      (if is_vendor_bulk alt && not (seen number nums) then nums ++ number ∷ [] else nums) alts

unfoldable pub scan_interfaces : List ℕ → List InterfaceDesc → List ℕ
scan_interfaces nums [] = nums
scan_interfaces nums (intf ∷ intfs) =
    scan_interfaces (scan_settings intf.number nums intf.alt_settings) intfs

unfoldable pub scan_configs : List ℕ → List ConfigDesc → List ℕ
scan_configs nums [] = nums
scan_configs nums (cfg ∷ cfgs) = scan_configs (scan_interfaces nums cfg.interfaces) cfgs

unfoldable pub candidate_interfaces : DeviceDesc → ℤ → List ℕ
candidate_interfaces desc (pos n) = n ∷ []
candidate_interfaces desc (negsuc k) = sort ltb (scan_configs [] desc.configs)

unfoldable pub has_vendor_bulk_interface : DeviceDesc → Bool
has_vendor_bulk_interface desc = not (is_empty (candidate_interfaces desc (negsuc 0)))

-- The test that `findDevice` gives `OpenDevices`.
unfoldable pub is_wanted : ℕ → ℕ → DeviceDesc → Bool
is_wanted vid pid desc =
    if not (vid == 0) && not (desc.vendor == vid)
    then false
    else if not (pid == 0) && not (desc.product == pid)
    then false
    else has_vendor_bulk_interface desc
