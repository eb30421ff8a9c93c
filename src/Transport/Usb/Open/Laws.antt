-- ===== src/Transport/Usb/Open/Laws.antt =====
-- The handles that the functions of internal/transport/usb/usb_cgo.go leave open.
use at_message_forward.Prelude.{
  ℕ, ◌+◌, ◌<◌, true, false, not, ◌||◌, Option, none, some, List, [], ◌∷◌, ◌++◌, Result, ok, err, ℤ,
  ◌≡◌, refl, sym, ap, ◌∙◌, All, All-append, Bool-cases, inl, inr, append_assoc, arith, ==_iff,
}
use mathlib.Core.Option
use at_message_forward.Text.{Text, or_else}
use at_message_forward.Transport.Usb.{
  Options, Error, or_default_timeout, claim_failed, config_failed, no_at_capable,
}
use at_message_forward.Transport.Usb.Descriptor.{candidate_interfaces, is_wanted}
use at_message_forward.Transport.Usb.Handles.{
  Handle, context, read_context, device, configuration, interface, Event, closes, Traced, plain,
  behind, same_handle, remove, run,
}
use at_message_forward.Transport.Usb.Handles.Laws.{
  run_then, run_close, run_close_then, left_open, IsTidy, with_handle, run-deferring,
  deferring-IsTidy, plain-IsTidy, plain_error-IsTidy,
}
use at_message_forward.Transport.Usb.Open.{
  Interface, UsbConfig, Device, Bus, is_negative, endpoints_of, claimed, claim_interface, probe_at,
  open_all, close_all, nothing_found, keep_first, find_device, attempt, try_interfaces, configured,
  Link, named, as_link, with_device, open_link, close,
}

claimed-IsTidy :
    (i n : ℕ) (r : Result Text Interface) → IsTidy (λ intf. interface i n ∷ []) (claimed i n r)
claimed-IsTidy i n (err e) =
    plain_error-IsTidy {A = Interface} (λ intf. interface i n ∷ []) (claim_failed n e)
claimed-IsTidy i n (ok intf) =
    deferring-IsTidy (interface i n) (λ a. []) (plain (endpoints_of n intf))
      (plain-IsTidy (endpoints_of n intf))

pub claim_interface-IsTidy :
    (i : ℕ) (cfg : UsbConfig) (n : ℕ)
    → IsTidy (λ intf. interface i n ∷ []) (claim_interface i cfg n)
unfolding claim_interface
claim_interface-IsTidy i cfg n = claimed-IsTidy i n (cfg.claim n)

-- What the loop over the interfaces leaves open.
abbrev kept_interface : ℕ → List Handle
kept_interface n = read_context ∷ interface 0 n ∷ []

attempt_tidy :
    (forced : ℤ) (timeout n : ℕ) (last : Option Error)
    (next : Option Error → Traced (Result Error ℕ)) (r : Result Error Interface)
    → ((e : Option Error) → IsTidy kept_interface (next e))
    → (held : List Handle)
    → run
        (attempt forced timeout n last next r).trace
        (left_open (λ intf. interface 0 n ∷ []) r held)
      ≡ some (left_open kept_interface (attempt forced timeout n last next r).result held)
attempt_tidy forced timeout n last next (err e) tidy held = tidy (some e) held
attempt_tidy forced timeout n last next (ok intf) tidy held =
    elim (Bool-cases (not (is_negative forced) || probe_at intf timeout)) [
      | inl accepts ↦ rw accepts (unfold run in refl)
      | inr refuses ↦
          rw refuses (run_close_then (interface 0 n) ((next last).trace) held (tidy last held))
    ]

try_interfaces-IsTidy :
    (forced : ℤ) (timeout : ℕ) (cfg : UsbConfig) (nums : List ℕ) (last : Option Error)
    → IsTidy kept_interface (try_interfaces forced timeout cfg nums last)
unfolding try_interfaces
try_interfaces-IsTidy forced timeout cfg [] last =
    plain_error-IsTidy kept_interface (or_else last no_at_capable)
try_interfaces-IsTidy forced timeout cfg (n ∷ nums) last = λ held.
    let next : Option Error → Traced (Result Error ℕ) =
      (λ e. try_interfaces forced timeout cfg nums e) in
    let claim : Traced (Result Error Interface) = claim_interface 0 cfg n in
    run_then claim.trace ((attempt forced timeout n last next claim.result).trace) held
      (claim_interface-IsTidy 0 cfg n held)
      (attempt_tidy forced timeout n last next claim.result
        (try_interfaces-IsTidy forced timeout cfg nums) held)

configured-IsTidy :
    (opts : Options) (timeout : ℕ) (dev : Device) (r : Result Text UsbConfig)
    → IsTidy (with_handle (configuration 0) kept_interface) (configured opts timeout dev r)
configured-IsTidy opts timeout dev (err e) =
    plain_error-IsTidy (with_handle (configuration 0) kept_interface) (config_failed e)
configured-IsTidy opts timeout dev (ok cfg) =
    let nums : List ℕ = candidate_interfaces dev.desc opts.forced in
    deferring-IsTidy (configuration 0) kept_interface
      (try_interfaces opts.forced timeout cfg nums none)
      (try_interfaces-IsTidy opts.forced timeout cfg nums none)

-- What a link holds, the newest first.
abbrev pub handles_of : Link → List Handle
handles_of l = read_context ∷ interface 0 l.number ∷ configuration 0 ∷ device 0 ∷ context ∷ []

abbrev kept_configured : Link → List Handle
kept_configured l = read_context ∷ interface 0 l.number ∷ configuration 0 ∷ []

named_open :
    (show_id : ℕ → Text) (dev : Device) (r : Result Error ℕ) (held : List Handle)
    → left_open (with_handle (configuration 0) kept_interface) r held
      ≡ left_open kept_configured (named show_id dev r) held
named_open show_id dev (ok n) held = refl
named_open show_id dev (err e) held = refl

as_link-IsTidy :
    (show_id : ℕ → Text) (dev : Device) (t : Traced (Result Error ℕ))
    → IsTidy (with_handle (configuration 0) kept_interface) t
    → IsTidy kept_configured (as_link show_id dev t)
as_link-IsTidy show_id dev t tidy held = tidy held ∙ ap some (named_open show_id dev t.result held)

with_device_tidy :
    (opts : Options) (timeout : ℕ) (bus : Bus) (r : Result Error Device) (held : List Handle)
    → run (with_device opts timeout bus r).trace (left_open (λ d. device 0 ∷ []) r held)
      ≡ some (
          left_open
            (with_handle (device 0) kept_configured)
            (with_device opts timeout bus r).result
            held)
with_device_tidy opts timeout bus (err e) held = unfold run in refl
with_device_tidy opts timeout bus (ok dev) held =
    run-deferring (device 0) kept_configured
      (as_link bus.show_id dev (configured opts timeout dev dev.config))
      (as_link-IsTidy bus.show_id dev (configured opts timeout dev dev.config)
        (configured-IsTidy opts timeout dev dev.config))
      held

-- The devices from `i` on that are open, the newest first.
abbrev pub open_devices : {A : Type 0} → ℕ → List A → List Handle
open_devices i [] = []
open_devices i (d ∷ devs) = open_devices (i + 1) devs ++ device i ∷ []

pub run-open_all :
    {A : Type 0} (i : ℕ) (devs : List A) (held : List Handle)
    → run (open_all i devs) held ≡ some (open_devices i devs ++ held)
unfolding run open_all
run-open_all i [] held = refl
run-open_all i (d ∷ devs) held =
    run-open_all (i + 1) devs (device i ∷ held)
    ∙ ap some (sym (append_assoc (open_devices (i + 1) devs) (device i ∷ []) held))

abbrev IsOther : ℕ → Handle → Type 0
IsOther i h = same_handle (device i) h ≡ false

open_devices-IsOther :
    {A : Type 0} (i j : ℕ) (devs : List A) → i < j → All (IsOther i) (open_devices j devs)
unfolding same_handle
open_devices-IsOther i j [] h = tt
open_devices-IsOther i j (d ∷ devs) h =
    All-append (IsOther i) (open_devices (j + 1) devs) (device j ∷ [])
      (open_devices-IsOther i (j + 1) devs (omega (arith, h))) (ground (arith, h), tt)

remove_behind :
    (i : ℕ) (newer held : List Handle)
    → All (IsOther i) newer
    → remove (device i) (newer ++ device i ∷ held) ≡ some (newer ++ held)
unfolding remove
remove_behind i [] held others = unfold same_handle in rw ((==_iff i i).1 refl) refl
remove_behind i (h ∷ newer) held others =
    rw others.0 (ap (Option.map (◌∷◌ h)) (remove_behind i newer held others.1))

pub run-close_all :
    {A : Type 0} (i : ℕ) (devs : List A) (held : List Handle)
    → run (close_all i devs) (open_devices i devs ++ held) ≡ some held
unfolding run close_all
run-close_all i [] held = refl
run-close_all i (d ∷ devs) held =
    rw (append_assoc (open_devices (i + 1) devs) (device i ∷ []) held) (
      rw
        (remove_behind i (open_devices (i + 1) devs) held
          (open_devices-IsOther i (i + 1) devs (omega arith)))
        (run-close_all (i + 1) devs held))

keep_first-IsTidy :
    (devs : List Device) (error : Option Text) → IsTidy (λ d. device 0 ∷ []) (keep_first devs error)
keep_first-IsTidy [] error =
    plain_error-IsTidy {A = Device} (λ d. device 0 ∷ []) (nothing_found error)
keep_first-IsTidy (d ∷ devs) error = λ held.
    run_then (open_all 0 (d ∷ devs)) (close_all 1 devs) held (run-open_all 0 (d ∷ devs) held) (
      rw (append_assoc (open_devices 1 devs) (device 0 ∷ []) held)
        (run-close_all 1 devs (device 0 ∷ held)))

find_device-IsTidy :
    (bus : Bus) (vid pid : ℕ) → IsTidy (λ d. device 0 ∷ []) (find_device bus vid pid)
unfolding find_device
find_device-IsTidy bus vid pid =
    keep_first-IsTidy (bus.devices (is_wanted vid pid)) (bus.enumerate_error (is_wanted vid pid))

-- What is open behind `openLink`: the link's handles, or nothing if it failed.
abbrev pub IsSettled : Traced (Result Error Link) → Type 0
IsSettled t = run t.trace [] ≡ some (left_open handles_of t.result [])

open_link-IsTidy : (opts : Options) (bus : Bus) → IsTidy handles_of (open_link opts bus)
unfolding open_link
open_link-IsTidy opts bus =
    let found : Traced (Result Error Device) = find_device bus opts.vendor opts.product in
    let timeout : ℕ = or_default_timeout opts.probe_timeout in
    let linked : Traced (Result Error Link) = with_device opts timeout bus found.result in
    deferring-IsTidy context (with_handle (device 0) kept_configured) (behind found.trace linked)
      (λ held.
        run_then found.trace linked.trace held
          (find_device-IsTidy bus opts.vendor opts.product held)
          (with_device_tidy opts timeout bus found.result held))

-- Every handle of a link is open before `Close`, none behind it, also if it is called again.
run-close : (l : Link) → run (close false l ++ close true l) (handles_of l) ≡ some []
unfolding close
run-close l =
    let files : List Event = closes context ∷ [] in
    let devices : List Event = closes (device 0) ∷ files in
    let configurations : List Event = closes (configuration 0) ∷ devices in
    let interfaces : List Event = closes (interface 0 l.number) ∷ configurations in
    run_close_then read_context interfaces
      (interface 0 l.number ∷ configuration 0 ∷ device 0 ∷ context ∷ [])
      (run_close_then (interface 0 l.number) configurations
        (configuration 0 ∷ device 0 ∷ context ∷ [])
        (run_close_then (configuration 0) devices (device 0 ∷ context ∷ [])
          (run_close_then (device 0) files (context ∷ []) (run_close context []))))

-- `openLink` closes each handle at most once, and only what it opened. When it fails nothing is left
-- open; when it returns a link, exactly that link's context, device, configuration, interface and read
-- context are open, and `Close` closes them all, a second `Close` nothing.
pub open_link-IsSettled :
    (opts : Options) (bus : Bus)
    → IsSettled (open_link opts bus)
      × ((l : Link) → run (close false l ++ close true l) (handles_of l) ≡ some [])
open_link-IsSettled opts bus = (open_link-IsTidy opts bus [], run-close)
