-- ===== src/Transport/Usb/Handles.antt =====
-- The handles of libusb that internal/transport/usb/usb_cgo.go opens and must close, as a trace of the calls
-- that open and close one. A device is named by its place in the list that `OpenDevices` returned; its
-- configuration and its interfaces carry that place.
pub mod Laws
use at_message_forward.Prelude.{
  ℕ, Bool, true, false, ◌&&◌, Option, none, some, List, [], ◌∷◌, ◌++◌, ◌==◌, if◌then◌else◌, Result,
  ok, err, and_then,
}
use at_message_forward.Transport.Usb.{Error}
use mathlib.Core.Option

pub data Handle : Type 0 where
  context read_context : Handle
  device configuration : ℕ → Handle
  interface : ℕ → ℕ → Handle

pub data Event : Type 0 where
  opens closes : Handle → Event

-- What a call returns, and the handles that it opened and closed on the way.
pub record Traced (A : Type 0) : Type 0 where
  pub result : A
  pub trace : List Event

abbrev pub plain : {A : Type 0} → A → Traced A
plain a = record { result = a; trace = [] }

-- The events in front of a call.
abbrev pub behind : {A : Type 0} → List Event → Traced A → Traced A
behind events t = record { result = t.result; trace = events ++ t.trace }

abbrev pub unless_ok : {A : Type 0} → Handle → Result Error A → List Event
unless_ok h (ok a) = []
unless_ok h (err e) = closes h ∷ []

-- A deferred call that closes the handle unless all went well.
abbrev pub deferring : {A : Type 0} → Handle → Traced (Result Error A) → Traced (Result Error A)
deferring h t = record { result = t.result; trace = t.trace ++ unless_ok h t.result }

unfoldable pub same_handle : Handle → Handle → Bool
same_handle context context = true
same_handle read_context read_context = true
same_handle (device i) (device j) = i == j
same_handle (configuration i) (configuration j) = i == j
same_handle (interface i n) (interface j m) = i == j && n == m
same_handle _ _ = false

-- The handles left when one is closed; none if it was not open.
unfoldable pub remove : Handle → List Handle → Option (List Handle)
remove h [] = none
remove h (k ∷ held) =
    let rest = remove h held in if same_handle h k then some held else Option.map (◌∷◌ k) rest

abbrev pub step : Event → List Handle → Option (List Handle)
step (opens h) held = some (h ∷ held)
step (closes h) held = remove h held

-- The handles that are open behind a trace, the newest first; none if it closes one that is not open.
unfoldable pub run : List Event → List Handle → Option (List Handle)
run [] held = some held
run (e ∷ events) held = and_then (step e held) (λ left. run events left)
