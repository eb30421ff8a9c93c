-- ===== src/Transport/Usb/Reader.antt =====
-- `Read` of the link of internal/transport/usb/usb_cgo.go: a buffer that libusb reads into, and the part of it
-- that has not been handed on. `pending` is a slice of `stage`, so that a read into `stage` changes it.
pub mod Laws
use at_message_forward.Prelude.{
  ℕ, ◌+◌, ◌-◌, Bool, true, false, Option, none, some, List, [], ◌∷◌, ◌++◌, ltb, ◌==◌, length, take,
  drop, if◌then◌else◌,
}
use at_message_forward.Text.{Text, is_empty}

-- `stage[:size]` is what the read context last filled; `pending` is `stage[from:size]`.
pub record Reader : Type 0 where
  pub stage : List ℕ
  pub from : ℕ
  pub size : ℕ

abbrev pub pending : Reader → List ℕ
pending r = drop r.from (take r.size r.stage)

-- What a turn of the loop meets: the read context is cancelled, or a call of `ReadContext` with what it
-- received, its error, and whether the context is cancelled behind it.
pub data Turn : Type 0 where
  cancelled : Turn
  transfer : List ℕ → Option Text → Bool → Turn

pub data Outcome : Type 0 where
  delivered : List ℕ → Outcome
  eof : Outcome
  failed : Text → Outcome
  -- No turn is left: the call does not return.
  blocked : Outcome

pub record Step : Type 0 where
  pub outcome : Outcome
  pub reader : Reader
  pub left : List Turn

-- What `ReadContext` writes at the front of the buffer.
abbrev pub fill : List ℕ → Reader → Reader
fill received r = record {
  stage = received ++ drop (length received) r.stage;
  from = 0;
  size = length received;
}

-- `copy`, and the slice behind what was copied.
abbrev pub hand_on : ℕ → Reader → List Turn → Step
hand_on size r turns = record {
  outcome = delivered (take size (pending r));
  reader = record r { from = r.from + length (take size (pending r)) };
  left = turns;
}

abbrev pub stop : Outcome → Reader → List Turn → Step
stop outcome r turns = record { outcome = outcome; reader = r; left = turns }

-- What the loop does when nothing was received; `next` is the rest of the loop.
abbrev pub nothing_received : Option Text → Bool → Reader → List Turn → Step → Step
nothing_received none gone r turns next = next
nothing_received (some e) gone r turns next =
    if gone then stop eof r turns else stop (failed e) r turns

-- The loop, entered only while nothing is pending.
unfoldable pub read_loop : ℕ → Reader → List Turn → Step
read_loop size r [] = stop blocked r []
read_loop size r (cancelled ∷ turns) = stop eof r turns
read_loop size r (transfer [] error gone ∷ turns) =
    nothing_received error gone r turns (read_loop size r turns)
read_loop size r (transfer (b ∷ received) error gone ∷ turns) =
    hand_on size (fill (b ∷ received) r) turns

-- `Read` into a buffer of `size` bytes.
unfoldable pub read : ℕ → Reader → List Turn → Step
read size r turns = if is_empty (pending r) then read_loop size r turns else hand_on size r turns

-- One `Read` after another.
abbrev pub bytes_of : Outcome → List ℕ
bytes_of (delivered bytes) = bytes
bytes_of eof = []
bytes_of (failed e) = []
bytes_of blocked = []
