-- ===== src/Transport/Serial/Detect.antt =====
-- `ProbeCandidates`, `SelectAutoDetectCandidate`, `AutoDetectWithBaud`, `Open` and `Transport.Open` of
-- internal/transport/serial/serial.go. What the ports are and what a probe of a port returns are
-- parameters, as they are variables of the source; so is the serial library's `Open`.
pub mod Sorted
pub mod Laws
use at_message_forward.Prelude.{
  Bool, true, false, not, ◌&&◌, Option, none, some, List, [], ◌∷◌, map, if◌then◌else◌, Result, ok,
  err, ℤ, pos, leb_ℤ,
}
use at_message_forward.Text.{Text, is_empty}
use at_message_forward.Sorting.{sort}
use at_message_forward.Transport.Serial.{Candidate}
use at_message_forward.Transport.Serial.Probe.{Outcome}

-- What `probeSerialPort` returns for a port: whether it answered, and the text of its error.
pub record Probed : Type 0 where
  pub answers : Bool
  pub error : Option Text

abbrev pub error_text : Option Text → Text
error_text none = []
error_text (some e) = e

unfoldable pub with_probe : (Text → Probed) → Candidate → Candidate
with_probe probe c = record c {
  probe_attempted = true;
  probe_ok = (probe c.port).answers;
  probe_error = error_text (probe c.port).error;
}

-- The test that `sort.SliceStable` is given.
unfoldable pub answers_before : Candidate → Candidate → Bool
answers_before c d = c.probe_ok && not d.probe_ok

unfoldable pub probe_candidates : (Text → Probed) → List Candidate → List Candidate
probe_candidates probe candidates = sort answers_before (map (with_probe probe) candidates)

unfoldable pub first_ok : List Candidate → Option Candidate
first_ok [] = none
first_ok (c ∷ candidates) = if c.probe_ok then some c else first_ok candidates

abbrev pub or_first : Option Candidate → List Candidate → Option Candidate
or_first (some c) candidates = some c
or_first none [] = none
or_first none (c ∷ candidates) = some c

unfoldable pub select_auto_detect_candidate : List Candidate → Option Candidate
select_auto_detect_candidate candidates = or_first (first_ok candidates) candidates

pub data OpenError : Type 0 where
  no_matching_ports : OpenError
  invalid_baud : ℤ → OpenError
  open_failed : Text → OpenError

abbrev pub selected_port : Option Candidate → Result OpenError Text
selected_port none = err no_matching_ports
selected_port (some c) = ok c.port

-- The test for no candidates is first in the source; no probe is made then.
unfoldable pub auto_detect_with_baud : (Text → Probed) → List Candidate → Result OpenError Text
auto_detect_with_baud probe candidates =
    if is_empty candidates
    then err no_matching_ports
    else selected_port (select_auto_detect_candidate (probe_candidates probe candidates))

abbrev pub opened : {Link : Type 0} → Result Text Link → Result OpenError Link
opened (ok link) = ok link
opened (err e) = err (open_failed e)

-- `Open` with the library's open.
unfoldable pub open_serial :
    {Link : Type 0} → (Text → ℤ → Result Text Link) → Text → ℤ → Result OpenError Link
open_serial open_port port baud =
    if leb_ℤ baud (pos 0) then err (invalid_baud baud) else opened (open_port port baud)

pub record SerialTransport : Type 0 where
  pub port : Text
  pub baud : ℤ

abbrev pub resolve : Text → Result OpenError Text → Result OpenError Text
resolve port detected = if is_empty port then detected else ok port

abbrev pub with_name :
    {Link : Type 0} → Text → Result OpenError Link → Result OpenError (Link × Text)
with_name port (ok link) = ok (link, port)
with_name port (err e) = err e

abbrev pub open_named :
    {Link : Type 0}
    → (Text → ℤ → Result Text Link)
    → ℤ
    → Result OpenError Text
    → Result OpenError (Link × Text)
open_named open_port baud (err e) = err e
open_named open_port baud (ok port) = with_name port (open_serial open_port port baud)

-- `Transport.Open`: the link, and the name of the port. `probe` is `ProbeAT` with the baud rate.
unfoldable pub open_transport :
    {Link : Type 0}
    → (ℤ → Text → Probed)
    → List Candidate
    → (Text → ℤ → Result Text Link)
    → SerialTransport
    → Result OpenError (Link × Text)
open_transport probe candidates open_port t =
    open_named open_port t.baud (resolve t.port (auto_detect_with_baud (probe t.baud) candidates))
