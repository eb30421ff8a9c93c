-- ===== src/Transport/Serial/Probe.antt =====
-- `ProbeAT`, `probeOpenedATPort` and `responseHasATLine` of internal/transport/serial/serial.go. The serial
-- library's port and the clock are parameters: what each call returns, and what the clock reads. The two
-- resets of the buffers, whose errors are only logged, and the closing of the port are left out.
pub mod Laws
use at_message_forward.Prelude.{
  ℕ, zero, suc, ◌+◌, ◌*◌, ◌^◌, Bool, true, false, not, ◌&&◌, ◌||◌, Option, none, some, List, [],
  ◌∷◌, ◌++◌, ltb, leb, ◌==◌, if◌then◌else◌, length, Result, ok, err, ℤ, pos, negsuc,
}
use at_message_forward.Text.{Text, codes, trim_space, equal_fold, is_empty}

pub data ProbeError : Type 0 where
  open_failed set_timeout_failed write_failed read_failed : Text → ProbeError
  short_write : ℕ → ProbeError
  returned_error probe_timeout : ProbeError
  without_ok : Text → ProbeError

pub data Outcome : Type 0 where
  answered : Outcome
  failed : ProbeError → Outcome

-- What one round of the loop meets: the clock at the loop's test and behind it, the error of
-- `SetReadTimeout`, the bytes read, and the error of `Read`.
pub record Round : Type 0 where
  pub tested_at : ℕ
  pub now : ℕ
  pub timeout_error : Option Text
  pub received : Text
  pub read_error : Option Text

-- What an opened port does: the error of the first `SetReadTimeout`, what `Write` returns, the clock
-- behind it, and the rounds.
pub record Port : Type 0 where
  pub timeout_error : Option Text
  pub written : Result Text ℕ
  pub start : ℕ
  pub rounds : ℕ → Round

abbrev pub is_break : ℕ → Bool
is_break r = r == 0x0D || r == 0x0A

abbrev pub flush : Text → List Text → List Text
flush [] lines = lines
flush (c ∷ line) lines = (c ∷ line) ∷ lines

-- `strings.FieldsFunc`: the runs of characters between the breaks; `line` is the run so far.
unfoldable pub fields_from : Text → Text → List Text
fields_from line [] = flush line []
fields_from line (r ∷ response) =
    if is_break r
    then flush line (fields_from [] response)
    else fields_from (line ++ r ∷ []) response

unfoldable pub has_line : List Text → Text → Bool
has_line [] target = false
has_line (line ∷ lines) target = equal_fold (trim_space line) target || has_line lines target

unfoldable pub response_has_at_line : Text → Text → Bool
response_has_at_line response target = has_line (fields_from [] response) target

abbrev pub default_probe_timeout : ℕ
default_probe_timeout = 1500 * 10 ^ 6

abbrev pub or_default_timeout : ℤ → ℕ
or_default_timeout (pos zero) = default_probe_timeout
or_default_timeout (pos (suc n)) = suc n
or_default_timeout (negsuc n) = default_probe_timeout

-- Behind the loop.
abbrev pub give_up : Text → Outcome
give_up response =
    if is_empty response then failed probe_timeout else failed (without_ok (trim_space response))

-- What a round decides: to return, or to go on with what has been heard.
pub data Verdict : Type 0 where
  return_with : Outcome → Verdict
  go_on : Text → Verdict

abbrev pub unless_error : Option Text → Text → Verdict
unless_error none response = go_on response
unless_error (some e) response = return_with (failed (read_failed e))

abbrev pub hear : Round → Text → Verdict
hear r response =
    if not (is_empty r.received) && response_has_at_line (response ++ r.received) (codes "OK")
    then return_with answered
    else if not (is_empty r.received)
        && response_has_at_line (response ++ r.received) (codes "ERROR")
    then return_with (failed returned_error)
    else unless_error r.read_error (response ++ r.received)

abbrev pub read_round : Option Text → Round → Text → Verdict
read_round (some e) r response = return_with (failed (set_timeout_failed e))
read_round none r response = hear r response

unfoldable pub judge : ℕ → Round → Text → Verdict
judge deadline r response =
    if ltb r.tested_at deadline && not (leb deadline r.now)
    then read_round r.timeout_error r response
    else return_with (give_up response)

abbrev pub continue_with : Verdict → (Text → Option Outcome) → Option Outcome
continue_with (return_with outcome) next = some outcome
continue_with (go_on response) next = next response

-- The loop on fuel, from round `k` on.
unfoldable pub probe_loop : ℕ → (ℕ → Round) → ℕ → ℕ → Text → Option Outcome
probe_loop zero rounds deadline k response = none
probe_loop (suc fuel) rounds deadline k response =
    continue_with (judge deadline (rounds k) response)
      (λ heard. probe_loop fuel rounds deadline (k + 1) heard)

abbrev pub probe_command : Text
probe_command = codes "AT\r"

abbrev pub after_write : ℕ → Port → ℕ → Result Text ℕ → Option Outcome
after_write fuel port timeout (err e) = some (failed (write_failed e))
after_write fuel port timeout (ok n) =
    if n == length probe_command
    then probe_loop fuel port.rounds (port.start + timeout) 0 []
    else some (failed (short_write n))

abbrev pub after_timeout : ℕ → Port → ℕ → Option Text → Option Outcome
after_timeout fuel port timeout (some e) = some (failed (set_timeout_failed e))
after_timeout fuel port timeout none = after_write fuel port timeout port.written

unfoldable pub probe_opened_at_port : ℕ → Port → ℤ → Option Outcome
probe_opened_at_port fuel port timeout =
    after_timeout fuel port (or_default_timeout timeout) port.timeout_error

-- `opened` is what `Open` returned.
unfoldable pub probe_at : ℕ → Result Text Port → ℤ → Option Outcome
probe_at fuel (err e) timeout = some (failed (open_failed e))
probe_at fuel (ok port) timeout = probe_opened_at_port fuel port timeout
