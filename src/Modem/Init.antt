-- ===== src/Modem/Init.antt =====
-- `Init`, `initModem`, `waitForCPINReady`, `hasLine` and `RunATCommand` of internal/modem/modem.go. The
-- modem is a parameter: its answer to a command may depend on all the commands before it. The clock
-- is a parameter too: its reading behind each attempt. Times are in nanoseconds.
pub mod Commands
pub mod Waiting
use at_message_forward.Prelude.{
  ℕ, zero, suc, ◌+◌, ◌*◌, ◌^◌, ◌≤◌, Bool, true, false, ◌||◌, List, [], ◌∷◌, ◌++◌, Option, none,
  some, leb, ltb, if◌then◌else◌, Result, ok, err, ℤ, pos, negsuc, leb_ℤ,
}
use at_message_forward.Text.{Text, codes, trim_space, equal_fold}

-- `*modemat.AT.Command`: the commands sent before, and the one that is sent.
abbrev pub Commander : Type 0
Commander = List Text → Text → Result Text (List Text)

pub data InitError : Type 0 where
  command_failed : Text → Text → InitError
  not_ready : List Text → InitError
  timed_out : InitError → InitError

-- The commands sent so far, and a result.
abbrev pub Sent : Type 0 → Type 0
Sent A = List Text × Result InitError A

abbrev pub wrap_command : Text → Result Text (List Text) → Result InitError (List Text)
wrap_command cmd (ok lines) = ok lines
wrap_command cmd (err e) = err (command_failed cmd e)

-- `RunATCommand`.
unfoldable pub run_at_command : Commander → List Text → Text → Sent (List Text)
run_at_command modem sent cmd = (sent ++ cmd ∷ [], wrap_command cmd (modem sent cmd))

abbrev pub then_command : Sent (List Text) → (List Text → Sent (Unit {0})) → Sent (Unit {0})
then_command (sent, ok lines) f = f sent
then_command (sent, err e) f = (sent, err e)

-- The loop over a list of commands.
unfoldable pub run_commands : Commander → List Text → List Text → Sent (Unit {0})
run_commands modem sent [] = (sent, ok tt)
run_commands modem sent (cmd ∷ cmds) =
    then_command (run_at_command modem sent cmd) (λ sent'. run_commands modem sent' cmds)

unfoldable pub has_line : List Text → Text → Bool
has_line [] want = false
has_line (line ∷ lines) want = equal_fold (trim_space line) want || has_line lines want

abbrev pub cpin_command : Text
cpin_command = codes "+CPIN?"

abbrev pub cpin_ready_line : Text
cpin_ready_line = codes "+CPIN: READY"

abbrev pub cpin_ready_timeout : ℕ
cpin_ready_timeout = 120 * 10 ^ 9

abbrev pub cpin_retry_delay : ℕ
cpin_retry_delay = 2 * 10 ^ 9

-- What the loop does with the answer to one attempt: return, or sleep and try again.
pub data Verdict : Type 0 where
  return_with : Result InitError (Unit {0}) → Verdict
  retry : Verdict

-- `timeout <= 0 || time.Now().Add(retryDelay).After(deadline)`.
abbrev pub is_late : ℕ → ℕ → ℕ → ℕ → Bool
is_late timeout delay deadline now = leb timeout 0 || ltb deadline (now + delay)

abbrev pub judge : ℕ → ℕ → ℕ → ℕ → Result InitError (List Text) → Verdict
judge timeout delay deadline now (ok lines) =
    return_with (if has_line lines cpin_ready_line then ok tt else err (not_ready lines))
judge timeout delay deadline now (err e) =
    if is_late timeout delay deadline now then return_with (err (timed_out e)) else retry

abbrev pub continue_unless :
    List Text → Verdict → Option (Sent (Unit {0})) → Option (Sent (Unit {0}))
continue_unless sent (return_with r) rest = some (sent, r)
continue_unless sent retry rest = rest

-- The loop of `waitForCPINReady` on fuel; `clock k` is the reading behind attempt `k`.
unfoldable pub cpin_loop :
    ℕ → Commander → (ℕ → ℕ) → ℕ → ℕ → ℕ → ℕ → List Text → Option (Sent (Unit {0}))
cpin_loop zero modem clock timeout delay deadline k sent = none
cpin_loop (suc fuel) modem clock timeout delay deadline k sent =
    let (sent', answer) = run_at_command modem sent cpin_command in
    let rest = cpin_loop fuel modem clock timeout delay deadline (k + 1) sent' in
    continue_unless sent' (judge timeout delay deadline (clock k) answer) rest

-- `start` is the reading before the loop.
unfoldable pub wait_for_cpin_ready :
    ℕ → Commander → (ℕ → ℕ) → ℕ → ℕ → ℕ → List Text → Option (Sent (Unit {0}))
wait_for_cpin_ready fuel modem clock start timeout delay sent =
    cpin_loop fuel modem clock timeout delay (start + timeout) 0 sent

abbrev pub first_commands : List Text
first_commands = [] ∷ codes "E0" ∷ []

abbrev pub last_commands : List Text
last_commands = codes "+CSQ" ∷ codes "+CMGF=1" ∷ codes "+CNMI=2,2,0,0,0" ∷ []

abbrev pub then_last : Commander → Option (Sent (Unit {0})) → Option (Sent (Unit {0}))
then_last modem none = none
then_last modem (some (sent, ok u)) = some (run_commands modem sent last_commands)
then_last modem (some (sent, err e)) = some (sent, err e)

abbrev pub then_wait :
    (List Text → Option (Sent (Unit {0}))) → Sent (Unit {0}) → Option (Sent (Unit {0}))
then_wait wait (sent, ok u) = wait sent
then_wait wait (sent, err e) = some (sent, err e)

-- `initModem`.
unfoldable pub init_modem : ℕ → Commander → (ℕ → ℕ) → ℕ → ℕ → ℕ → Option (Sent (Unit {0}))
init_modem fuel modem clock start timeout delay = then_last modem (
    then_wait (wait_for_cpin_ready fuel modem clock start timeout delay)
      (run_commands modem [] first_commands))

abbrev pub or_timeout : ℤ → ℕ
or_timeout (pos (suc n)) = suc n
or_timeout other = cpin_ready_timeout

-- `Init`.
unfoldable pub init : ℕ → Commander → (ℕ → ℕ) → ℕ → ℤ → Option (Sent (Unit {0}))
init fuel modem clock start sim_ready_timeout =
    init_modem fuel modem clock start (or_timeout sim_ready_timeout) cpin_retry_delay
