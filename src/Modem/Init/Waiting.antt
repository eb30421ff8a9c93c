-- ===== src/Modem/Init/Waiting.antt =====
-- How long `waitForCPINReady` of internal/modem/modem.go waits.
use at_message_forward.Prelude.{
  ℕ, zero, suc, ◌+◌, ◌*◌, ◌≤◌, ◌<◌, true, List, [], Option, none, some, Result, ok, err, ◌≡◌, ◌≢◌,
  refl, arith, ℤ,
}
use at_message_forward.Text.{Text}
use at_message_forward.Modem.Init.{
  Commander, Sent, InitError, run_at_command, run_commands, cpin_command, judge, is_late, Verdict,
  return_with, retry, continue_unless, cpin_loop, wait_for_cpin_ready, first_commands, then_last,
  then_wait, init_modem, init, or_timeout, cpin_retry_delay,
}

late :
    (timeout delay deadline now : ℕ)
    → deadline < now + delay
    → is_late timeout delay deadline now ≡ true
late timeout delay deadline now h = ground arith

-- A verdict that is not late returns.
judge_late :
    (timeout delay deadline now : ℕ) (r : Result InitError (List Text)) (sent : List Text)
    (rest : Option (Sent (Unit {0})))
    → deadline < now + delay
    → continue_unless sent (judge timeout delay deadline now r) rest ≢ none
judge_late timeout delay deadline now (ok lines) sent rest h = λ e. absurd (cc e)
judge_late timeout delay deadline now (err x) sent rest h =
    rw (late timeout delay deadline now h) (λ e. absurd (cc e))

continue_unless-none :
    (v : Verdict) (sent : List Text) (rest : Option (Sent (Unit {0})))
    → rest ≢ none
    → continue_unless sent v rest ≢ none
continue_unless-none (return_with r) sent rest h = λ e. absurd (cc e)
continue_unless-none retry sent rest h = h

-- With a clock that advances by the delay, `fuel` attempts outlast the deadline.
cpin_loop-total :
    (fuel : ℕ) (modem : Commander) (clock : ℕ → ℕ) (timeout delay deadline k : ℕ) (sent : List Text)
    → ((i : ℕ) → clock i + delay ≤ clock (i + 1))
    → deadline < clock k + suc fuel * delay
    → cpin_loop (suc fuel) modem clock timeout delay deadline k sent ≢ none
unfolding cpin_loop
cpin_loop-total zero modem clock timeout delay deadline k sent advances h =
    judge_late timeout delay deadline (clock k) _ _ _ (omega (arith, h))
cpin_loop-total (suc fuel) modem clock timeout delay deadline k sent advances h =
    continue_unless-none
      (judge timeout delay deadline (clock k) (run_at_command modem sent cpin_command).1)
      (run_at_command modem sent cpin_command).0 _
      (cpin_loop-total fuel modem clock timeout delay deadline (k + 1)
        (run_at_command modem sent cpin_command).0 advances (omega (arith, h, advances k)))

-- If the clock reads at least `delay` more behind each attempt than behind the one before, then
-- `waitForCPINReady` returns, with success or an error, within any number of attempts that
-- together last longer than the timeout.
pub wait_for_cpin_ready-total :
    (fuel : ℕ) (modem : Commander) (clock : ℕ → ℕ) (start timeout delay : ℕ) (sent : List Text)
    → ((i : ℕ) → clock i + delay ≤ clock (i + 1))
    → start ≤ clock 0
    → timeout < fuel * delay
    → wait_for_cpin_ready fuel modem clock start timeout delay sent ≢ none
unfolding wait_for_cpin_ready
wait_for_cpin_ready-total zero modem clock start timeout delay sent advances begun h = ground arith
wait_for_cpin_ready-total (suc fuel) modem clock start timeout delay sent advances begun h =
    cpin_loop-total fuel modem clock timeout delay (start + timeout) 0 sent advances
      (omega (arith, begun, h))

then_last-total :
    (modem : Commander) (waited : Option (Sent (Unit {0})))
    → waited ≢ none
    → then_last modem waited ≢ none
then_last-total modem none h = absurd (h refl)
then_last-total modem (some (sent, ok u)) h = λ e. absurd (cc e)
then_last-total modem (some (sent, err x)) h = λ e. absurd (cc e)

then_wait-total :
    (wait : List Text → Option (Sent (Unit {0}))) (first : Sent (Unit {0}))
    → ((sent : List Text) → wait sent ≢ none)
    → then_wait wait first ≢ none
then_wait-total wait (sent, ok u) h = h sent
then_wait-total wait (sent, err x) h = λ e. absurd (cc e)

-- If the clock reads at least the retry delay of 2 s more behind each attempt than behind the one before, then
-- `Init` returns within any number of attempts that together last longer than the timeout given,
-- or than 120 s if none was given.
pub init-total :
    (fuel : ℕ) (modem : Commander) (clock : ℕ → ℕ) (start : ℕ) (sim_ready_timeout : ℤ)
    → ((i : ℕ) → clock i + cpin_retry_delay ≤ clock (i + 1))
    → start ≤ clock 0
    → or_timeout sim_ready_timeout < fuel * cpin_retry_delay
    → init fuel modem clock start sim_ready_timeout ≢ none
unfolding init init_modem
init-total fuel modem clock start sim_ready_timeout advances begun h = then_last-total modem _ (
    then_wait-total _ (run_commands modem [] first_commands) (λ sent.
      wait_for_cpin_ready-total fuel modem clock start (or_timeout sim_ready_timeout)
        cpin_retry_delay sent advances begun h))
