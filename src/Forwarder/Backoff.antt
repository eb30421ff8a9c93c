-- ===== src/Forwarder/Backoff.antt =====
-- `runReconnectLoopWithOptions` and `nextBackoff` of internal/forwarder/forwarder.go. A
-- `time.Duration` is a signed integer of 64 bits, in nanoseconds.
pub mod Schedule
pub mod Bounds
use at_message_forward.Prelude.{
  ℕ, suc, ◌+◌, ◌-◌, ◌*◌, ◌%◌, ◌^◌, Bool, true, false, List, [], ◌∷◌, ltb, if◌then◌else◌, ℤ, pos,
  negsuc, ltb_ℤ, leb_ℤ,
}

-- The value of a 64-bit sum or product, which wraps.
unfoldable pub wrap_i64 : ℤ → ℤ
wrap_i64 (pos n) = let m = n % 2 ^ 64 in if ltb m (2 ^ 63) then pos m else negsuc (2 ^ 64 - 1 - m)
wrap_i64 (negsuc n) =
    let m = n % 2 ^ 64 in if ltb m (2 ^ 63) then negsuc m else pos (2 ^ 64 - 1 - m)

abbrev pub double : ℤ → ℤ
double (pos n) = pos (n * 2)
double (negsuc n) = negsuc (n * 2 + 1)

unfoldable pub next_backoff : ℤ → ℤ → ℤ
unfolding wrap_i64
next_backoff current max =
    let next = wrap_i64 (double current) in if ltb_ℤ max next then max else next

-- 2 s and 30 s.
abbrev pub reconnect_initial_backoff : ℤ
reconnect_initial_backoff = pos (2 * 10 ^ 9)

abbrev pub reconnect_max_backoff : ℤ
reconnect_max_backoff = pos (30 * 10 ^ 9)

pub record Options : Type 0 where
  pub initial_backoff : ℤ
  pub max_backoff : ℤ

-- `if x <= 0 { x = fallback }`.
abbrev pub or_default : ℤ → ℤ → ℤ
or_default d fallback = if leb_ℤ d (pos 0) then fallback else d

-- What `runSession` returns: an error that is `errSerialSessionClosed`, another one, or none.
pub data SessionEnd : Type 0 where
  session_closed session_failed session_ended : SessionEnd

abbrev pub is_closed : SessionEnd → Bool
is_closed session_closed = true
is_closed session_failed = false
is_closed session_ended = false

-- What the environment does in one round: whether the context is done at each of the two tests, how
-- the session ended, and whether `wait` returned an error.
pub record Round : Type 0 where
  pub done_before : Bool
  pub ended : SessionEnd
  pub done_after : Bool
  pub wait_failed : Bool

pub data Status : Type 0 where
  running stopped : Status

-- The sessions that were run, the delays that were waited for, and whether the loop has returned.
pub record Trace : Type 0 where
  pub sessions : ℕ
  pub waits : List ℤ
  pub status : Status

abbrev pub after_wait : ℤ → Trace → Trace
after_wait delay t = record t { sessions = suc t.sessions; waits = delay ∷ t.waits }

-- One round with its delay, in front of the rounds behind it.
abbrev pub in_round : Round → ℤ → Trace → Trace
in_round r delay rest =
    if r.done_before
    then record { sessions = 0; waits = []; status = stopped }
    else if r.done_after
    then record { sessions = 1; waits = []; status = stopped }
    else if r.wait_failed
    then record { sessions = 1; waits = delay ∷ []; status = stopped }
    else after_wait delay rest

-- The loop over the rounds that the environment has taken so far.
unfoldable pub reconnect_from : ℤ → ℤ → ℤ → List Round → Trace
reconnect_from initial max backoff [] = record { sessions = 0; waits = []; status = running }
reconnect_from initial max backoff (r ∷ rounds) =
    let delay = if is_closed r.ended then initial else backoff in
    let next = if is_closed r.ended then initial else next_backoff delay max in
    in_round r delay (reconnect_from initial max next rounds)

unfoldable pub run_reconnect_loop : Options → List Round → Trace
run_reconnect_loop opts rounds =
    let initial = or_default opts.initial_backoff reconnect_initial_backoff in
    reconnect_from initial (or_default opts.max_backoff reconnect_max_backoff) initial rounds
