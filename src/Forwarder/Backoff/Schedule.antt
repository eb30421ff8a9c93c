-- ===== src/Forwarder/Backoff/Schedule.antt =====
-- The delays of the reconnect loop of internal/forwarder/forwarder.go, described by the sessions that
-- failed since the last one that was connected.
use at_message_forward.Prelude.{
  ℕ, suc, ◌*◌, ◌^◌, ◌≤◌, ◌<◌, false, List, [], ◌∷◌, if◌then◌else◌, ℤ, pos, ◌≡◌, refl, ap, arith,
  All, length, Bool-cases, inl, inr, ◌∙◌, sym,
}
use Prim.Native.Nat.{min}
use native.Mathlib.Nat.{pow-suc}
use at_message_forward.Forwarder.Backoff.{
  next_backoff, or_default, reconnect_initial_backoff, reconnect_max_backoff, is_closed, Round,
  running, reconnect_from, run_reconnect_loop,
}

-- Nothing cancels the loop in this round.
abbrev pub IsLive : Round → Type 0
IsLive r = (r.done_before ≡ false) × (r.done_after ≡ false) × (r.wait_failed ≡ false)

-- The delay doubles with each failure, up to the limit.
abbrev pub delay_after : ℕ → ℕ → ℕ → ℕ
delay_after initial max failures = min (initial * 2 ^ failures) max

-- The delays of rounds that follow `failures` sessions with no connection.
abbrev pub schedule : ℕ → ℕ → ℕ → List Round → List ℤ
schedule initial max failures [] = []
schedule initial max failures (r ∷ rounds) =
    if is_closed r.ended
    then pos initial ∷ schedule initial max 0 rounds
    else pos (delay_after initial max failures) ∷ schedule initial max (suc failures) rounds

pub next_backoff-pos :
    (current max : ℕ)
    → current ≤ max
    → max < 2 ^ 62
    → next_backoff (pos current) (pos max) ≡ pos (min (current * 2) max)
unfolding next_backoff
next_backoff-pos current max h small = ground arith

doubled : (i k : ℕ) → i * 2 ^ suc k ≡ i * 2 ^ k * 2
doubled i k = rw (pow-suc 2 k) (omega arith)

next_delay : (i m k : ℕ) → min (delay_after i m k * 2) m ≡ delay_after i m (suc k)
next_delay i m k = rw (doubled i k) (omega arith)

next_backoff-delay_after :
    (i m k : ℕ)
    → m < 2 ^ 62
    → next_backoff (pos (delay_after i m k)) (pos m) ≡ pos (delay_after i m (suc k))
next_backoff-delay_after i m k small =
    next_backoff-pos (delay_after i m k) m (omega arith) small ∙ ap pos (next_delay i m k)

delay_after_zero : (i m : ℕ) → i ≤ m → delay_after i m 0 ≡ i
delay_after_zero i m h = omega arith

reconnect_from-schedule :
    (i m k : ℕ) (rounds : List Round)
    → i ≤ m
    → m < 2 ^ 62
    → All IsLive rounds
    → reconnect_from (pos i) (pos m) (pos (delay_after i m k)) rounds
      ≡ record { sessions = length rounds; waits = schedule i m k rounds; status = running }
unfolding reconnect_from
reconnect_from-schedule i m k [] h small live = refl
reconnect_from-schedule i m k (r ∷ rounds) h small live = elim (Bool-cases (is_closed r.ended)) [
  | inl closed ↦
      rw (live.0.0, live.0.1, live.0.2, closed, ← ap pos (delay_after_zero i m h))
        (rw (reconnect_from-schedule i m 0 rounds h small live.1))
  | inr failed ↦ rw (
    live.0.0,
    live.0.1,
    live.0.2,
    failed,
    next_backoff-delay_after i m k small,
    reconnect_from-schedule i m (suc k) rounds h small live.1,
  )
]

-- The loop options of a positive first delay, no longer than the limit, that stay clear of overflow.
abbrev pub AreOptions : ℕ → ℕ → Type 0
AreOptions i m = (0 < i) × (i ≤ m) × (m < 2 ^ 62)

pub or_default-pos : (i : ℕ) (d : ℤ) → 0 < i → or_default (pos i) d ≡ pos i
or_default-pos i d h = ground arith

-- While nothing cancels it, the loop runs a session in each round and goes on. The delay behind a
-- session that was connected and closed is the first delay; behind the k-th other session in a row
-- since then it is the first delay doubled k - 1 times, or the limit if that is less. The delays are
-- positive, the first is not above the limit, and the limit is below 2^62 ns.
pub run_reconnect_loop-schedule :
    (i m : ℕ) (rounds : List Round)
    → AreOptions i m
    → All IsLive rounds
    → run_reconnect_loop (record { initial_backoff = pos i; max_backoff = pos m }) rounds
      ≡ record { sessions = length rounds; waits = schedule i m 0 rounds; status = running }
unfolding run_reconnect_loop
run_reconnect_loop-schedule i m rounds h live =
    rw
      (
        or_default-pos i reconnect_initial_backoff h.0,
        or_default-pos m reconnect_max_backoff (omega arith),
      )
      (ap (λ b. reconnect_from (pos i) (pos m) (pos b) rounds) (sym (delay_after_zero i m h.1))
        ∙ reconnect_from-schedule i m 0 rounds h.1 h.2 live)
